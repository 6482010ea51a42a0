-- ===== src/ScheduleStore/Load.antt =====
-- `load` and `load_unlocked` of `AtomicScheduleStore`,
-- firmware/components/alarm_core/schedule_store.cpp, over any slot storage.
use dawn_dock.Common.{
  ℕ, ltb, leb, ◌==◌, bool_eq, Bool, true, false, not, ◌&&◌, ◌||◌, Option, none, some, if◌then◌else◌,
  Bytes,
}
use dawn_dock.ScheduleStore.Types.{
  StorageSlot, SlotReadStatus, SlotReadResult, SlotStorage, LoadStatus, LoadResult, DecodedRecord,
  default_load,
}
use dawn_dock.ScheduleStore.Decode.{decode_record, intact_future_schema_generation}
use dawn_dock.ScheduleStore.Compare.{snapshots_equal}

abbrev pub is_loaded : LoadStatus → Bool
is_loaded LoadStatus.loaded = true
is_loaded status = false

-- The local variables of `load_unlocked` between two slots.
pub record Scan : Type 0 where
  pub result : LoadResult
  pub any_present : Bool
  pub invalid_present : Bool
  pub is_ambiguous : Bool
  pub future_generation : Option ℕ

abbrev pub first_scan : Scan
first_scan = record {
  result = default_load;
  any_present = false;
  invalid_present = false;
  is_ambiguous = false;
  future_generation = none;
}

abbrev pub newest : Option ℕ → ℕ → Option ℕ
newest none generation = some generation
newest (some known) generation = if ltb known generation then some generation else some known

-- A slot that holds a record of this or the earlier schema.
unfoldable pub scan_decoded : Scan → StorageSlot → DecodedRecord → Scan
scan_decoded scan slot decoded =
    let result = scan.result in
    if is_loaded result.status
      && (decoded.generation == result.generation
          && (not (bool_eq decoded.migrated result.migrated)
              || not (snapshots_equal decoded.snapshot result.snapshot)))
    then record scan { is_ambiguous = true }
    else if not (is_loaded result.status) || ltb result.generation decoded.generation
    then record scan {
      result = record result {
        status = LoadStatus.loaded;
        snapshot = decoded.snapshot;
        generation = decoded.generation;
        source = slot;
        migrated = decoded.migrated;
      };
      is_ambiguous = false;
    }
    else scan

unfoldable pub scan_present : Scan → StorageSlot → Bytes → Scan
unfolding scan_decoded
scan_present scan slot bytes = elim (intact_future_schema_generation bytes) [
  | some generation ↦ record scan {
    any_present = true;
    future_generation = newest scan.future_generation generation;
  }
  | none ↦ elim (decode_record bytes) [
    | none ↦ record scan { any_present = true; invalid_present = true }
    | some decoded ↦ scan_decoded (record scan { any_present = true }) slot decoded
  ]
]

-- One round of the loop; `none` is the return on an I/O error.
unfoldable pub scan_slot : Scan → StorageSlot → SlotReadResult → Option Scan
unfolding scan_present
scan_slot scan slot read = elim read.status [
  | SlotReadStatus.io_error ↦ none
  | SlotReadStatus.empty ↦ some scan
  | SlotReadStatus.present ↦ some (scan_present scan slot read.bytes)
]

abbrev pub is_superseded : Scan → ℕ → Bool
is_superseded scan future = not (is_loaded scan.result.status) || leb scan.result.generation future

unfoldable pub finish_known : Scan → LoadResult
finish_known scan =
    if scan.is_ambiguous
    then record (scan.result) { status = LoadStatus.ambiguous }
    else if is_loaded scan.result.status
    then record (scan.result) { corruption_detected = scan.invalid_present }
    else if scan.any_present
    then record (scan.result) { status = LoadStatus.corrupt }
    else scan.result

unfoldable pub finish_scan : Scan → LoadResult
unfolding finish_known
finish_scan scan = elim scan.future_generation [
  | none ↦ finish_known scan
  | some future ↦
      if is_superseded scan future
      then record default_load { status = LoadStatus.unsupported_schema; generation = future }
      else finish_known scan
]

module _ (storage : SlotStorage) where
  open storage use {Device, begin_transaction, end_transaction, read}

  unfoldable pub load_unlocked : Device → LoadResult
  unfolding scan_slot finish_scan
  load_unlocked device = elim (scan_slot first_scan StorageSlot.a (read device StorageSlot.a)) [
    | none ↦ record default_load { status = LoadStatus.io_error }
    | some scan ↦ elim (scan_slot scan StorageSlot.b (read device StorageSlot.b)) [
      | none ↦ record default_load { status = LoadStatus.io_error }
      | some both ↦ finish_scan both
    ]
  ]

  -- A transaction around `body`: it is ended on every way out, and not begun twice.
  unfoldable pub in_transaction : {A : Type 0} → A → (Device → Device × A) → Device → Device × A
  in_transaction refused body device =
      let (begun, active) = begin_transaction device in
      if not active then (begun, refused) else (end_transaction (body begun).0, (body begun).1)

  unfoldable pub load : Device → Device × LoadResult
  unfolding in_transaction
  load =
      in_transaction (record default_load { status = LoadStatus.io_error })
        (λ device. (device, load_unlocked device))
