-- ===== src/ScheduleStore/Commit.antt =====
-- The writing operations of `AtomicScheduleStore`: `migrate_to_current_schema`, `save` and
-- `save_occurrence_state` of firmware/components/alarm_core/schedule_store.cpp.
use dawn_dock.Common.{
  ℕ, ◌+◌, ◌-◌, ◌%◌, ◌^◌, ◌==◌, Bool, true, false, not, ◌&&◌, ◌||◌, Option, none, some,
  if◌then◌else◌,
}
use dawn_dock.AlarmEngine.{PersistentAlarmState}
use dawn_dock.ScheduleStore.Types.{
  ScheduleSnapshot, StorageSlot, SlotReadStatus, SlotReadResult, SlotStorage, LoadStatus,
  LoadResult, StoreStatus, StoreResult, DecodedRecord,
}
use dawn_dock.ScheduleStore.Validate.{validate_snapshot}
use dawn_dock.ScheduleStore.Encode.{encode_record}
use dawn_dock.ScheduleStore.Decode.{decode_record}
use dawn_dock.ScheduleStore.Compare.{snapshots_equal}
use dawn_dock.ScheduleStore.Load.{is_loaded, load_unlocked, in_transaction}

-- `std::numeric_limits<std::uint64_t>::max()`.
abbrev pub uint64_max : ℕ
uint64_max = 2 ^ 64 - 1

abbrev pub opposite : StorageSlot → StorageSlot
opposite StorageSlot.a = StorageSlot.b
opposite StorageSlot.b = StorageSlot.a

abbrev pub store_result : StoreStatus → ℕ → StorageSlot → StoreResult
store_result status generation destination = record {
  status = status;
  generation = generation;
  destination = destination;
}

-- The result that only names a status.
abbrev pub bare_result : StoreStatus → StoreResult
bare_result status = store_result status 0 StorageSlot.a

-- A load that no operation writes over.
abbrev pub is_unreadable : LoadStatus → Bool
is_unreadable LoadStatus.corrupt = true
is_unreadable LoadStatus.unsupported_schema = true
is_unreadable LoadStatus.ambiguous = true
is_unreadable LoadStatus.empty = false
is_unreadable LoadStatus.loaded = false
is_unreadable LoadStatus.io_error = false

abbrev pub is_io_error : LoadStatus → Bool
is_io_error LoadStatus.io_error = true
is_io_error status = false

-- `expected + 1U == current`, where the sum does not wrap.
abbrev pub is_retry : ℕ → ℕ → Bool
is_retry expected current = not (expected == uint64_max) && (expected + 1) == current

-- The outcomes after which the store holds what the caller meant it to: `stored` or `unchanged`.
abbrev pub is_accepted : StoreStatus → Bool
is_accepted StoreStatus.stored = true
is_accepted StoreStatus.unchanged = true
is_accepted status = false

-- What is read back must be the record that was meant.
abbrev pub is_verified : ScheduleSnapshot → ℕ → Bool → Option DecodedRecord → Bool
is_verified snapshot generation unmigrated none = false
is_verified snapshot generation unmigrated (some verified) =
    (not unmigrated || not verified.migrated)
    && (verified.generation == generation && snapshots_equal verified.snapshot snapshot)

-- The end of each operation, behind the write: the read-back.
unfoldable pub verify_written :
    ScheduleSnapshot → ℕ → ℕ → StorageSlot → Bool → SlotReadResult → StoreResult
verify_written snapshot current generation destination unmigrated written = elim written.status [
  | SlotReadStatus.io_error ↦ store_result StoreStatus.io_error current destination
  | SlotReadStatus.empty ↦ store_result StoreStatus.verification_failed current destination
  | SlotReadStatus.present ↦
      if is_verified snapshot generation unmigrated (decode_record written.bytes)
      then store_result StoreStatus.stored generation destination
      else store_result StoreStatus.verification_failed current destination
]

module _ (storage : SlotStorage) where
  open storage use {Device, read, write}

  -- Encode, write, read back and verify. `unmigrated` is the further test of
  -- `migrate_to_current_schema`.
  unfoldable pub replace_slot :
      ScheduleSnapshot → ℕ → ℕ → StorageSlot → Bool → Device → Device × StoreResult
  unfolding verify_written
  replace_slot snapshot current generation destination unmigrated device =
      elim (encode_record snapshot generation) [
        | none ↦ (device, store_result StoreStatus.invalid_snapshot current destination)
        | some encoded ↦
            if not (write device destination encoded).1
            then (
              (write device destination encoded).0,
              store_result StoreStatus.io_error current destination,
            )
            else (
              (write device destination encoded).0,
              verify_written snapshot current generation destination unmigrated
                  (read (write device destination encoded).0 destination),
            )
      ]

  unfoldable pub migrate_loaded : LoadResult → Device → Device × StoreResult
  unfolding replace_slot
  migrate_loaded current device =
      if is_io_error current.status
      then (device, bare_result StoreStatus.io_error)
      else if is_unreadable current.status
      then (device, bare_result StoreStatus.corrupt_store)
      else if not (is_loaded current.status) || not current.migrated
      then (device, store_result StoreStatus.unchanged current.generation current.source)
      else if current.generation == uint64_max
      then (device, store_result StoreStatus.invalid_snapshot current.generation current.source)
      else replace_slot current.snapshot current.generation (current.generation + 1)
          (opposite current.source) true device

  unfoldable pub migrate_to_current_schema : Device → Device × StoreResult
  unfolding migrate_loaded in_transaction load_unlocked
  migrate_to_current_schema =
      in_transaction storage (bare_result StoreStatus.io_error)
        (λ device. migrate_loaded (load_unlocked storage device) device)

  abbrev pub current_revision : LoadResult → ℕ
  current_revision current = if is_loaded current.status then current.snapshot.revision else 0

  -- The occurrence journal of a stored record is carried forward.
  abbrev pub carry_journal : LoadResult → ScheduleSnapshot → ScheduleSnapshot
  carry_journal current snapshot =
      if is_loaded current.status
      then record snapshot { occurrence_state = current.snapshot.occurrence_state }
      else snapshot

  unfoldable pub save_loaded : LoadResult → ScheduleSnapshot → ℕ → Device → Device × StoreResult
  unfolding replace_slot
  save_loaded current snapshot expected_revision device =
      let committed = carry_journal current snapshot in
      let revision = current_revision current in
      let generation = (current.generation + 1) % 2 ^ 64 in
      if is_io_error current.status
      then (device, bare_result StoreStatus.io_error)
      else if is_unreadable current.status
      then (device, bare_result StoreStatus.corrupt_store)
      else if is_loaded current.status
          && (snapshots_equal current.snapshot committed
              && (expected_revision == revision || is_retry expected_revision revision))
      then (device, store_result StoreStatus.unchanged current.generation current.source)
      else if not (revision == expected_revision)
      then (device, store_result StoreStatus.revision_conflict current.generation StorageSlot.a)
      else if not (committed.revision == ((expected_revision + 1) % 2 ^ 64))
          || not (validate_snapshot committed)
      then (device, store_result StoreStatus.invalid_snapshot current.generation StorageSlot.a)
      else if generation == 0
      then (device, store_result StoreStatus.invalid_snapshot current.generation StorageSlot.a)
      else replace_slot committed current.generation generation
          (if is_loaded current.status then opposite current.source else StorageSlot.a) false device

  unfoldable pub save : ScheduleSnapshot → ℕ → Device → Device × StoreResult
  unfolding save_loaded in_transaction load_unlocked
  save snapshot expected_revision =
      in_transaction storage (bare_result StoreStatus.io_error)
        (λ device. save_loaded (load_unlocked storage device) snapshot expected_revision device)

  unfoldable pub save_occurrence_loaded :
      LoadResult → PersistentAlarmState → ℕ → ℕ → Device → Device × StoreResult
  unfolding replace_slot
  save_occurrence_loaded current state expected_revision expected_generation device =
      let updated = record (current.snapshot) { occurrence_state = state } in
      if is_io_error current.status
      then (device, bare_result StoreStatus.io_error)
      else if is_unreadable current.status
      then (device, bare_result StoreStatus.corrupt_store)
      else if not (is_loaded current.status) || not (current.snapshot.revision == expected_revision)
      then (device, store_result StoreStatus.revision_conflict current.generation current.source)
      else if not (validate_snapshot updated)
      then (device, store_result StoreStatus.invalid_snapshot current.generation current.source)
      else if snapshots_equal updated current.snapshot
          && (current.generation == expected_generation
              || is_retry expected_generation current.generation)
      then (device, store_result StoreStatus.unchanged current.generation current.source)
      else if not (current.generation == expected_generation)
      then (device, store_result StoreStatus.generation_conflict current.generation current.source)
      else if current.generation == uint64_max
      then (device, store_result StoreStatus.invalid_snapshot current.generation current.source)
      else replace_slot updated current.generation (current.generation + 1)
          (opposite current.source) false device

  unfoldable pub save_occurrence_state :
      PersistentAlarmState → ℕ → ℕ → Device → Device × StoreResult
  unfolding save_occurrence_loaded in_transaction load_unlocked
  save_occurrence_state state expected_revision expected_generation =
      in_transaction storage (bare_result StoreStatus.io_error) (λ device.
        save_occurrence_loaded (load_unlocked storage device) state expected_revision
          expected_generation device)
