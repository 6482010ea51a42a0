-- ===== src/ScheduleStore/Slots.antt =====
-- What `load_unlocked` finds, in terms of the two slots.
use dawn_dock.Common.{ℕ, ◌<◌, true, none, some, Option-cases, Bytes, ◌≡◌, refl, arith, inl, inr}
use dawn_dock.ScheduleStore.Types.{
  StorageSlot, SlotReadStatus, SlotReadResult, SlotStorage, LoadStatus, LoadResult, DecodedRecord,
}
use dawn_dock.ScheduleStore.Decode.{decode_record, open_record, intact_future_schema_generation}
use dawn_dock.ScheduleStore.Load.{
  Scan, first_scan, scan_decoded, scan_present, scan_slot, finish_known, finish_scan, load_unlocked,
}
use dawn_dock.ScheduleStore.Commit.{opposite}

-- A record that decodes is not one of a future schema.
pub decode_record-intact :
    (bytes : Bytes) (decoded : DecodedRecord)
    → decode_record bytes ≡ some decoded
    → intact_future_schema_generation bytes ≡ none
unfolding decode_record intact_future_schema_generation
decode_record-intact bytes decoded h = elim (Option-cases (open_record bytes)) [
  | inl e ↦ ground arith
  | inr (header, e) ↦ ground arith
]

-- A slot that holds a record of this or the earlier schema.
pub record Holds (read : SlotReadResult) (decoded : DecodedRecord) : Type 0 where
  pub is_present : read.status ≡ SlotReadStatus.present
  pub decodes : decode_record read.bytes ≡ some decoded

-- A slot in which a load finds nothing to prefer to generation `g`: it is empty, or holds no
-- record at all, or an older one.
pub data IsOlder (g : ℕ) (read : SlotReadResult) : Type 0 where
  is_empty : read.status ≡ SlotReadStatus.empty → IsOlder g read
  is_torn :
      read.status ≡ SlotReadStatus.present
      → intact_future_schema_generation read.bytes ≡ none
      → decode_record read.bytes ≡ none
      → IsOlder g read
  is_earlier :
      (decoded : DecodedRecord) → Holds read decoded → decoded.generation < g → IsOlder g read

-- What one round of the loop makes of a slot.
scan_slot-held :
    (scan : Scan) (slot : StorageSlot) (read : SlotReadResult) (decoded : DecodedRecord)
    → Holds read decoded
    → scan_slot scan slot read
      ≡ some (scan_decoded (record scan { any_present = true }) slot decoded)
unfolding scan_slot scan_present
scan_slot-held scan slot read decoded h =
    rw (scan_slot, h.is_present, scan_present, decode_record-intact _ _ h.decodes, h.decodes)

scan_slot-empty :
    (scan : Scan) (slot : StorageSlot) (read : SlotReadResult)
    → read.status ≡ SlotReadStatus.empty
    → scan_slot scan slot read ≡ some scan
unfolding scan_slot
scan_slot-empty scan slot read h = rw h

scan_slot-torn :
    (scan : Scan) (slot : StorageSlot) (read : SlotReadResult)
    → read.status ≡ SlotReadStatus.present
    → intact_future_schema_generation read.bytes ≡ none
    → decode_record read.bytes ≡ none
    → scan_slot scan slot read ≡ some (record scan { any_present = true; invalid_present = true })
unfolding scan_slot scan_present
scan_slot-torn scan slot read p i t = rw (scan_slot, p, scan_present, i, t)

abbrev pub record_of : LoadResult → DecodedRecord
record_of found = record {
  snapshot = found.snapshot;
  generation = found.generation;
  migrated = found.migrated;
}

-- What a load found is the record of the slot it names.
unfoldable pub HoldsFound : (StorageSlot → SlotReadResult) → LoadResult → Type 0
HoldsFound reads found =
    found.status ≡ LoadStatus.loaded → Holds (reads found.source) (record_of found)

scan_slot-HoldsFound :
    (reads : StorageSlot → SlotReadResult) (scan next : Scan) (slot : StorageSlot)
    → HoldsFound reads scan.result
    → scan_slot scan slot (reads slot) ≡ some next
    → HoldsFound reads next.result
unfolding scan_slot scan_present scan_decoded HoldsFound
scan_slot-HoldsFound reads scan next slot h e l = ground arith

finish_scan-HoldsFound :
    (reads : StorageSlot → SlotReadResult) (scan : Scan)
    → HoldsFound reads scan.result
    → HoldsFound reads (finish_scan scan)
unfolding finish_scan finish_known HoldsFound
finish_scan-HoldsFound reads scan h l = ground arith

module _ (storage : SlotStorage) where
  open storage use {Device, read}

  -- The slot that a load names as its source holds the record that it returns.
  pub load-HoldsFound : (d : Device) → HoldsFound (read d) (load_unlocked storage d)
  unfolding load_unlocked HoldsFound
  load-HoldsFound d =
      elim (Option-cases (scan_slot first_scan StorageSlot.a (read d StorageSlot.a))) [
        | inl e ↦ rw (load_unlocked, e) (ground arith)
        | inr (scan, e) ↦
            elim (Option-cases (scan_slot scan StorageSlot.b (read d StorageSlot.b))) [
              | inl f ↦ rw (load_unlocked, e, f) (ground arith)
              | inr (both, f) ↦
                  rw (load_unlocked, e, f)
                    (finish_scan-HoldsFound (read d) both (
                      scan_slot-HoldsFound (read d) scan both StorageSlot.b
                        (scan_slot-HoldsFound (read d) first_scan scan StorageSlot.a (ground arith)
                          e)
                        f))
            ]
      ]

  -- A slot that cannot be read is an I/O error of the load.
  pub load-refused :
      (d : Device) (slot : StorageSlot)
      → (read d slot).status ≡ SlotReadStatus.io_error
      → (load_unlocked storage d).status ≡ LoadStatus.io_error
  unfolding load_unlocked scan_slot
  load-refused d StorageSlot.a h = rw (load_unlocked, scan_slot, h) refl
  load-refused d StorageSlot.b h =
      elim (Option-cases (scan_slot first_scan StorageSlot.a (read d StorageSlot.a))) [
        | inl e ↦ rw (load_unlocked, e) refl
        | inr (scan, e) ↦ rw (load_unlocked, e, scan_slot, h) refl
      ]

  pub load-newest :
      (d : Device) (slot : StorageSlot) (decoded : DecodedRecord)
      → Holds (read d slot) decoded
      → IsOlder decoded.generation (read d (opposite slot))
      → ((load_unlocked storage d).status ≡ LoadStatus.loaded)
        × ((load_unlocked storage d).snapshot ≡ decoded.snapshot)
        × ((load_unlocked storage d).generation ≡ decoded.generation)
        × ((load_unlocked storage d).source ≡ slot)
  unfolding load_unlocked scan_decoded
  load-newest d StorageSlot.a decoded h (is_empty e) =
      rw
        (
          load_unlocked,
          scan_slot-held _ StorageSlot.a (read d StorageSlot.a) decoded h,
          scan_slot-empty _ StorageSlot.b (read d StorageSlot.b) e,
        )
        (ground arith)
  load-newest d StorageSlot.a decoded h (is_torn p i t) =
      rw
        (
          load_unlocked,
          scan_slot-held _ StorageSlot.a (read d StorageSlot.a) decoded h,
          scan_slot-torn _ StorageSlot.b (read d StorageSlot.b) p i t,
        )
        (ground arith)
  load-newest d StorageSlot.a decoded h (is_earlier other o l) =
      rw
        (
          load_unlocked,
          scan_slot-held _ StorageSlot.a (read d StorageSlot.a) decoded h,
          scan_slot-held _ StorageSlot.b (read d StorageSlot.b) other o,
        )
        (ground arith)
  load-newest d StorageSlot.b decoded h (is_empty e) =
      rw
        (
          load_unlocked,
          scan_slot-empty _ StorageSlot.a (read d StorageSlot.a) e,
          scan_slot-held _ StorageSlot.b (read d StorageSlot.b) decoded h,
        )
        (ground arith)
  load-newest d StorageSlot.b decoded h (is_torn p i t) =
      rw
        (
          load_unlocked,
          scan_slot-torn _ StorageSlot.a (read d StorageSlot.a) p i t,
          scan_slot-held _ StorageSlot.b (read d StorageSlot.b) decoded h,
        )
        (ground arith)
  load-newest d StorageSlot.b decoded h (is_earlier other o l) =
      rw
        (
          load_unlocked,
          scan_slot-held _ StorageSlot.a (read d StorageSlot.a) other o,
          scan_slot-held _ StorageSlot.b (read d StorageSlot.b) decoded h,
        )
        (ground arith)
