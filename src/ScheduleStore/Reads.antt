-- ===== src/ScheduleStore/Reads.antt =====
-- What a load of the two slots says of each of them.
use dawn_dock.Common.{
  if◌then◌else◌, ◌<◌, ◌+◌, ◌^◌, false, none, some, Option-cases, ◌≡◌, refl, arith, ◌⊎◌, inl, inr,
}
use dawn_dock.ScheduleStore.Types.{
  default_load, StorageSlot, SlotReadStatus, SlotReadResult, SlotStorage, LoadStatus, LoadResult,
}
use dawn_dock.ScheduleStore.Load.{
  is_loaded, Scan, scan_present, scan_decoded, finish_known, load_unlocked, scan_slot, first_scan,
  finish_scan,
}
use dawn_dock.ScheduleStore.Slots.{
  IsOlder, is_empty, is_earlier, HoldsFound, load-HoldsFound, record_of,
}
use dawn_dock.ScheduleStore.Durable.{SlotLaws, decode_record-lt}
use dawn_dock.ScheduleStore.Commit.{is_io_error, is_unreadable, opposite}

-- A load as a function of what the two slots read as.
load_reads : SlotReadResult → SlotReadResult → LoadResult
load_reads x y = elim (scan_slot first_scan StorageSlot.a x) [
  | none ↦ record default_load { status = LoadStatus.io_error }
  | some scan ↦ elim (scan_slot scan StorageSlot.b y) [
    | none ↦ record default_load { status = LoadStatus.io_error }
    | some both ↦ finish_scan both
  ]
]

load_unlocked-reads :
    (storage : SlotStorage) (d : storage.Device)
    → load_unlocked storage d
      ≡ load_reads (storage.read d StorageSlot.a) (storage.read d StorageSlot.b)
unfolding load_unlocked load_reads
load_unlocked-reads storage d = refl

finish_scan-empty :
    (scan : Scan) → (finish_scan scan).status ≡ LoadStatus.empty → scan.any_present ≡ false
unfolding finish_scan finish_known
finish_scan-empty scan h = ground arith

scan_slot-absent :
    (scan next : Scan) (slot : StorageSlot) (x : SlotReadResult)
    → scan_slot scan slot x ≡ some next
    → next.any_present ≡ false
    → x.status ≡ SlotReadStatus.empty
unfolding scan_slot scan_present scan_decoded
scan_slot-absent scan next slot x e h = ground arith

load_reads-empty :
    (x y : SlotReadResult)
    → (load_reads x y).status ≡ LoadStatus.empty
    → (x.status ≡ SlotReadStatus.empty) × (y.status ≡ SlotReadStatus.empty)
unfolding load_reads scan_slot
load_reads-empty x y h = elim (Option-cases (scan_slot first_scan StorageSlot.a x)) [
  | inl e ↦ ground arith
  | inr (scan, e) ↦ elim (Option-cases (scan_slot scan StorageSlot.b y)) [
    | inl f ↦ ground arith
    | inr (both, f) ↦
        let absent = finish_scan-empty both (ground arith) in
        let second = scan_slot-absent scan both StorageSlot.b y f absent in
        (scan_slot-absent first_scan scan StorageSlot.a x e (ground arith), second)
  ]
]

load_reads-none :
    (x y : SlotReadResult)
    → x.status ≡ SlotReadStatus.empty
    → y.status ≡ SlotReadStatus.empty
    → (load_reads x y).generation ≡ 0
unfolding load_reads scan_slot finish_scan finish_known
load_reads-none x y p q = ground arith

-- Where `save` writes.
abbrev pub destination : LoadResult → StorageSlot
destination current = if is_loaded current.status then opposite current.source else StorageSlot.a

-- The loads that a commit goes on from.
pub readable_cases :
    (status : LoadStatus)
    → is_io_error status ≡ false
    → is_unreadable status ≡ false
    → (status ≡ LoadStatus.loaded) ⊎ (status ≡ LoadStatus.empty)
readable_cases LoadStatus.empty p q = inr refl
readable_cases LoadStatus.loaded p q = inl refl
readable_cases LoadStatus.corrupt p q = ground arith
readable_cases LoadStatus.unsupported_schema p q = ground arith
readable_cases LoadStatus.ambiguous p q = ground arith
readable_cases LoadStatus.io_error p q = ground arith

-- Two devices of which the same is read.
abbrev pub ReadsAs : (storage : SlotStorage) → storage.Device → storage.Device → Type 0
ReadsAs storage d e = (slot : StorageSlot) → storage.read d slot ≡ storage.read e slot

pub opposite-opposite : (slot : StorageSlot) → opposite (opposite slot) ≡ slot
opposite-opposite StorageSlot.a = refl
opposite-opposite StorageSlot.b = refl

module _ (storage : SlotStorage) (laws : SlotLaws storage) where
  open storage use {Device, begin_transaction, end_transaction, read, write}

  pub load-ReadsAs :
      (d e : Device) → ReadsAs storage d e → load_unlocked storage d ≡ load_unlocked storage e
  load-ReadsAs d e r = rw (
    load_unlocked-reads storage d,
    load_unlocked-reads storage e,
    r StorageSlot.a,
    r StorageSlot.b,
  )

  -- The source of a load is older than the next generation.
  pub source-IsOlder :
      (d : Device)
      → (load_unlocked storage d).status ≡ LoadStatus.loaded
      → IsOlder
          ((load_unlocked storage d).generation + 1)
          (read d (opposite (opposite (load_unlocked storage d).source)))
  unfolding HoldsFound
  source-IsOlder d h = rw opposite-opposite (
      is_earlier (record_of (load_unlocked storage d)) (load-HoldsFound storage d h) (ground arith))

  -- A load finds the store empty when both slots are.
  pub load-empty :
      (d : Device)
      → (load_unlocked storage d).status ≡ LoadStatus.empty
      → ((load_unlocked storage d).generation ≡ 0)
        × ((read d StorageSlot.b).status ≡ SlotReadStatus.empty)
  load-empty d h =
      let (p, q) =
        load_reads-empty (read d StorageSlot.a) (read d StorageSlot.b)
          (rw (← load_unlocked-reads storage d) h) in
      (rw (load_unlocked-reads storage d) (load_reads-none _ _ p q), q)

  -- The slot that `save` writes to holds nothing newer than what it writes.
  pub load-IsOlder :
      (d : Device)
      → ((load_unlocked storage d).status ≡ LoadStatus.loaded)
        ⊎ ((load_unlocked storage d).status ≡ LoadStatus.empty)
      → ((load_unlocked storage d).generation < 2 ^ 64)
        × IsOlder
            ((load_unlocked storage d).generation + 1)
            (read d (opposite (destination (load_unlocked storage d))))
  unfolding HoldsFound
  load-IsOlder d (inl h) = (
    decode_record-lt (read d (load_unlocked storage d).source).bytes
        (record_of (load_unlocked storage d)) (laws.read_bytes d (load_unlocked storage d).source)
        (load-HoldsFound storage d h).decodes,
    rw h (source-IsOlder d h),
  )
  load-IsOlder d (inr h) =
      (rw ((load-empty d h).0) (ground arith), rw h (is_empty (load-empty d h).1))
