-- ===== src/ScheduleStore/Failures.antt =====
-- What the writing operations of firmware/components/alarm_core/schedule_store.cpp leave behind when
-- they refuse a commit or fail in it.
use dawn_dock.Common.{
  ℕ, ◌+◌, ◌%◌, ◌^◌, ◌≡◌, refl, arith, inl, inr, Bool, true, false, Bool-cases, Option-cases, ◌⊎◌,
}
use dawn_dock.ScheduleStore.Types.{
  StorageSlot, SlotReadStatus, SlotReadResult, SlotStorage, LoadStatus, LoadResult,
  ScheduleSnapshot, StoreStatus, StoreResult,
}
use dawn_dock.ScheduleStore.Encode.{encode_record}
use dawn_dock.ScheduleStore.Load.{load_unlocked, in_transaction}
use dawn_dock.ScheduleStore.Slots.{IsOlder, load-refused}
use dawn_dock.ScheduleStore.Durable.{SlotLaws, Keeps, IsCurrent, replace_slot-Keeps, load-survives}
use dawn_dock.ScheduleStore.Reads.{destination, ReadsAs}
use dawn_dock.ScheduleStore.Commits.{load-begin}
use dawn_dock.ScheduleStore.Commit.{
  opposite, replace_slot, verify_written, save_loaded, save, carry_journal, bare_result,
}

-- The outcomes that say that nothing was written.
abbrev pub is_refusal : StoreStatus → Bool
is_refusal StoreStatus.stored = false
is_refusal StoreStatus.unchanged = true
is_refusal StoreStatus.revision_conflict = true
is_refusal StoreStatus.generation_conflict = true
is_refusal StoreStatus.invalid_snapshot = true
is_refusal StoreStatus.corrupt_store = true
is_refusal StoreStatus.io_error = false
is_refusal StoreStatus.verification_failed = false

verify_written-refusal :
    (snapshot : ScheduleSnapshot) (current generation : ℕ) (slot : StorageSlot) (unmigrated : Bool)
    (written : SlotReadResult)
    → is_refusal (verify_written snapshot current generation slot unmigrated written).status ≡ false
unfolding verify_written
verify_written-refusal snapshot current generation slot unmigrated written = ground arith

module _ (storage : SlotStorage) (laws : SlotLaws storage) where
  open storage use {Device, begin_transaction, end_transaction, read, write}

  replace_slot-refusal :
      (snapshot : ScheduleSnapshot) (current generation : ℕ) (slot : StorageSlot)
      (unmigrated : Bool) (d : Device)
      → is_refusal (replace_slot storage snapshot current generation slot unmigrated d).1.status
        ≡ true
      → (replace_slot storage snapshot current generation slot unmigrated d).0 ≡ d
  unfolding replace_slot
  replace_slot-refusal snapshot current generation slot unmigrated d h =
      elim (Option-cases (encode_record snapshot generation)) [
        | inl e ↦ ground arith
        | inr (bytes, e) ↦ ground (
          arith,
          verify_written-refusal snapshot current generation slot unmigrated
              (read (write d slot bytes).0 slot),
        )
      ]

  replace_slot-source :
      (snapshot : ScheduleSnapshot) (current generation : ℕ) (slot : StorageSlot)
      (unmigrated : Bool) (d : Device)
      → Keeps storage laws
          (replace_slot storage snapshot current generation (opposite slot) unmigrated d).0
          d
          slot
  replace_slot-source snapshot current generation StorageSlot.a unmigrated d =
      replace_slot-Keeps storage laws snapshot current generation StorageSlot.b unmigrated d
  replace_slot-source snapshot current generation StorageSlot.b unmigrated d =
      replace_slot-Keeps storage laws snapshot current generation StorageSlot.a unmigrated d

  transaction-refusal :
      (body : Device → Device × StoreResult) (d : Device)
      → ((e : Device) → is_refusal (body e).1.status ≡ true → (body e).0 ≡ e)
      → is_refusal (in_transaction storage (bare_result StoreStatus.io_error) body d).1.status
        ≡ true
      → ReadsAs storage (in_transaction storage (bare_result StoreStatus.io_error) body d).0 d
  unfolding in_transaction
  transaction-refusal body d k h slot = elim (Bool-cases (begin_transaction d).1) [
    | inl e ↦
        rw (in_transaction, e, laws.end_reads, k (begin_transaction d).0 (ground arith))
          (laws.begin_reads d slot)
    | inr e ↦ ground arith
  ]

  -- A transaction whose body keeps a slot keeps it.
  transaction-Keeps :
      (body : Device → Device × StoreResult) (d : Device) (slot : StorageSlot)
      → Keeps storage laws (body (begin_transaction d).0).0 (begin_transaction d).0 slot
      → Keeps storage laws
          (in_transaction storage (bare_result StoreStatus.io_error) body d).0
          d
          slot
  unfolding in_transaction
  transaction-Keeps body d slot h = elim (Bool-cases (begin_transaction d).1) [
    | inl e ↦ rw (in_transaction, e, laws.end_reads, ← laws.begin_reads d slot) h
    | inr e ↦ rw (in_transaction, e) (inl (laws.begin_reads d slot))
  ]

  save_loaded-cases :
      (current : LoadResult) (snapshot : ScheduleSnapshot) (expected : ℕ) (d : Device)
      → ((save_loaded storage current snapshot expected d).0 ≡ d)
        ⊎ (save_loaded storage current snapshot expected d
            ≡ replace_slot storage
                (carry_journal storage current snapshot)
                current.generation
                ((current.generation + 1) % 2 ^ 64)
                (destination current)
                false
                d)
  unfolding save_loaded
  save_loaded-cases current snapshot expected d = ground arith

  save_loaded-refusal :
      (current : LoadResult) (snapshot : ScheduleSnapshot) (expected : ℕ) (d : Device)
      → is_refusal (save_loaded storage current snapshot expected d).1.status ≡ true
      → (save_loaded storage current snapshot expected d).0 ≡ d
  save_loaded-refusal current snapshot expected d h =
      elim (save_loaded-cases current snapshot expected d) [
        | inl same ↦ same
        | inr e ↦ rw e (replace_slot-refusal _ _ _ _ false d (rw (← e) h))
      ]

  save_loaded-source :
      (current : LoadResult) (snapshot : ScheduleSnapshot) (expected : ℕ) (d : Device)
      → current.status ≡ LoadStatus.loaded
      → Keeps storage laws (save_loaded storage current snapshot expected d).0 d current.source
  save_loaded-source current snapshot expected d l =
      elim (save_loaded-cases current snapshot expected d) [
        | inl same ↦ rw same (inl refl)
        | inr e ↦ rw (e, l) (replace_slot-source _ _ _ current.source false d)
      ]

  -- A refused `save` leaves both slots as they were.
  pub save-refusal :
      (d : Device) (snapshot : ScheduleSnapshot) (expected : ℕ)
      → is_refusal (save storage snapshot expected d).1.status ≡ true
      → ReadsAs storage (save storage snapshot expected d).0 d
  unfolding save
  save-refusal d snapshot expected h slot =
      transaction-refusal (λ e. save_loaded storage (load_unlocked storage e) snapshot expected e) d
        (λ e. save_loaded-refusal (load_unlocked storage e) snapshot expected e) h slot

  -- On a device whose slots are independent and made of bytes: a `save` over a stored record,
  -- whatever comes of it, leaves that record for the next load, or a device that answers the load
  -- with an I/O error, as long as the slot that it writes to holds no whole new record: it cannot be
  -- read, or it is empty, or it holds a record of an earlier generation, or bytes that are a record
  -- neither of this schema nor of a later one. The write may have failed, or be torn, or have made
  -- the device refuse further reads.
  pub save-survives :
      (d : Device) (snapshot : ScheduleSnapshot) (expected : ℕ)
      → (load_unlocked storage d).status ≡ LoadStatus.loaded
      → IsOlder
          (load_unlocked storage d).generation
          (read (save storage snapshot expected d).0 (opposite (load_unlocked storage d).source))
        ⊎ ((read
              (save storage snapshot expected d).0
              (opposite (load_unlocked storage d).source)).status
            ≡ SlotReadStatus.io_error)
      → IsCurrent storage
          (save storage snapshot expected d).0
          (load_unlocked storage d).snapshot
          (load_unlocked storage d).generation
        ⊎ ((load_unlocked storage (save storage snapshot expected d).0).status
            ≡ LoadStatus.io_error)
  unfolding save
  save-survives d snapshot expected h (inr r) =
      inr (load-refused storage (save storage snapshot expected d).0 _ r)
  save-survives d snapshot expected h (inl o) =
      let body : Device → Device × StoreResult =
        λ e. save_loaded storage (load_unlocked storage e) snapshot expected e in
      let inside : Keeps storage laws (body (begin_transaction d).0).0 (begin_transaction d).0
          (load_unlocked storage d).source =
        rw (← load-begin storage laws d) (
          save_loaded-source (load_unlocked storage (begin_transaction d).0) snapshot expected
            (begin_transaction d).0 (rw (load-begin storage laws d) h)) in
      elim (transaction-Keeps body d (load_unlocked storage d).source inside) [
        | inl same ↦ inl (load-survives storage laws d _ h same o)
        | inr r ↦ inr (load-refused storage (save storage snapshot expected d).0 _ r)
      ]
