-- ===== src/ScheduleStore/Accepted.antt =====
-- What the store holds after a commit that its caller takes for done: stored, or found unchanged.
use dawn_dock.Common.{
  ℕ, ◌+◌, ◌^◌, ◌%◌, ◌≡◌, refl, sym, arith, inl, inr, ◌⊎◌, Bool, true, false, Bool-cases,
  Option-cases,
}
use dawn_dock.AlarmEngine.{PersistentAlarmState}
use dawn_dock.ScheduleStore.Types.{
  StorageSlot, SlotReadResult, SlotStorage, LoadResult, ScheduleSnapshot, StoreStatus, StoreResult,
}
use dawn_dock.ScheduleStore.Encode.{encode_record}
use dawn_dock.ScheduleStore.Equality.{snapshots_equal_iff}
use dawn_dock.ScheduleStore.Load.{load_unlocked, load, in_transaction, is_loaded}
use dawn_dock.ScheduleStore.Durable.{SlotLaws, IsCurrent}
use dawn_dock.ScheduleStore.Reads.{destination, load-ReadsAs, load-IsOlder}
use dawn_dock.ScheduleStore.Commits.{
  load-begin, is_loaded-true, save_loaded-replaces, save_loaded-status, save_loaded-stored,
  save_occurrence_loaded-replaces, save_occurrence_loaded-stored,
}
use dawn_dock.ScheduleStore.Commit.{
  opposite, is_accepted, bare_result, replace_slot, verify_written, save_loaded, save,
  carry_journal, save_occurrence_loaded, save_occurrence_state,
}

abbrev is_unchanged : StoreStatus → Bool
is_unchanged StoreStatus.unchanged = true
is_unchanged status = false

accepted_cases :
    (status : StoreStatus)
    → is_accepted status ≡ true
    → (status ≡ StoreStatus.stored) ⊎ (is_unchanged status ≡ true)
accepted_cases StoreStatus.stored h = inl refl
accepted_cases StoreStatus.unchanged h = inr refl
accepted_cases StoreStatus.revision_conflict h = ground arith
accepted_cases StoreStatus.generation_conflict h = ground arith
accepted_cases StoreStatus.invalid_snapshot h = ground arith
accepted_cases StoreStatus.corrupt_store h = ground arith
accepted_cases StoreStatus.io_error h = ground arith
accepted_cases StoreStatus.verification_failed h = ground arith

-- A verification answers with the new generation when it stores, and is never an idle commit.
verify_written-answer :
    (snapshot : ScheduleSnapshot) (current generation : ℕ) (slot : StorageSlot) (unmigrated : Bool)
    (written : SlotReadResult)
    → (is_unchanged (verify_written snapshot current generation slot unmigrated written).status
        ≡ false)
      × ((verify_written snapshot current generation slot unmigrated written).status
            ≡ StoreStatus.stored
          → (verify_written snapshot current generation slot unmigrated written).generation
            ≡ generation)
unfolding verify_written
verify_written-answer snapshot current generation slot unmigrated written =
    (ground arith, λ h. ground arith)

module _ (storage : SlotStorage) where
  open storage use {Device, read, write}

  replace_slot-answer :
      (snapshot : ScheduleSnapshot) (current generation : ℕ) (slot : StorageSlot)
      (unmigrated : Bool) (d : Device)
      → (is_unchanged (replace_slot storage snapshot current generation slot unmigrated d).1.status
          ≡ false)
        × ((replace_slot storage snapshot current generation slot unmigrated d).1.status
              ≡ StoreStatus.stored
            → (replace_slot storage snapshot current generation slot unmigrated d).1.generation
              ≡ generation)
  unfolding replace_slot
  replace_slot-answer snapshot current generation slot unmigrated d =
      elim (Option-cases (encode_record snapshot generation)) [
        | inl e ↦ (ground arith, λ h. ground arith)
        | inr (bytes, e) ↦
            let (quiet, fresh) =
              verify_written-answer snapshot current generation slot unmigrated
                (read (write d slot bytes).0 slot) in
            (ground arith, λ h. ground (arith, fresh))
      ]

  -- An idle commit wrote nothing, since the record held it already.
  save_occurrence_loaded-unchanged :
      (current : LoadResult) (state : PersistentAlarmState) (revision generation : ℕ) (d : Device)
      → is_unchanged (save_occurrence_loaded storage current state revision generation d).1.status
        ≡ true
      → ((save_occurrence_loaded storage current state revision generation d).0 ≡ d)
        × (is_loaded current.status ≡ true)
        × (record (current.snapshot) { occurrence_state = state } ≡ current.snapshot)
        × ((save_occurrence_loaded storage current state revision generation d).1.generation
            ≡ current.generation)
  unfolding save_occurrence_loaded
  save_occurrence_loaded-unchanged current state revision generation d h =
      let next : ScheduleSnapshot = record (current.snapshot) { occurrence_state = state } in
      ground (
        arith,
        snapshots_equal_iff next current.snapshot,
        (replace_slot-answer next current.generation (current.generation + 1)
            (opposite current.source) false d).0,
      )

  save_loaded-unchanged :
      (current : LoadResult) (snapshot : ScheduleSnapshot) (expected : ℕ) (d : Device)
      → is_unchanged (save_loaded storage current snapshot expected d).1.status ≡ true
      → ((save_loaded storage current snapshot expected d).0 ≡ d)
        × (is_loaded current.status ≡ true)
        × (current.snapshot ≡ carry_journal storage current snapshot)
        × ((save_loaded storage current snapshot expected d).1.generation ≡ current.generation)
  unfolding save_loaded
  save_loaded-unchanged current snapshot expected d h =
      let next = carry_journal storage current snapshot in
      ground (
        arith,
        snapshots_equal_iff current.snapshot next,
        (replace_slot-answer next current.generation ((current.generation + 1) % 2 ^ 64)
            (destination current) false d).0,
      )

module _ (storage : SlotStorage) (laws : SlotLaws storage) where
  open storage use {Device, begin_transaction, end_transaction, read}

  save_occurrence_loaded-accepted :
      (d : Device) (state : PersistentAlarmState) (revision generation : ℕ)
      → is_accepted
          (save_occurrence_loaded storage
            (load_unlocked storage d)
            state
            revision
            generation
            d).1.status
        ≡ true
      → IsCurrent storage
          (save_occurrence_loaded storage (load_unlocked storage d) state revision generation d).0
          (record ((load_unlocked storage d).snapshot) { occurrence_state = state })
          (save_occurrence_loaded storage
            (load_unlocked storage d)
            state
            revision
            generation
            d).1.generation
  save_occurrence_loaded-accepted d state revision generation h =
      let current = load_unlocked storage d in
      elim (accepted_cases _ h) [
        | inl stored ↦
            let (l, r, g, e) =
              save_occurrence_loaded-replaces storage laws current state revision generation d
                stored in
            let next : ScheduleSnapshot = record (current.snapshot) { occurrence_state = state } in
            let answer =
              replace_slot-answer storage next current.generation (current.generation + 1)
                (opposite current.source) false d in
            let fresh : (save_occurrence_loaded storage current state revision generation
                  d).1.generation
                ≡ current.generation + 1 =
              rw e (answer.1 (rw (← e) stored)) in
            rw fresh (save_occurrence_loaded-stored storage laws d state revision generation stored)
        | inr idle ↦
            let (same, l, equal, g) =
              save_occurrence_loaded-unchanged storage current state revision generation d idle in
            rw (same, g)
              (record {
                is_loaded = is_loaded-true current.status l;
                snapshot_is = sym equal;
                generation_is = refl;
              })
      ]

  save_loaded-accepted :
      (d : Device) (snapshot : ScheduleSnapshot) (expected : ℕ)
      → is_accepted (save_loaded storage (load_unlocked storage d) snapshot expected d).1.status
        ≡ true
      → IsCurrent storage
          (save_loaded storage (load_unlocked storage d) snapshot expected d).0
          (carry_journal storage (load_unlocked storage d) snapshot)
          (save_loaded storage (load_unlocked storage d) snapshot expected d).1.generation
  save_loaded-accepted d snapshot expected h =
      let current = load_unlocked storage d in
      elim (accepted_cases _ h) [
        | inl stored ↦
            let (l, older) =
              load-IsOlder storage laws d
                (save_loaded-status storage laws current snapshot expected d stored) in
            let e = save_loaded-replaces storage laws current snapshot expected d l stored in
            let answer =
              replace_slot-answer storage (carry_journal storage current snapshot)
                current.generation (current.generation + 1) (destination current) false d in
            let fresh : (save_loaded storage current snapshot expected d).1.generation
                ≡ current.generation + 1 =
              rw e (answer.1 (rw (← e) stored)) in
            rw fresh (save_loaded-stored storage laws d snapshot expected stored)
        | inr idle ↦
            let (same, l, equal, g) =
              save_loaded-unchanged storage current snapshot expected d idle in
            rw (same, g)
              (record {
                is_loaded = is_loaded-true current.status l;
                snapshot_is = equal;
                generation_is = refl;
              })
      ]

  pub load-end : (d : Device) → load_unlocked storage (end_transaction d) ≡ load_unlocked storage d
  load-end d = load-ReadsAs storage laws (end_transaction d) d (laws.end_reads d)

  IsCurrent-end :
      (d : Device) (snapshot : ScheduleSnapshot) (generation : ℕ)
      → IsCurrent storage d snapshot generation
      → IsCurrent storage (end_transaction d) snapshot generation
  IsCurrent-end d snapshot generation c = record {
    is_loaded = rw (load-end d) c.is_loaded;
    snapshot_is = rw (load-end d) c.snapshot_is;
    generation_is = rw (load-end d) c.generation_is;
  }

  -- An accepted transaction was begun and ended around its body.
  transaction-accepted :
      (body : Device → Device × StoreResult) (d : Device)
      → is_accepted (in_transaction storage (bare_result StoreStatus.io_error) body d).1.status
        ≡ true
      → (is_accepted (body (begin_transaction d).0).1.status ≡ true)
        × (in_transaction storage (bare_result StoreStatus.io_error) body d
            ≡ (end_transaction (body (begin_transaction d).0).0, (body (begin_transaction d).0).1))
  unfolding in_transaction
  transaction-accepted body d h = ground arith

  -- After an accepted commit of a journal a load returns the snapshot before it with that journal,
  -- at the generation of the answer.
  pub save_occurrence_state-accepted :
      (d : Device) (state : PersistentAlarmState) (revision generation : ℕ)
      → is_accepted (save_occurrence_state storage state revision generation d).1.status ≡ true
      → IsCurrent storage
          (save_occurrence_state storage state revision generation d).0
          (record ((load_unlocked storage d).snapshot) { occurrence_state = state })
          (save_occurrence_state storage state revision generation d).1.generation
  unfolding save_occurrence_state
  save_occurrence_state-accepted d state revision generation h =
      let body : Device → Device × StoreResult =
        λ e. save_occurrence_loaded storage (load_unlocked storage e) state revision generation e in
      let (inner, e) = transaction-accepted body d h in
      let held =
        save_occurrence_loaded-accepted (begin_transaction d).0 state revision generation inner in
      rw (e, ← load-begin storage laws d) (IsCurrent-end _ _ _ held)

  -- After an accepted save a load returns that snapshot with the journal of the record before it.
  pub save-accepted :
      (d : Device) (snapshot : ScheduleSnapshot) (expected : ℕ)
      → is_accepted (save storage snapshot expected d).1.status ≡ true
      → IsCurrent storage
          (save storage snapshot expected d).0
          (carry_journal storage (load_unlocked storage d) snapshot)
          (save storage snapshot expected d).1.generation
  unfolding save
  save-accepted d snapshot expected h =
      let body : Device → Device × StoreResult =
        λ e. save_loaded storage (load_unlocked storage e) snapshot expected e in
      let (inner, e) = transaction-accepted body d h in
      let held = save_loaded-accepted (begin_transaction d).0 snapshot expected inner in
      rw (e, ← load-begin storage laws d) (IsCurrent-end _ _ _ held)

  -- A load changes nothing that a later load reads.
  pub load-reads : (d : Device) → load_unlocked storage (load storage d).0 ≡ load_unlocked storage d
  unfolding load in_transaction
  load-reads d = elim (Bool-cases (begin_transaction d).1) [
    | inl e ↦
        rw (load, in_transaction, e)
          (rw (load-end (begin_transaction d).0) (load-begin storage laws d))
    | inr e ↦ rw (load, in_transaction, e) (load-begin storage laws d)
  ]

  -- A load that succeeds returns what the slots hold.
  pub load-loaded :
      (d : Device)
      → is_loaded (load storage d).1.status ≡ true
      → (load storage d).1 ≡ load_unlocked storage d
  unfolding load in_transaction
  load-loaded d h = ground (arith, load-begin storage laws d)
