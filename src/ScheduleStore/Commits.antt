-- ===== src/ScheduleStore/Commits.antt =====
-- What `save`, `save_occurrence_state` and `migrate_to_current_schema` of
-- firmware/components/alarm_core/schedule_store.cpp leave for the next load.
use dawn_dock.Common.{ℕ, ◌<◌, ◌+◌, ◌^◌, ◌≡◌, refl, arith, ◌⊎◌, inl, inr, true, false, Bool-cases}
use dawn_dock.AlarmEngine.{PersistentAlarmState}
use dawn_dock.ScheduleStore.Types.{
  SlotStorage, LoadStatus, LoadResult, ScheduleSnapshot, StoreStatus, StoreResult,
}
use dawn_dock.ScheduleStore.Load.{load_unlocked, in_transaction, is_loaded}
use dawn_dock.ScheduleStore.Durable.{SlotLaws, IsCurrent, replace_slot-load}
use dawn_dock.ScheduleStore.Reads.{
  destination, readable_cases, load-ReadsAs, load-IsOlder, source-IsOlder,
}
use dawn_dock.ScheduleStore.Commit.{
  opposite, replace_slot, save_loaded, save, carry_journal, save_occurrence_loaded,
  save_occurrence_state, migrate_loaded, migrate_to_current_schema, bare_result,
}

pub is_loaded-true : (status : LoadStatus) → is_loaded status ≡ true → status ≡ LoadStatus.loaded
is_loaded-true LoadStatus.empty p = ground arith
is_loaded-true LoadStatus.loaded p = refl
is_loaded-true LoadStatus.corrupt p = ground arith
is_loaded-true LoadStatus.unsupported_schema p = ground arith
is_loaded-true LoadStatus.ambiguous p = ground arith
is_loaded-true LoadStatus.io_error p = ground arith

module _ (storage : SlotStorage) (laws : SlotLaws storage) where
  open storage use {Device, begin_transaction, end_transaction, read, write}

  -- When `save` stores, it has replaced the slot that is not the source by the next generation.
  pub save_loaded-replaces :
      (current : LoadResult) (snapshot : ScheduleSnapshot) (expected : ℕ) (d : Device)
      → current.generation < 2 ^ 64
      → (save_loaded storage current snapshot expected d).1.status ≡ StoreStatus.stored
      → save_loaded storage current snapshot expected d
        ≡ replace_slot storage
            (carry_journal storage current snapshot)
            current.generation
            (current.generation + 1)
            (destination current)
            false
            d
  unfolding save_loaded
  save_loaded-replaces current snapshot expected d l h = ground arith

  pub save_loaded-status :
      (current : LoadResult) (snapshot : ScheduleSnapshot) (expected : ℕ) (d : Device)
      → (save_loaded storage current snapshot expected d).1.status ≡ StoreStatus.stored
      → (current.status ≡ LoadStatus.loaded) ⊎ (current.status ≡ LoadStatus.empty)
  unfolding save_loaded
  save_loaded-status current snapshot expected d h =
      readable_cases current.status (ground arith) (ground arith)

  pub save_loaded-stored :
      (d : Device) (snapshot : ScheduleSnapshot) (expected : ℕ)
      → (save_loaded storage (load_unlocked storage d) snapshot expected d).1.status
        ≡ StoreStatus.stored
      → IsCurrent storage
          (save_loaded storage (load_unlocked storage d) snapshot expected d).0
          (carry_journal storage (load_unlocked storage d) snapshot)
          ((load_unlocked storage d).generation + 1)
  save_loaded-stored d snapshot expected h =
      let (l, older) = load-IsOlder storage laws d (save_loaded-status _ snapshot expected d h) in
      let e = save_loaded-replaces (load_unlocked storage d) snapshot expected d l h in
      rw e (replace_slot-load storage laws d _ _ _ _ false older (rw (← e) h))

  pub load-begin :
      (d : Device) → load_unlocked storage (begin_transaction d).0 ≡ load_unlocked storage d
  load-begin d = load-ReadsAs storage laws (begin_transaction d).0 d (laws.begin_reads d)

  -- A commit inside a transaction outlasts its end.
  transaction-IsCurrent :
      (body : Device → Device × StoreResult) (d : Device) (snapshot : ScheduleSnapshot)
      (generation : ℕ)
      → ((body (begin_transaction d).0).1.status ≡ StoreStatus.stored
          → IsCurrent storage (body (begin_transaction d).0).0 snapshot generation)
      → (in_transaction storage (bare_result StoreStatus.io_error) body d).1.status
        ≡ StoreStatus.stored
      → IsCurrent storage
          (in_transaction storage (bare_result StoreStatus.io_error) body d).0
          snapshot
          generation
  unfolding in_transaction
  transaction-IsCurrent body d snapshot generation k h = elim (Bool-cases (begin_transaction d).1) [
    | inl e ↦
        let ended = (body (begin_transaction d).0).0 in
        let found = k (ground arith) in
        let same = load-ReadsAs storage laws (end_transaction ended) ended (laws.end_reads ended) in
        rw (in_transaction, e)
          (record {
            is_loaded = rw same found.is_loaded;
            snapshot_is = rw same found.snapshot_is;
            generation_is = rw same found.generation_is;
          })
    | inr e ↦ ground arith
  ]

  -- When `save` reports a snapshot stored, a load returns that snapshot with the journal of the
  -- record before it, at the next generation.
  pub save-stored :
      (d : Device) (snapshot : ScheduleSnapshot) (expected : ℕ)
      → (save storage snapshot expected d).1.status ≡ StoreStatus.stored
      → IsCurrent storage
          (save storage snapshot expected d).0
          (carry_journal storage (load_unlocked storage d) snapshot)
          ((load_unlocked storage d).generation + 1)
  unfolding save
  save-stored d snapshot expected = rw (← load-begin d) (
      transaction-IsCurrent (λ e. save_loaded storage (load_unlocked storage e) snapshot expected e)
        d _ _ (save_loaded-stored (begin_transaction d).0 snapshot expected))

  pub save_occurrence_loaded-replaces :
      (current : LoadResult) (state : PersistentAlarmState) (revision generation : ℕ) (d : Device)
      → (save_occurrence_loaded storage current state revision generation d).1.status
        ≡ StoreStatus.stored
      → (current.status ≡ LoadStatus.loaded)
        × (current.snapshot.revision ≡ revision)
        × (current.generation ≡ generation)
        × (save_occurrence_loaded storage current state revision generation d
            ≡ replace_slot storage
                (record (current.snapshot) { occurrence_state = state })
                current.generation
                (current.generation + 1)
                (opposite current.source)
                false
                d)
  unfolding save_occurrence_loaded
  save_occurrence_loaded-replaces current state revision generation d h =
      (is_loaded-true current.status (ground arith), ground arith, ground arith, ground arith)

  pub save_occurrence_loaded-stored :
      (d : Device) (state : PersistentAlarmState) (revision generation : ℕ)
      → (save_occurrence_loaded storage
          (load_unlocked storage d)
          state
          revision
          generation
          d).1.status
        ≡ StoreStatus.stored
      → IsCurrent storage
          (save_occurrence_loaded storage (load_unlocked storage d) state revision generation d).0
          (record ((load_unlocked storage d).snapshot) { occurrence_state = state })
          ((load_unlocked storage d).generation + 1)
  save_occurrence_loaded-stored d state revision generation h =
      let (l, r, g, e) =
        save_occurrence_loaded-replaces (load_unlocked storage d) state revision generation d h in
      rw e (
        replace_slot-load storage laws d _ _ _ _ false (source-IsOlder storage laws d l)
          (rw (← e) h))

  -- When `save_occurrence_state` reports a journal stored, a load returns the snapshot before it with
  -- that journal and everything else as it was, at the next generation.
  pub save_occurrence_state-stored :
      (d : Device) (state : PersistentAlarmState) (revision generation : ℕ)
      → (save_occurrence_state storage state revision generation d).1.status ≡ StoreStatus.stored
      → IsCurrent storage
          (save_occurrence_state storage state revision generation d).0
          (record ((load_unlocked storage d).snapshot) { occurrence_state = state })
          ((load_unlocked storage d).generation + 1)
  unfolding save_occurrence_state
  save_occurrence_state-stored d state revision generation = rw (← load-begin d) (
      transaction-IsCurrent
        (λ e. save_occurrence_loaded storage (load_unlocked storage e) state revision generation e)
        d _ _ (save_occurrence_loaded-stored (begin_transaction d).0 state revision generation))

  pub migrate_loaded-replaces :
      (current : LoadResult) (d : Device)
      → (migrate_loaded storage current d).1.status ≡ StoreStatus.stored
      → (current.status ≡ LoadStatus.loaded)
        × (migrate_loaded storage current d
            ≡ replace_slot storage current.snapshot current.generation
                (current.generation + 1)
                (opposite current.source)
                true
                d)
  unfolding migrate_loaded
  migrate_loaded-replaces current d h = (is_loaded-true current.status (ground arith), ground arith)

  migrate_loaded-stored :
      (d : Device)
      → (migrate_loaded storage (load_unlocked storage d) d).1.status ≡ StoreStatus.stored
      → IsCurrent storage
          (migrate_loaded storage (load_unlocked storage d) d).0
          (load_unlocked storage d).snapshot
          ((load_unlocked storage d).generation + 1)
  migrate_loaded-stored d h =
      let (l, e) = migrate_loaded-replaces (load_unlocked storage d) d h in
      rw e (
        replace_slot-load storage laws d _ _ _ _ true (source-IsOlder storage laws d l)
          (rw (← e) h))

  -- When `migrate_to_current_schema` reports a record stored, a load returns the snapshot that it
  -- returned before, at the next generation.
  pub migrate_to_current_schema-stored :
      (d : Device)
      → (migrate_to_current_schema storage d).1.status ≡ StoreStatus.stored
      → IsCurrent storage
          (migrate_to_current_schema storage d).0
          (load_unlocked storage d).snapshot
          ((load_unlocked storage d).generation + 1)
  unfolding migrate_to_current_schema
  migrate_to_current_schema-stored d = rw (← load-begin d) (
      transaction-IsCurrent (λ e. migrate_loaded storage (load_unlocked storage e) e) d _ _
        (migrate_loaded-stored (begin_transaction d).0))
