-- ===== src/ScheduleStore/Races.antt =====
-- Commits of firmware/components/alarm_core/schedule_store.cpp that follow one another: two from the
-- same base, and one that is sent again.
use dawn_dock.Common.{ℕ, ◌+◌, ◌%◌, ◌^◌, ◌≡◌, ◌≢◌, ◌==◌, arith, true, false}
use dawn_dock.AlarmEngine.{PersistentAlarmState}
use dawn_dock.ScheduleStore.Types.{
  SlotStorage, LoadStatus, LoadResult, ScheduleSnapshot, StoreStatus, StoreResult,
}
use dawn_dock.ScheduleStore.Validate.{validate_snapshot}
use dawn_dock.ScheduleStore.Load.{load_unlocked, in_transaction}
use dawn_dock.ScheduleStore.Durable.{SlotLaws, IsCurrent}
use dawn_dock.ScheduleStore.Commits.{
  load-begin, save_occurrence_loaded-replaces, save_occurrence_state-stored, save-stored,
}
use dawn_dock.ScheduleStore.Commit.{
  save_loaded, save, current_revision, carry_journal, save_occurrence_loaded, save_occurrence_state,
  bare_result, uint64_max,
}

-- What `save_occurrence_loaded` has checked when it writes.
abbrev Checked : LoadResult → PersistentAlarmState → ℕ → ℕ → Type 0
Checked current state revision generation =
    (current.status ≡ LoadStatus.loaded)
    × (current.snapshot.revision ≡ revision)
    × (validate_snapshot (record (current.snapshot) { occurrence_state = state }) ≡ true)
    × (current.generation ≡ generation)
    × ((current.generation == uint64_max) ≡ false)

save_loaded-checked :
    (storage : SlotStorage) (current : LoadResult) (snapshot : ScheduleSnapshot) (expected : ℕ)
    (d : storage.Device)
    → (save_loaded storage current snapshot expected d).1.status ≡ StoreStatus.stored
    → (current_revision storage current ≡ expected) × (snapshot.revision ≡ (expected + 1) % 2 ^ 64)
unfolding save_loaded
save_loaded-checked storage current snapshot expected d h = ground arith

current_revision-IsCurrent :
    (storage : SlotStorage) (d : storage.Device) (snapshot : ScheduleSnapshot) (generation : ℕ)
    → IsCurrent storage d snapshot generation
    → current_revision storage (load_unlocked storage d) ≡ snapshot.revision
current_revision-IsCurrent storage d snapshot generation c = rw (c.is_loaded, c.snapshot_is)

carry_journal-revision :
    (storage : SlotStorage) (current : LoadResult) (snapshot : ScheduleSnapshot)
    → (carry_journal storage current snapshot).revision ≡ snapshot.revision
carry_journal-revision storage current snapshot = ground arith

module _ (storage : SlotStorage) (laws : SlotLaws storage) where
  open storage use {Device, begin_transaction, end_transaction, read, write}

  transaction-stored :
      (body : Device → Device × StoreResult) (d : Device)
      → (in_transaction storage (bare_result StoreStatus.io_error) body d).1.status
        ≡ StoreStatus.stored
      → (body (begin_transaction d).0).1.status ≡ StoreStatus.stored
  unfolding in_transaction
  transaction-stored body d h = ground arith

  -- `save_occurrence_state` stores only over a record of the revision and the generation that its
  -- caller expects.
  pub save_occurrence_state-checked :
      (d : Device) (state : PersistentAlarmState) (revision generation : ℕ)
      → (save_occurrence_state storage state revision generation d).1.status ≡ StoreStatus.stored
      → ((load_unlocked storage d).status ≡ LoadStatus.loaded)
        × ((load_unlocked storage d).snapshot.revision ≡ revision)
        × ((load_unlocked storage d).generation ≡ generation)
  unfolding save_occurrence_state
  save_occurrence_state-checked d state revision generation h =
      let (l, r, g, e) =
        save_occurrence_loaded-replaces storage laws (load_unlocked storage (begin_transaction d).0)
          state revision generation (begin_transaction d).0
          (transaction-stored
            (λ e.
              save_occurrence_loaded storage (load_unlocked storage e) state revision generation e)
            d h) in
      rw (← load-begin storage laws d) (l, r, g)

  -- `save` stores only over the revision that its caller expects, and only the one that follows it.
  pub save-checked :
      (d : Device) (snapshot : ScheduleSnapshot) (expected : ℕ)
      → (save storage snapshot expected d).1.status ≡ StoreStatus.stored
      → (current_revision storage (load_unlocked storage d) ≡ expected)
        × (snapshot.revision ≡ (expected + 1) % 2 ^ 64)
  unfolding save
  save-checked d snapshot expected h = rw (← load-begin storage laws d) (
      save_loaded-checked storage (load_unlocked storage (begin_transaction d).0) snapshot expected
        (begin_transaction d).0
        (transaction-stored (λ e. save_loaded storage (load_unlocked storage e) snapshot expected e)
          d h))

  -- Of two commits that start from the same generation, at most one is stored: no journal
  -- overwrites one that its caller has not seen.
  pub save_occurrence_state-once :
      (d : Device) (state later : PersistentAlarmState) (revision newer generation : ℕ)
      → (save_occurrence_state storage state revision generation d).1.status ≡ StoreStatus.stored
      → (save_occurrence_state storage later newer generation
          (save_occurrence_state storage state revision generation d).0).1.status
        ≢ StoreStatus.stored
  save_occurrence_state-once d state later revision newer generation h k =
      let (l, r, g) = save_occurrence_state-checked d state revision generation h in
      let (m, s, f) =
        save_occurrence_state-checked (save_occurrence_state storage state revision generation d).0
          later newer generation k in
      let found = save_occurrence_state-stored storage laws d state revision generation h in
      ground (arith, found.generation_is)

  -- Of two saves that expect the same revision, at most one is stored.
  pub save-once :
      (d : Device) (snapshot later : ScheduleSnapshot) (expected : ℕ)
      → (save storage snapshot expected d).1.status ≡ StoreStatus.stored
      → (save storage later expected (save storage snapshot expected d).0).1.status
        ≢ StoreStatus.stored
  save-once d snapshot later expected h k =
      let found = save-stored storage laws d snapshot expected h in
      let e = (save storage snapshot expected d).0 in
      ground (
        arith,
        save-checked d snapshot expected h,
        save-checked e later expected k,
        current_revision-IsCurrent storage e _ _ found,
        carry_journal-revision storage (load_unlocked storage d) snapshot,
      )
