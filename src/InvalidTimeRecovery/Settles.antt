-- ===== src/InvalidTimeRecovery/Settles.antt =====
-- What becomes of the occurrences that a reconciliation of invalid_time_recovery.cpp finds crossed.
use dawn_dock.Common.{
  ◌≡◌, refl, ap, arith, inl, inr, ℤ, leb_ℤ, Bool, true, false, List, [], ◌∷◌, ◌++◌, Option-cases,
  Bool-cases, all,
}
use dawn_dock.AlarmEngine.{PersistentAlarmState, checked_elapsed, late_grace_seconds}
use dawn_dock.ScheduleStore.Types.{ScheduleSnapshot, SlotStorage, LoadResult}
use dawn_dock.ScheduleStore.Load.{load, load_unlocked, is_loaded}
use dawn_dock.ScheduleStore.Durable.{SlotLaws}
use dawn_dock.ScheduleStore.Accepted.{save_occurrence_state-accepted, load-loaded}
use dawn_dock.ScheduleStore.Commit.{is_accepted, save_occurrence_state}
use dawn_dock.CommittedEvaluator.Journal.{journal_of, loaded_journal}
use dawn_dock.InvalidTimeRecovery.{
  InvalidTimeRecoveryStatus, InvalidTimeRecoveryResult, CrossedCandidate, split_newest,
  journal_batch, commit_batch, only_status, reconcile_crossed, reconcile_sorted, reconcile_loaded,
  reconcile_after_time_valid, collect_crossed, sort_candidates,
}
use dawn_dock.InvalidTimeRecovery.Batch.{
  is_settled, Settles, is_answered, journal_batch-settled, journal_batch-KeepsPast,
  split_newest-whole, all-sort_candidates, collected_answered,
}

-- The status of a reconciliation behind which nothing is owed.
abbrev pub is_complete : InvalidTimeRecoveryStatus → Bool
is_complete InvalidTimeRecoveryStatus.reconciled = true
is_complete InvalidTimeRecoveryStatus.nothing_crossed = true
is_complete status = false

module _ (storage : SlotStorage) (laws : SlotLaws storage) where
  open storage use {Device}

  -- A batch is complete only with its journal in the store.
  commit_batch-Settles :
      (loaded : LoadResult) (observed : InvalidTimeRecoveryResult) (older : List CrossedCandidate)
      (newest : CrossedCandidate) (rings : Bool) (lateness : ℤ) (journal : PersistentAlarmState)
      (d : Device) (state : PersistentAlarmState) (candidates : List CrossedCandidate)
      → Settles state candidates journal
      → is_complete
          (commit_batch storage loaded observed older newest rings lateness journal d).1.status
        ≡ true
      → Settles state candidates (
          journal_of storage laws
            (commit_batch storage loaded observed older newest rings lateness journal d).0)
  unfolding commit_batch
  commit_batch-Settles loaded observed older newest rings lateness journal d state candidates s h =
      let stored =
        save_occurrence_state-accepted storage laws d journal loaded.snapshot.revision
          loaded.generation in
      let (written, committed) =
        save_occurrence_state storage journal loaded.snapshot.revision loaded.generation d in
      elim (Bool-cases (is_accepted committed.status)) [
        | inr a ↦ ground arith
        | inl a ↦
            let e : journal_of storage laws written ≡ journal =
              ap (λ (x : ScheduleSnapshot). x.occurrence_state) (stored a).snapshot_is in
            rw (commit_batch, a, e) s
      ]

  reconcile_crossed-Settles :
      (loaded : LoadResult) (observed : InvalidTimeRecoveryResult) (wall monotonic : ℤ)
      (first : CrossedCandidate) (rest candidates : List CrossedCandidate) (d : Device)
      → (split_newest first rest).0 ++ ((split_newest first rest).1 ∷ []) ≡ candidates
      → is_complete (reconcile_crossed storage loaded observed wall monotonic first rest d).1.status
        ≡ true
      → Settles loaded.snapshot.occurrence_state candidates (
          journal_of storage laws
            (reconcile_crossed storage loaded observed wall monotonic first rest d).0)
  unfolding reconcile_crossed
  reconcile_crossed-Settles loaded observed wall monotonic first rest candidates d whole h =
      let (older, newest) = split_newest first rest in
      let state = loaded.snapshot.occurrence_state in
      elim (Option-cases (checked_elapsed wall newest.scheduled_utc_seconds)) [
        | inl e ↦ ground arith
        | inr (lateness, e) ↦
            let rings = leb_ℤ lateness late_grace_seconds in
            elim (Option-cases (journal_batch state older newest rings wall monotonic)) [
              | inl f ↦ ground arith
              | inr (journal, f) ↦
                  let settled : all (is_settled journal) candidates ≡ true =
                    rw (← whole)
                      (journal_batch-settled state journal older newest rings wall monotonic f) in
                  rw (reconcile_crossed, e, f)
                    (commit_batch-Settles loaded observed older newest rings lateness journal d
                      state candidates
                      (
                        settled,
                        journal_batch-KeepsPast state journal older newest rings wall monotonic f,
                      )
                      (rw (reconcile_crossed, e, f) at h))
            ]
      ]

  reconcile_sorted-Settles :
      (loaded : LoadResult) (observed : InvalidTimeRecoveryResult) (wall monotonic : ℤ)
      (candidates : List CrossedCandidate) (d : Device)
      → journal_of storage laws d ≡ loaded.snapshot.occurrence_state
      → is_complete (reconcile_sorted storage loaded observed wall monotonic candidates d).1.status
        ≡ true
      → Settles loaded.snapshot.occurrence_state candidates (
          journal_of storage laws
            (reconcile_sorted storage loaded observed wall monotonic candidates d).0)
  unfolding reconcile_sorted
  reconcile_sorted-Settles loaded observed wall monotonic [] d j h = (refl, λ other p. rw j p)
  reconcile_sorted-Settles loaded observed wall monotonic (first ∷ rest) d j h =
      reconcile_crossed-Settles loaded observed wall monotonic first rest (first ∷ rest) d
        (split_newest-whole first rest) h

  reconcile_loaded-Settles :
      (loaded : LoadResult) (wall monotonic : ℤ) (d : Device)
      → journal_of storage laws d ≡ loaded.snapshot.occurrence_state
      → is_complete (reconcile_loaded storage loaded wall monotonic d).1.status ≡ true
      → Settles loaded.snapshot.occurrence_state
          (collect_crossed loaded.snapshot.occurrence_state wall loaded.snapshot.alarms)
          (journal_of storage laws (reconcile_loaded storage loaded wall monotonic d).0)
  unfolding reconcile_loaded
  reconcile_loaded-Settles loaded wall monotonic d j h =
      let state = loaded.snapshot.occurrence_state in
      let observed = record (only_status InvalidTimeRecoveryStatus.persistence_error) {
        schedule_revision = loaded.snapshot.revision;
        generation = loaded.generation;
      } in
      let crossed = collect_crossed state wall loaded.snapshot.alarms in
      elim (Bool-cases (is_loaded loaded.status)) [
        | inr l ↦ ground arith
        | inl l ↦ elim (Option-cases state.active) [
          | inr (active, e) ↦ ground arith
          | inl e ↦
              let (settled, kept) =
                reconcile_sorted-Settles loaded observed wall monotonic (sort_candidates crossed) d
                  j (rw (reconcile_loaded, l, e) at h) in
              rw (reconcile_loaded, l, e) (rw (all-sort_candidates) at settled, kept)
        ]
      ]

  -- Behind a reconciliation that ends as `reconciled` or as `nothing_crossed`, no alarm of the store
  -- before it is owed an occurrence: each is not enabled, or scheduled later than the wall time, or
  -- its occurrence had a terminal record in the store before, or lies at or below the watermark of
  -- the alarm, or is active, in the store behind it. The store before it is one that can be loaded.
  pub reconcile_after_time_valid-settled :
      (wall monotonic : ℤ) (time_valid : Bool) (d : Device)
      → is_complete (reconcile_after_time_valid storage wall monotonic time_valid d).1.status ≡ true
      → let before = load_unlocked storage d in
        let after =
          load_unlocked storage
            (reconcile_after_time_valid storage wall monotonic time_valid d).0 in
        (is_loaded before.status ≡ true)
        × (all
              (is_answered before.snapshot.occurrence_state after.snapshot.occurrence_state wall)
              before.snapshot.alarms
            ≡ true)
  unfolding reconcile_after_time_valid
  reconcile_after_time_valid-settled wall monotonic false d h = ground arith
  reconcile_after_time_valid-settled wall monotonic true d h =
      elim (Bool-cases (is_loaded (load storage d).1.status)) [
        | inr l ↦ ground arith
        | inl l ↦
            let loaded = (load storage d).1 in
            let answered =
              collected_answered loaded.snapshot.occurrence_state
                (journal_of storage laws
                  (reconcile_loaded storage loaded wall monotonic (load storage d).0).0)
                wall loaded.snapshot.alarms
                (reconcile_loaded-Settles loaded wall monotonic (load storage d).0
                  (loaded_journal storage laws d l) h) in
            rw (← load-loaded storage laws d l) (l, answered)
      ]
