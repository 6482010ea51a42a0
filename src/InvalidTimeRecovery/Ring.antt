-- ===== src/InvalidTimeRecovery/Ring.antt =====
-- The alert of a reconciliation of invalid_time_recovery.cpp against the journal that the store holds
-- after it.
use dawn_dock.Common.{
  ◌≡◌, refl, sym, ap, ◌∙◌, arith, ◌⊎◌, inl, inr, ℤ, Bool, true, false, not, ◌||◌, List, [], ◌∷◌,
  none, some, Option-cases, Bool-cases, bytes_eq_refl, leb_ℤ,
}
use dawn_dock.AlarmEngine.{
  PersistentAlarmState, active_is, checked_elapsed, begin_recovered_ring, late_grace_seconds,
}
use dawn_dock.ScheduleStore.Types.{ScheduleSnapshot, SlotStorage, LoadResult}
use dawn_dock.ScheduleStore.Load.{load, load_unlocked, is_loaded}
use dawn_dock.ScheduleStore.Durable.{SlotLaws}
use dawn_dock.ScheduleStore.Accepted.{save_occurrence_state-accepted}
use dawn_dock.ScheduleStore.Commit.{is_accepted, save_occurrence_state}
use dawn_dock.CommittedEvaluator.Journal.{journal_of, same_journal, loaded_journal}
use dawn_dock.InvalidTimeRecovery.{
  only_status, InvalidTimeRecoveryStatus, InvalidTimeRecoveryResult, CrossedCandidate, split_newest,
  journal_missed, journal_ring, journal_batch, commit_batch, reconcile_crossed, reconcile_sorted,
  reconcile_loaded, reconcile_after_time_valid, collect_crossed, sort_candidates,
}

-- A ring that is journaled is active.
journal_ring-active :
    (newest : CrossedCandidate) (wall monotonic : ℤ) (journal next : PersistentAlarmState)
    → journal_ring newest wall monotonic journal ≡ some next
    → active_is next.active newest.occurrence_id ≡ true
unfolding journal_ring begin_recovered_ring
journal_ring-active newest wall monotonic journal next h =
    ground (arith, bytes_eq_refl newest.occurrence_id)

journal_batch-active :
    (state next : PersistentAlarmState) (older : List CrossedCandidate) (newest : CrossedCandidate)
    (wall monotonic : ℤ)
    → journal_batch state older newest true wall monotonic ≡ some next
    → active_is next.active newest.occurrence_id ≡ true
unfolding journal_batch
journal_batch-active state next older newest wall monotonic h =
    elim (Option-cases (journal_missed state older)) [
      | inl e ↦ ground arith
      | inr (journal, e) ↦ journal_ring-active newest wall monotonic journal next (ground arith)
    ]

-- The alert starts only for the active occurrence.
abbrev pub rings_held : PersistentAlarmState → InvalidTimeRecoveryResult → Bool
rings_held state result =
    not result.start_alert || active_is state.active result.ringing_occurrence_id

module _ (storage : SlotStorage) (laws : SlotLaws storage) where
  open storage use {Device}

  commit_batch-held :
      (loaded : LoadResult) (observed : InvalidTimeRecoveryResult) (older : List CrossedCandidate)
      (newest : CrossedCandidate) (rings : Bool) (lateness : ℤ) (journal : PersistentAlarmState)
      (d : Device)
      → observed.start_alert ≡ false
      → (rings ≡ true → active_is journal.active newest.occurrence_id ≡ true)
      → let answer = commit_batch storage loaded observed older newest rings lateness journal d in
        rings_held (journal_of storage laws answer.0) answer.1 ≡ true
  unfolding commit_batch
  commit_batch-held loaded observed older newest rings lateness journal d s h =
      let stored =
        save_occurrence_state-accepted storage laws d journal loaded.snapshot.revision
          loaded.generation in
      let (written, committed) =
        save_occurrence_state storage journal loaded.snapshot.revision loaded.generation d in
      elim (Bool-cases (is_accepted committed.status)) [
        | inl a ↦
            let e : journal_of storage laws written ≡ journal =
              ap (λ (x : ScheduleSnapshot). x.occurrence_state) (stored a).snapshot_is in
            ground (arith, e, h)
        | inr a ↦ ground arith
      ]

  reconcile_crossed-held :
      (loaded : LoadResult) (observed : InvalidTimeRecoveryResult) (wall monotonic : ℤ)
      (first : CrossedCandidate) (rest : List CrossedCandidate) (d : Device)
      → observed.start_alert ≡ false
      → let answer = reconcile_crossed storage loaded observed wall monotonic first rest d in
        rings_held (journal_of storage laws answer.0) answer.1 ≡ true
  unfolding reconcile_crossed
  reconcile_crossed-held loaded observed wall monotonic first rest d s =
      let (older, newest) = split_newest first rest in
      let state = loaded.snapshot.occurrence_state in
      elim (Option-cases (checked_elapsed wall newest.scheduled_utc_seconds)) [
        | inl e ↦ ground arith
        | inr (lateness, e) ↦
            let rings = leb_ℤ lateness late_grace_seconds in
            elim (Option-cases (journal_batch state older newest rings wall monotonic)) [
              | inl f ↦ ground arith
              | inr (journal, f) ↦ ground (
                arith,
                commit_batch-held loaded observed older newest rings lateness journal d s (λ r.
                    journal_batch-active state journal older newest wall monotonic (rw (← r) f)),
              )
            ]
      ]

  reconcile_sorted-held :
      (loaded : LoadResult) (observed : InvalidTimeRecoveryResult) (wall monotonic : ℤ)
      (candidates : List CrossedCandidate) (d : Device)
      → observed.start_alert ≡ false
      → let answer = reconcile_sorted storage loaded observed wall monotonic candidates d in
        rings_held (journal_of storage laws answer.0) answer.1 ≡ true
  unfolding reconcile_sorted
  reconcile_sorted-held loaded observed wall monotonic [] d s = ground arith
  reconcile_sorted-held loaded observed wall monotonic (first ∷ rest) d s =
      reconcile_crossed-held loaded observed wall monotonic first rest d s

  reconcile_loaded-held :
      (loaded : LoadResult) (wall monotonic : ℤ) (d : Device)
      → let answer = reconcile_loaded storage loaded wall monotonic d in
        (rings_held (journal_of storage laws answer.0) answer.1 ≡ true)
        × ((answer.0 ≡ d) ⊎ (loaded.snapshot.occurrence_state.active ≡ none))
  unfolding reconcile_loaded
  reconcile_loaded-held loaded wall monotonic d =
      let state = loaded.snapshot.occurrence_state in
      let observed = record (only_status InvalidTimeRecoveryStatus.persistence_error) {
        schedule_revision = loaded.snapshot.revision;
        generation = loaded.generation;
      } in
      elim (Bool-cases (is_loaded loaded.status)) [
        | inr l ↦ (ground arith, inl (ground arith))
        | inl l ↦ elim (Option-cases state.active) [
          | inr (active, e) ↦ (ground arith, inl (ground arith))
          | inl e ↦ (
            ground (
              arith,
              reconcile_sorted-held loaded observed wall monotonic
                  (sort_candidates (collect_crossed state wall loaded.snapshot.alarms)) d refl,
            ),
            inr e,
          )
        ]
      ]

  -- A reconciliation rings only for the occurrence that is active in the store behind it, and leaves
  -- the journal alone where one was active before.
  pub reconcile_after_time_valid-held :
      (wall monotonic : ℤ) (time_valid : Bool) (d : Device)
      → let answer = reconcile_after_time_valid storage wall monotonic time_valid d in
        (rings_held (load_unlocked storage answer.0).snapshot.occurrence_state answer.1 ≡ true)
        × ((journal_of storage laws answer.0 ≡ journal_of storage laws d)
            ⊎ ((journal_of storage laws d).active ≡ none))
  unfolding reconcile_after_time_valid reconcile_loaded
  reconcile_after_time_valid-held wall monotonic false d = (refl, inl refl)
  reconcile_after_time_valid-held wall monotonic true d =
      elim (Bool-cases (is_loaded (load storage d).1.status)) [
        | inr l ↦ (ground arith, inl (rw (reconcile_loaded, l) (same_journal storage laws d)))
        | inl l ↦
            let (held, kept) =
              reconcile_loaded-held (load storage d).1 wall monotonic (load storage d).0 in
            (
              held,
              elim kept [
                | inl same ↦ inl (ap (journal_of storage laws) same ∙ same_journal storage laws d)
                | inr idle ↦ inr (
                    ap (λ (s : PersistentAlarmState). s.active)
                      (sym (same_journal storage laws d) ∙ loaded_journal storage laws d l)
                    ∙ idle)
              ],
            )
      ]
