-- ===== src/CommittedEvaluator/Effects.antt =====
-- Which effects an evaluation of committed_schedule_evaluator.cpp reports.
use dawn_dock.Common.{
  refl, Option, none, Option-cases, ◌≡◌, ℤ, Bool, true, false, not, ◌||◌, List, [], ◌∷◌, ◌++◌, some,
  none, Bytes, all, arith, Bool-cases, inl, inr,
}
use dawn_dock.AlarmEngine.{
  AlarmDefinition, PersistentAlarmState, EvaluationResult, evaluate_due, admit, advance_active,
  recover_after_reboot,
}
use dawn_dock.ScheduleStore.Types.{SlotStorage, StoreStatus, LoadResult, StoredAlarmDefinition}
use dawn_dock.ScheduleStore.Commit.{save_occurrence_state}
use dawn_dock.ScheduleStore.Load.{load}
use dawn_dock.CommittedEvaluator.{
  CommittedEvaluationStatus, active_result, active_entry, silence, is_invalid_time,
  CommittedAlarmEvaluation, CommittedScheduleEvaluation, settle, commit_occurrence_transition,
  take_result, evaluate_alarms, evaluate_active, evaluate_loaded, evaluate_committed_schedule,
  sort_alarms, definition_of,
}

-- An entry starts or stops the alert only behind a commit.
abbrev pub is_committed : CommittedAlarmEvaluation → Bool
is_committed entry =
    not (entry.result.start_alert || entry.result.stop_alert) || entry.journal_committed

abbrev pub all_of : Option CommittedAlarmEvaluation → Bool
all_of none = true
all_of (some entry) = is_committed entry

abbrev pub asks_first : EvaluationResult → Bool
asks_first result = not (result.start_alert || result.stop_alert) || result.persist_before_effects

all-push :
    (entries : List CommittedAlarmEvaluation) (entry : CommittedAlarmEvaluation)
    → all is_committed entries ≡ true
    → is_committed entry ≡ true
    → all is_committed (entries ++ (entry ∷ [])) ≡ true
all-push [] entry h k = ground arith
all-push (x ∷ entries) entry h k = ground (arith, all-push entries entry (ground arith) k)

abbrev pub quiet_if_invalid : EvaluationResult → Bool
quiet_if_invalid result =
    not (is_invalid_time result.status) || not (result.start_alert || result.stop_alert)

-- The entries and the one in hand are committed, whatever came of the commit.
settle-all :
    (status : StoreStatus) (evaluation : CommittedScheduleEvaluation)
    (entry : CommittedAlarmEvaluation)
    → all is_committed evaluation.alarms ≡ true
    → (all is_committed (settle status evaluation entry).0.alarms ≡ true)
      × (all_of (settle status evaluation entry).1 ≡ true)
unfolding settle
settle-all StoreStatus.stored evaluation entry h = (h, ground arith)
settle-all StoreStatus.unchanged evaluation entry h = (h, ground arith)
settle-all StoreStatus.revision_conflict evaluation entry h = (
  all-push evaluation.alarms (record entry { result = silence entry.result }) h (ground arith),
  refl,
)
settle-all StoreStatus.generation_conflict evaluation entry h = (
  all-push evaluation.alarms (record entry { result = silence entry.result }) h (ground arith),
  refl,
)
settle-all StoreStatus.invalid_snapshot evaluation entry h = (
  all-push evaluation.alarms (record entry { result = silence entry.result }) h (ground arith),
  refl,
)
settle-all StoreStatus.corrupt_store evaluation entry h = (
  all-push evaluation.alarms (record entry { result = silence entry.result }) h (ground arith),
  refl,
)
settle-all StoreStatus.io_error evaluation entry h = (
  all-push evaluation.alarms (record entry { result = silence entry.result }) h (ground arith),
  refl,
)
settle-all StoreStatus.verification_failed evaluation entry h = (
  all-push evaluation.alarms (record entry { result = silence entry.result }) h (ground arith),
  refl,
)

module _ (storage : SlotStorage) where
  open storage use {Device}

  commit-all :
      (state : PersistentAlarmState) (evaluation : CommittedScheduleEvaluation)
      (entry : CommittedAlarmEvaluation) (d : Device)
      → all is_committed evaluation.alarms ≡ true
      → asks_first entry.result ≡ true
      → (all is_committed (commit_occurrence_transition storage state evaluation entry d).1.0.alarms
          ≡ true)
        × (all_of (commit_occurrence_transition storage state evaluation entry d).1.1 ≡ true)
  unfolding commit_occurrence_transition
  commit-all state evaluation entry d h k = elim (Bool-cases entry.result.persist_before_effects) [
    | inl e ↦
        let answer =
          save_occurrence_state storage state evaluation.schedule_revision evaluation.generation
            d in
        ground (
          arith,
          settle-all answer.1.status (record evaluation { generation = answer.1.generation }) entry
              h,
        )
    | inr e ↦ ground arith
  ]

  take_result-all :
      (state : PersistentAlarmState) (evaluation : CommittedScheduleEvaluation)
      (entry : CommittedAlarmEvaluation) (d : Device)
      → all is_committed evaluation.alarms ≡ true
      → asks_first entry.result ≡ true
      → quiet_if_invalid entry.result ≡ true
      → all is_committed (take_result storage state evaluation entry d).1.0.alarms ≡ true
  unfolding take_result
  take_result-all state evaluation entry d h k l =
      elim (Bool-cases (is_invalid_time entry.result.status)) [
        | inl e ↦ rw (take_result, e) (all-push evaluation.alarms entry h (ground arith))
        | inr e ↦
            elim (Option-cases
              (commit_occurrence_transition storage state evaluation entry d).1.1) [
                | inl f ↦ rw (take_result, e, f) (commit-all state evaluation entry d h k).0
                | inr (accepted, f) ↦
                    let (old, new) = commit-all state evaluation entry d h k in
                    rw (take_result, e, f)
                      (all-push
                        ((commit_occurrence_transition storage state evaluation entry d).1.0.alarms)
                        accepted old (rw (f) at new))
              ]
      ]

  due-asks :
      (alarm : AlarmDefinition) (state : PersistentAlarmState) (wall monotonic : ℤ)
      → (asks_first (evaluate_due alarm state wall monotonic true).1 ≡ true)
        × (quiet_if_invalid (evaluate_due alarm state wall monotonic true).1 ≡ true)
  unfolding evaluate_due admit
  due-asks alarm state wall monotonic = ground arith

  evaluate_alarms-all :
      (wall monotonic : ℤ) (alarms : List StoredAlarmDefinition) (state : PersistentAlarmState)
      (evaluation : CommittedScheduleEvaluation) (d : Device)
      → all is_committed evaluation.alarms ≡ true
      → all is_committed (evaluate_alarms storage wall monotonic alarms state evaluation d).1.alarms
        ≡ true
  unfolding evaluate_alarms
  evaluate_alarms-all wall monotonic [] state evaluation d h = h
  evaluate_alarms-all wall monotonic (stored ∷ rest) state evaluation d h =
      let (next_state, result) = evaluate_due (definition_of stored) state wall monotonic true in
      let entry : CommittedAlarmEvaluation = record {
        alarm_id = stored.id;
        result = result;
        journal_committed = false;
        from_active_occurrence = false;
      } in
      let (asks, quiet) = due-asks (definition_of stored) state wall monotonic in
      let taken = take_result-all next_state evaluation entry d h asks quiet in
      let (written, (next, goes_on)) = take_result storage next_state evaluation entry d in
      let later = evaluate_alarms-all wall monotonic rest next_state next written taken in
      elim (Bool-cases goes_on) [ inl e ↦ rw e later | inr e ↦ rw e taken ]

  active-asks :
      (state : PersistentAlarmState) (wall monotonic : ℤ) (boot_id : Bytes)
      → (asks_first (active_result wall monotonic boot_id state).1 ≡ true)
        × (quiet_if_invalid (active_result wall monotonic boot_id state).1 ≡ true)
  unfolding active_result advance_active recover_after_reboot
  active-asks state wall monotonic boot_id = ground arith

  evaluate_active-all :
      (wall monotonic : ℤ) (boot_id : Bytes) (state : PersistentAlarmState)
      (evaluation : CommittedScheduleEvaluation) (d : Device)
      → all is_committed evaluation.alarms ≡ true
      → all is_committed
          (evaluate_active storage wall monotonic boot_id state evaluation d).1.1.0.alarms
        ≡ true
  unfolding evaluate_active
  evaluate_active-all wall monotonic boot_id state evaluation d h =
      elim (Option-cases state.active) [
        | inl e ↦ rw (evaluate_active, e) h
        | inr (active, e) ↦
            let (asks, quiet) = active-asks state wall monotonic boot_id in
            ground (
              arith,
              take_result-all (active_result wall monotonic boot_id state).0 evaluation
                  (active_entry active (active_result wall monotonic boot_id state).1) d h asks
                  quiet,
            )
      ]

  evaluate_loaded-all :
      (wall monotonic : ℤ) (boot_id : Bytes) (loaded : LoadResult) (d : Device)
      → all is_committed (evaluate_loaded storage wall monotonic boot_id loaded d).1.alarms ≡ true
  unfolding evaluate_loaded
  evaluate_loaded-all wall monotonic boot_id loaded d =
      let first : CommittedScheduleEvaluation = record {
        status = CommittedEvaluationStatus.evaluated;
        schedule_revision = loaded.snapshot.revision;
        generation = loaded.generation;
        alarms = [];
      } in
      let (written, (state, (next, goes_on))) =
        evaluate_active storage wall monotonic boot_id loaded.snapshot.occurrence_state first d in
      let active =
        evaluate_active-all wall monotonic boot_id loaded.snapshot.occurrence_state first d refl in
      ground (
        arith,
        active,
        evaluate_alarms-all wall monotonic (sort_alarms loaded.snapshot.alarms) state next written
            active,
      )

  -- Every entry of an evaluation that starts or stops the alert reports a committed journal.
  pub evaluate_committed_schedule-all :
      (wall monotonic : ℤ) (time_valid : Bool) (boot_id : Bytes) (d : Device)
      → all is_committed
          (evaluate_committed_schedule storage wall monotonic time_valid boot_id d).1.alarms
        ≡ true
  unfolding evaluate_committed_schedule
  evaluate_committed_schedule-all wall monotonic time_valid boot_id d =
      ground
        (arith, evaluate_loaded-all wall monotonic boot_id (load storage d).1 (load storage d).0)
