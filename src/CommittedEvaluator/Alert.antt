-- ===== src/CommittedEvaluator/Alert.antt =====
-- Which alert an evaluation of committed_schedule_evaluator.cpp starts, over all of its entries.
use dawn_dock.Common.{
  ◌≡◌, refl, sym, ap, ◌∙◌, arith, inl, inr, ℤ, Bool, true, false, List, [], ◌∷◌, none, Option-cases,
  Bool-cases, is_some, Bytes, bytes_eq_refl, all,
}
use dawn_dock.AlarmEngine.{
  AlarmDefinition, PersistentAlarmState, EvaluationResult, evaluate_due, admit, advance_active,
  recover_after_reboot, make_occurrence_id,
}
use dawn_dock.ScheduleStore.Types.{SlotStorage, LoadResult, StoredAlarmDefinition}
use dawn_dock.ScheduleStore.Load.{load, load_unlocked, is_loaded}
use dawn_dock.ScheduleStore.Durable.{SlotLaws}
use dawn_dock.CommittedEvaluator.{
  CommittedEvaluationStatus, CommittedAlarmEvaluation, CommittedScheduleEvaluation, take_result,
  active_result, active_entry, evaluate_alarms, evaluate_active, evaluate_loaded,
  evaluate_committed_schedule, sort_alarms, definition_of,
}
use dawn_dock.CommittedEvaluator.Journal.{
  same_journal, loaded_journal, IsStep, starts_held, held_silent, journal_of, take_result-held,
  commit_unpersisted,
}

abbrev due_entry : StoredAlarmDefinition → EvaluationResult → CommittedAlarmEvaluation
due_entry stored result = record {
  alarm_id = stored.id;
  result = result;
  journal_committed = false;
  from_active_occurrence = false;
}

-- An evaluation that asks to be persisted found no active occurrence.
due_idle :
    (alarm : AlarmDefinition) (state : PersistentAlarmState) (wall monotonic : ℤ)
    → (evaluate_due alarm state wall monotonic true).1.persist_before_effects ≡ true
    → state.active ≡ none
unfolding evaluate_due admit
due_idle alarm state wall monotonic h = elim (Option-cases state.active) [
  | inl e ↦ e
  | inr (active, e) ↦ ground arith
]

due_unpersisted :
    (alarm : AlarmDefinition) (state : PersistentAlarmState) (wall monotonic : ℤ)
    → is_some state.active ≡ true
    → ((evaluate_due alarm state wall monotonic true).1.persist_before_effects ≡ false)
      × ((evaluate_due alarm state wall monotonic true).0 ≡ state)
unfolding evaluate_due admit
due_unpersisted alarm state wall monotonic h = ground arith

held_as :
    (s t : PersistentAlarmState) (entries : List CommittedAlarmEvaluation)
    → s ≡ t
    → all (starts_held s) entries ≡ true
    → all (starts_held t) entries ≡ true
held_as s t entries e h = rw (← e) h

due-IsStep :
    (stored : StoredAlarmDefinition) (state : PersistentAlarmState) (wall monotonic : ℤ)
    (evaluation : CommittedScheduleEvaluation)
    → all (starts_held state) evaluation.alarms ≡ true
    → IsStep state
        (evaluate_due (definition_of stored) state wall monotonic true).0
        evaluation
        (due_entry stored (evaluate_due (definition_of stored) state wall monotonic true).1)
unfolding evaluate_due admit
due-IsStep stored state wall monotonic evaluation h = record {
  unpersisted = λ u. ground arith;
  persisted = λ p.
      held_silent state evaluation.alarms (due_idle (definition_of stored) state wall monotonic p)
        h;
  starts = ground (arith, bytes_eq_refl (make_occurrence_id (definition_of stored)));
  asks = ground arith;
  quiet = ground arith;
}

active-IsStep :
    (state : PersistentAlarmState) (wall monotonic : ℤ) (boot_id : Bytes)
    (evaluation : CommittedScheduleEvaluation) (entry : CommittedAlarmEvaluation)
    → evaluation.alarms ≡ []
    → entry.result ≡ (active_result wall monotonic boot_id state).1
    → IsStep state (active_result wall monotonic boot_id state).0 evaluation entry
unfolding active_result advance_active recover_after_reboot
active-IsStep state wall monotonic boot_id evaluation entry h e = record {
  unpersisted = λ u. let v = rw (e) at u in ground arith;
  persisted = λ p. rw h;
  starts = rw e (elim (Option-cases state.active) [
    | inl f ↦ ground arith
    | inr (active, f) ↦ ground (arith, bytes_eq_refl active.occurrence_id)
  ]);
  asks = rw e (ground arith);
  quiet = rw e (ground arith);
}

advance_unpersisted :
    (state : PersistentAlarmState) (monotonic : ℤ)
    → (advance_active state monotonic).1.persist_before_effects ≡ false
    → (advance_active state monotonic).0 ≡ state
unfolding advance_active
advance_unpersisted state monotonic h = ground arith

module _ (storage : SlotStorage) (laws : SlotLaws storage) where
  open storage use {Device}

  -- A result that is not to be persisted leaves the device alone.
  take_result_idle :
      (next : PersistentAlarmState) (evaluation : CommittedScheduleEvaluation)
      (entry : CommittedAlarmEvaluation) (d : Device)
      → entry.result.persist_before_effects ≡ false
      → (take_result storage next evaluation entry d).0 ≡ d
  unfolding take_result
  take_result_idle next evaluation entry d h =
      ground (arith, commit_unpersisted storage laws next evaluation entry d)

  evaluate_alarms-held :
      (wall monotonic : ℤ) (alarms : List StoredAlarmDefinition) (state : PersistentAlarmState)
      (evaluation : CommittedScheduleEvaluation) (d : Device)
      → journal_of storage laws d ≡ state
      → all (starts_held state) evaluation.alarms ≡ true
      → all
          (starts_held (
            journal_of storage laws
              (evaluate_alarms storage wall monotonic alarms state evaluation d).0))
          (evaluate_alarms storage wall monotonic alarms state evaluation d).1.alarms
        ≡ true
  unfolding evaluate_alarms
  evaluate_alarms-held wall monotonic [] state evaluation d j h = rw j h
  evaluate_alarms-held wall monotonic (stored ∷ rest) state evaluation d j h =
      let (next, result) = evaluate_due (definition_of stored) state wall monotonic true in
      let entry = due_entry stored result in
      let (kept, moved) =
        take_result-held storage laws state next evaluation entry d j h
          (due-IsStep stored state wall monotonic evaluation h) in
      elim (Bool-cases (take_result storage next evaluation entry d).1.1) [
        | inl e ↦
            rw (evaluate_alarms, e)
              (evaluate_alarms-held wall monotonic rest next _ _ (moved e) (
                held_as _ next (take_result storage next evaluation entry d).1.0.alarms (moved e)
                  kept))
        | inr e ↦ rw (evaluate_alarms, e) kept
      ]

  -- Where an occurrence is active, the alarms are evaluated without a commit.
  evaluate_alarms_idle :
      (wall monotonic : ℤ) (alarms : List StoredAlarmDefinition) (state : PersistentAlarmState)
      (evaluation : CommittedScheduleEvaluation) (d : Device)
      → is_some state.active ≡ true
      → (evaluate_alarms storage wall monotonic alarms state evaluation d).0 ≡ d
  unfolding evaluate_alarms
  evaluate_alarms_idle wall monotonic [] state evaluation d h = refl
  evaluate_alarms_idle wall monotonic (stored ∷ rest) state evaluation d h =
      let (next, result) = evaluate_due (definition_of stored) state wall monotonic true in
      let entry = due_entry stored result in
      let step = due_unpersisted (definition_of stored) state wall monotonic h in
      let same = take_result_idle next evaluation entry d step.0 in
      elim (Bool-cases (take_result storage next evaluation entry d).1.1) [
        | inl e ↦
            rw (evaluate_alarms, e)
              (evaluate_alarms_idle wall monotonic rest next _ _ (rw step.1 h) ∙ same)
        | inr e ↦ rw (evaluate_alarms, e) same
      ]

  evaluate_active-held :
      (wall monotonic : ℤ) (boot_id : Bytes) (state : PersistentAlarmState)
      (evaluation : CommittedScheduleEvaluation) (d : Device)
      → journal_of storage laws d ≡ state
      → evaluation.alarms ≡ []
      → let answer = evaluate_active storage wall monotonic boot_id state evaluation d in
        (all (starts_held (journal_of storage laws answer.0)) answer.1.1.0.alarms ≡ true)
        × (answer.1.1.1 ≡ true → journal_of storage laws answer.0 ≡ answer.1.0)
  unfolding evaluate_active
  evaluate_active-held wall monotonic boot_id state evaluation d j h =
      elim (Option-cases state.active) [
        | inl e ↦ rw (evaluate_active, e) (rw h, λ a. j)
        | inr (active, e) ↦
            let (next, result) = active_result wall monotonic boot_id state in
            let entry = active_entry active result in
            rw (evaluate_active, e)
              (take_result-held storage laws state next evaluation entry d j (rw h)
                (active-IsStep state wall monotonic boot_id evaluation entry h refl))
      ]

  evaluate_loaded-held :
      (wall monotonic : ℤ) (boot_id : Bytes) (loaded : LoadResult) (d : Device)
      → journal_of storage laws d ≡ loaded.snapshot.occurrence_state
      → let answer = evaluate_loaded storage wall monotonic boot_id loaded d in
        all (starts_held (journal_of storage laws answer.0)) answer.1.alarms ≡ true
  unfolding evaluate_loaded
  evaluate_loaded-held wall monotonic boot_id loaded d j =
      let state = loaded.snapshot.occurrence_state in
      let first : CommittedScheduleEvaluation = record {
        status = CommittedEvaluationStatus.evaluated;
        schedule_revision = loaded.snapshot.revision;
        generation = loaded.generation;
        alarms = [];
      } in
      let (written, (next, (evaluation, goes_on))) =
        evaluate_active storage wall monotonic boot_id state first d in
      let (kept, moved) = evaluate_active-held wall monotonic boot_id state first d j refl in
      let alarms = sort_alarms loaded.snapshot.alarms in
      elim (Bool-cases (is_loaded loaded.status)) [
        | inr l ↦ rw (evaluate_loaded, l)
        | inl l ↦ elim (Bool-cases goes_on) [
          | inl e ↦
              rw (evaluate_loaded, l, e)
                (evaluate_alarms-held wall monotonic alarms next evaluation written (moved e)
                  (held_as _ next evaluation.alarms (moved e) kept))
          | inr e ↦ rw (evaluate_loaded, l, e) kept
        ]
      ]

  -- An evaluation starts the alert only for the occurrence that is active in the store behind it: at
  -- most one, and committed.
  pub evaluate_committed_schedule-held :
      (wall monotonic : ℤ) (time_valid : Bool) (boot_id : Bytes) (d : Device)
      → let answer = evaluate_committed_schedule storage wall monotonic time_valid boot_id d in
        all (starts_held (load_unlocked storage answer.0).snapshot.occurrence_state) answer.1.alarms
        ≡ true
  unfolding evaluate_committed_schedule evaluate_loaded
  evaluate_committed_schedule-held wall monotonic false boot_id d = refl
  evaluate_committed_schedule-held wall monotonic true boot_id d =
      elim (Bool-cases (is_loaded (load storage d).1.status)) [
        | inl l ↦
            evaluate_loaded-held wall monotonic boot_id (load storage d).1 (load storage d).0
              (loaded_journal storage laws d l)
        | inr l ↦ ground arith
      ]

  evaluate_active_idle :
      (wall monotonic : ℤ) (state : PersistentAlarmState) (evaluation : CommittedScheduleEvaluation)
      (d : Device)
      → is_some state.active ≡ true
      → (advance_active state monotonic).1.persist_before_effects ≡ false
      → ((evaluate_active storage wall monotonic [] state evaluation d).0 ≡ d)
        × ((evaluate_active storage wall monotonic [] state evaluation d).1.0 ≡ state)
  unfolding evaluate_active active_result
  evaluate_active_idle wall monotonic state evaluation d a h = elim (Option-cases state.active) [
    | inl e ↦ ground arith
    | inr (active, e) ↦
        let (next, result) = advance_active state monotonic in
        (
          rw (evaluate_active, e)
              (take_result_idle next evaluation (active_entry active result) d
                (unfold active_entry in h)),
          ground (arith, advance_unpersisted state monotonic h),
        )
  ]

  -- Where the active occurrence has nothing to persist, an evaluation leaves the device alone.
  evaluate_loaded_idle :
      (wall monotonic : ℤ) (loaded : LoadResult) (d : Device)
      → is_some loaded.snapshot.occurrence_state.active ≡ true
      → (advance_active loaded.snapshot.occurrence_state monotonic).1.persist_before_effects ≡ false
      → (evaluate_loaded storage wall monotonic [] loaded d).0 ≡ d
  unfolding evaluate_loaded
  evaluate_loaded_idle wall monotonic loaded d a h =
      let state = loaded.snapshot.occurrence_state in
      let first : CommittedScheduleEvaluation = record {
        status = CommittedEvaluationStatus.evaluated;
        schedule_revision = loaded.snapshot.revision;
        generation = loaded.generation;
        alarms = [];
      } in
      let (written, (next, (evaluation, goes_on))) =
        evaluate_active storage wall monotonic [] state first d in
      let (same, kept) = evaluate_active_idle wall monotonic state first d a h in
      ground (
        arith,
        evaluate_alarms_idle wall monotonic (sort_alarms loaded.snapshot.alarms) next evaluation
            written (rw kept a),
      )

  pub evaluate_committed_schedule_idle :
      (wall monotonic : ℤ) (d : Device)
      → is_some (journal_of storage laws d).active ≡ true
      → (advance_active (journal_of storage laws d) monotonic).1.persist_before_effects ≡ false
      → journal_of storage laws (evaluate_committed_schedule storage wall monotonic true [] d).0
        ≡ journal_of storage laws d
  unfolding evaluate_committed_schedule evaluate_loaded
  evaluate_committed_schedule_idle wall monotonic d a h =
      elim (Bool-cases (is_loaded (load storage d).1.status)) [
        | inl l ↦
            let e = sym (same_journal storage laws d) ∙ loaded_journal storage laws d l in
            ap (journal_of storage laws) (
              evaluate_loaded_idle wall monotonic (load storage d).1 (load storage d).0 (rw (← e) a)
                (rw (← e) h))
            ∙ same_journal storage laws d
        | inr l ↦ rw (evaluate_loaded, l) (same_journal storage laws d)
      ]
