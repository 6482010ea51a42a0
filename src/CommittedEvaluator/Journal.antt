-- ===== src/CommittedEvaluator/Journal.antt =====
-- The alert of an evaluation of committed_schedule_evaluator.cpp against the journal that the store
-- holds after it.
use dawn_dock.Common.{
  ◌≡◌, refl, sym, ap, ◌∙◌, arith, inl, inr, Bool, true, false, not, ◌||◌, List, Option, none, some,
  Option-cases, Bool-cases, is_some, all, all-append, all_mono,
}
use dawn_dock.AlarmEngine.{PersistentAlarmState, active_is}
use dawn_dock.ScheduleStore.Types.{ScheduleSnapshot, SlotStorage, StoreStatus, LoadResult}
use dawn_dock.ScheduleStore.Load.{load, load_unlocked, is_loaded}
use dawn_dock.ScheduleStore.Commit.{is_accepted, save_occurrence_state}
use dawn_dock.ScheduleStore.Durable.{SlotLaws}
use dawn_dock.ScheduleStore.Accepted.{save_occurrence_state-accepted, load-reads, load-loaded}
use dawn_dock.CommittedEvaluator.{
  CommittedAlarmEvaluation, CommittedScheduleEvaluation, push_alarm, is_invalid_time, settle,
  commit_occurrence_transition, take_result,
}

-- An entry starts the alert only for the occurrence that is active.
abbrev pub starts_held : PersistentAlarmState → CommittedAlarmEvaluation → Bool
starts_held state entry =
    not entry.result.start_alert || active_is state.active entry.result.occurrence_id

abbrev is_silent : CommittedAlarmEvaluation → Bool
is_silent entry = not entry.result.start_alert

silent-held :
    (state : PersistentAlarmState) (entries : List CommittedAlarmEvaluation)
    → all is_silent entries ≡ true
    → all (starts_held state) entries ≡ true
silent-held state entries = all_mono is_silent (starts_held state) (λ x h. ground arith) entries

-- Nothing is held by a state without an active occurrence.
pub held_silent :
    (state : PersistentAlarmState) (entries : List CommittedAlarmEvaluation)
    → state.active ≡ none
    → all (starts_held state) entries ≡ true
    → all is_silent entries ≡ true
held_silent state entries e = all_mono (starts_held state) is_silent (λ x h. ground arith) entries

-- The evaluation with the entry that a commit let pass.
abbrev pushed :
    CommittedScheduleEvaluation × Option CommittedAlarmEvaluation → CommittedScheduleEvaluation
pushed (evaluation, none) = evaluation
pushed (evaluation, some entry) = push_alarm evaluation entry

settle-held :
    (status : StoreStatus) (evaluation : CommittedScheduleEvaluation)
    (entry : CommittedAlarmEvaluation) (final : PersistentAlarmState)
    → all is_silent evaluation.alarms ≡ true
    → (is_accepted status ≡ true → starts_held final entry ≡ true)
    → (all (starts_held final) (pushed (settle status evaluation entry)).alarms ≡ true)
      × (is_some (settle status evaluation entry).1 ≡ is_accepted status)
unfolding settle
settle-held StoreStatus.stored evaluation entry final h k =
    (rw all-append (ground (arith, silent-held final evaluation.alarms h, k refl)), refl)
settle-held StoreStatus.unchanged evaluation entry final h k =
    (rw all-append (ground (arith, silent-held final evaluation.alarms h)), refl)
settle-held status evaluation entry final h k =
    (rw all-append (ground (arith, silent-held final evaluation.alarms h)), refl)

-- What the engine says of a new state and its result, over the entries so far.
pub record IsStep (state next : PersistentAlarmState) (evaluation : CommittedScheduleEvaluation)
    (entry : CommittedAlarmEvaluation) : Type 0 where
  pub unpersisted : entry.result.persist_before_effects ≡ false → next ≡ state
  pub persisted :
      entry.result.persist_before_effects ≡ true → all is_silent evaluation.alarms ≡ true
  pub starts : starts_held next entry ≡ true
  pub asks : (not entry.result.start_alert || entry.result.persist_before_effects) ≡ true
  pub quiet :
      (not (is_invalid_time entry.result.status) || not entry.result.persist_before_effects) ≡ true

module _ (storage : SlotStorage) (laws : SlotLaws storage) where
  open storage use {Device}

  -- The journal that a load finds.
  abbrev pub journal_of : Device → PersistentAlarmState
  journal_of d = (load_unlocked storage d).snapshot.occurrence_state

  pub same_journal : (d : Device) → journal_of (load storage d).0 ≡ journal_of d
  same_journal d = ap (λ (r : LoadResult). r.snapshot.occurrence_state) (load-reads storage laws d)

  pub loaded_journal :
      (d : Device)
      → is_loaded (load storage d).1.status ≡ true
      → journal_of (load storage d).0 ≡ (load storage d).1.snapshot.occurrence_state
  loaded_journal d l =
      ap (λ (r : LoadResult). r.snapshot.occurrence_state)
        (load-reads storage laws d ∙ sym (load-loaded storage laws d l))

  commit_persisted :
      (next : PersistentAlarmState) (evaluation : CommittedScheduleEvaluation)
      (entry : CommittedAlarmEvaluation) (d : Device)
      → entry.result.persist_before_effects ≡ true
      → let answer =
          save_occurrence_state storage next evaluation.schedule_revision evaluation.generation d in
        commit_occurrence_transition storage next evaluation entry d ≡ (
          answer.0,
          settle answer.1.status (record evaluation { generation = answer.1.generation }) entry,
        )
  unfolding commit_occurrence_transition
  commit_persisted next evaluation entry d e = ground arith

  pub commit_unpersisted :
      (next : PersistentAlarmState) (evaluation : CommittedScheduleEvaluation)
      (entry : CommittedAlarmEvaluation) (d : Device)
      → entry.result.persist_before_effects ≡ false
      → commit_occurrence_transition storage next evaluation entry d ≡ (d, (evaluation, some entry))
  unfolding commit_occurrence_transition
  commit_unpersisted next evaluation entry d e = ground arith

  commit-held :
      (state next : PersistentAlarmState) (evaluation : CommittedScheduleEvaluation)
      (entry : CommittedAlarmEvaluation) (d : Device)
      → journal_of d ≡ state
      → all (starts_held state) evaluation.alarms ≡ true
      → IsStep state next evaluation entry
      → (all
            (starts_held
              (journal_of (commit_occurrence_transition storage next evaluation entry d).0))
            (pushed (commit_occurrence_transition storage next evaluation entry d).1).alarms
          ≡ true)
        × (is_some (commit_occurrence_transition storage next evaluation entry d).1.1 ≡ true
            → journal_of (commit_occurrence_transition storage next evaluation entry d).0 ≡ next)
  commit-held state next evaluation entry d j h s =
      elim (Bool-cases entry.result.persist_before_effects) [
        | inl e ↦
            let (written, committed) =
              save_occurrence_state storage next evaluation.schedule_revision evaluation.generation
                d in
            let stored =
              save_occurrence_state-accepted storage laws d next evaluation.schedule_revision
                evaluation.generation in
            let held : is_accepted committed.status ≡ true → journal_of written ≡ next =
              λ a. ap (λ (x : ScheduleSnapshot). x.occurrence_state) (stored a).snapshot_is in
            let (kept, goes_on) =
              settle-held committed.status (record evaluation { generation = committed.generation })
                entry (journal_of written) (s.persisted e) (λ a. rw (held a) s.starts) in
            rw (commit_persisted next evaluation entry d e) (kept, λ a. held (rw (← goes_on) a))
        | inr e ↦
            let same = s.unpersisted e in
            rw (commit_unpersisted next evaluation entry d e, j, same, all-append)
              (ground (arith, s.starts, s.asks), λ a. refl)
      ]

  pub take_result-held :
      (state next : PersistentAlarmState) (evaluation : CommittedScheduleEvaluation)
      (entry : CommittedAlarmEvaluation) (d : Device)
      → journal_of d ≡ state
      → all (starts_held state) evaluation.alarms ≡ true
      → IsStep state next evaluation entry
      → (all
            (starts_held (journal_of (take_result storage next evaluation entry d).0))
            (take_result storage next evaluation entry d).1.0.alarms
          ≡ true)
        × ((take_result storage next evaluation entry d).1.1 ≡ true
            → journal_of (take_result storage next evaluation entry d).0 ≡ next)
  unfolding take_result
  take_result-held state next evaluation entry d j h s =
      elim (Bool-cases (is_invalid_time entry.result.status)) [
        | inl e ↦
            rw (take_result, e) (rw (j, all-append) (ground (arith, s.asks, s.quiet)), λ a. cc)
        | inr e ↦
            let (kept, goes_on) = commit-held state next evaluation entry d j h s in
            elim (Option-cases (commit_occurrence_transition storage next evaluation entry d).1.1) [
              | inl f ↦ (ground (arith, kept), λ a. ground arith)
              | inr (accepted, f) ↦ (ground (arith, kept), λ a. ground (arith, goes_on))
            ]
      ]
