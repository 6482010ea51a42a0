-- ===== src/CommittedEvaluator.antt =====
-- firmware/components/alarm_core/committed_schedule_evaluator.cpp: one evaluation of the stored
-- schedule, with each change of the journal committed before its effect is reported.
use dawn_dock.Common.{
  ℕ, ◌≡◌, ◌==◌, ltb_ℤ, eqb_ℤ, ℤ, Bool, true, false, not, ◌&&◌, ◌||◌, List, [], ◌∷◌, ◌++◌, Option,
  none, some, if◌then◌else◌, length, Bytes, bytes_lt, arith, all,
}
use dawn_dock.AlarmEngine.{
  ActiveOccurrence, AlarmDefinition, PersistentAlarmState, EvaluationResult, EvaluationStatus,
  advance_active, recover_after_reboot, evaluate_due,
}
use dawn_dock.ScheduleStore.Types.{
  StoredAlarmDefinition, SlotStorage, LoadStatus, LoadResult, StoreStatus, StoreResult,
}
use dawn_dock.ScheduleStore.Load.{is_loaded, load}
use dawn_dock.ScheduleStore.Commit.{save_occurrence_state}
mod Effects
pub mod Journal
pub mod Alert
mod Tests

pub data CommittedEvaluationStatus : Type 0 where
  evaluated invalid_time empty_store invalid_store : CommittedEvaluationStatus
  io_error persistence_conflict persistence_error : CommittedEvaluationStatus

pub record CommittedAlarmEvaluation : Type 0 where
  pub alarm_id : Bytes
  pub result : EvaluationResult
  pub journal_committed : Bool
  pub from_active_occurrence : Bool

pub record CommittedScheduleEvaluation : Type 0 where
  pub status : CommittedEvaluationStatus
  pub schedule_revision : ℕ
  pub generation : ℕ
  pub alarms : List CommittedAlarmEvaluation

-- A default-constructed evaluation that only names a status.
abbrev pub only_status : CommittedEvaluationStatus → CommittedScheduleEvaluation
only_status status = record { status = status; schedule_revision = 0; generation = 0; alarms = [] }

-- What stands before the first colon, which is 58.
unfoldable pub alarm_id_from_occurrence_id : Bytes → Bytes
alarm_id_from_occurrence_id [] = []
alarm_id_from_occurrence_id (c ∷ rest) =
    let before = alarm_id_from_occurrence_id rest in if c == 58 then [] else c ∷ before

abbrev pub push_alarm :
    CommittedScheduleEvaluation → CommittedAlarmEvaluation → CommittedScheduleEvaluation
push_alarm evaluation entry = record evaluation { alarms = evaluation.alarms ++ (entry ∷ []) }

abbrev pub is_invalid_time : EvaluationStatus → Bool
is_invalid_time EvaluationStatus.invalid_time = true
is_invalid_time status = false

abbrev pub silence : EvaluationResult → EvaluationResult
silence result = record result { start_alert = false; stop_alert = false }

-- The commit succeeded, and this call wrote it.
abbrev pub accept : CommittedAlarmEvaluation → CommittedAlarmEvaluation
accept entry = record entry {
  result = record (entry.result) { persist_before_effects = false };
  journal_committed = true;
}

-- The commit had been made before.
abbrev pub accept_repeated : CommittedAlarmEvaluation → CommittedAlarmEvaluation
accept_repeated entry = record (accept entry) {
  result = record (silence (accept entry).result) { status = EvaluationStatus.duplicate };
}

abbrev pub reject :
    CommittedEvaluationStatus
    → CommittedScheduleEvaluation
    → CommittedAlarmEvaluation
    → CommittedScheduleEvaluation × Option CommittedAlarmEvaluation
reject status evaluation entry = (
  record (push_alarm evaluation (record entry { result = silence entry.result })) {
    status = status;
  },
  none,
)

-- The new evaluation, and the entry to go on with, if the commit did not fail.
unfoldable pub settle :
    StoreStatus
    → CommittedScheduleEvaluation
    → CommittedAlarmEvaluation
    → CommittedScheduleEvaluation × Option CommittedAlarmEvaluation
settle StoreStatus.stored evaluation entry = (evaluation, some (accept entry))
settle StoreStatus.unchanged evaluation entry = (evaluation, some (accept_repeated entry))
settle StoreStatus.revision_conflict evaluation entry =
    reject CommittedEvaluationStatus.persistence_conflict evaluation entry
settle StoreStatus.generation_conflict evaluation entry =
    reject CommittedEvaluationStatus.persistence_conflict evaluation entry
settle status evaluation entry = reject CommittedEvaluationStatus.persistence_error evaluation entry

-- The order of the evaluation.
abbrev pub is_earlier_alarm : StoredAlarmDefinition → StoredAlarmDefinition → Bool
is_earlier_alarm left right =
    if not (eqb_ℤ left.scheduled_utc_seconds right.scheduled_utc_seconds)
    then ltb_ℤ left.scheduled_utc_seconds right.scheduled_utc_seconds
    else bytes_lt left.id right.id

-- `std::sort`; ids are distinct in a valid snapshot, so that no two alarms are equal in this order.
unfoldable pub insert_alarm :
    StoredAlarmDefinition → List StoredAlarmDefinition → List StoredAlarmDefinition
insert_alarm alarm [] = alarm ∷ []
insert_alarm alarm (first ∷ rest) =
    let inserted = insert_alarm alarm rest in
    if is_earlier_alarm first alarm then first ∷ inserted else alarm ∷ first ∷ rest

unfoldable pub sort_alarms : List StoredAlarmDefinition → List StoredAlarmDefinition
unfolding insert_alarm
sort_alarms [] = []
sort_alarms (alarm ∷ rest) = insert_alarm alarm (sort_alarms rest)

abbrev pub definition_of : StoredAlarmDefinition → AlarmDefinition
definition_of stored = record {
  id = stored.id;
  schedule_revision = stored.schedule_revision;
  enabled = stored.enabled;
  scheduled_utc_seconds = stored.scheduled_utc_seconds;
}

-- The active occurrence goes on, or is recovered if there is a boot id.
unfoldable pub active_result :
    ℤ → ℤ → Bytes → PersistentAlarmState → PersistentAlarmState × EvaluationResult
active_result wall monotonic boot_id state =
    if length boot_id == 0
    then advance_active state monotonic
    else recover_after_reboot state wall boot_id

unfoldable pub active_entry : ActiveOccurrence → EvaluationResult → CommittedAlarmEvaluation
unfolding alarm_id_from_occurrence_id
active_entry active result =
    let before_colon = alarm_id_from_occurrence_id active.occurrence_id in
    record {
      alarm_id = if length before_colon == 0 then active.occurrence_id else before_colon;
      result = result;
      journal_committed = false;
      from_active_occurrence = true;
    }

-- The status of an evaluation over a store that has no record to evaluate.
abbrev pub unloaded_status : LoadStatus → CommittedEvaluationStatus
unloaded_status LoadStatus.empty = CommittedEvaluationStatus.empty_store
unloaded_status LoadStatus.io_error = CommittedEvaluationStatus.io_error
unloaded_status status = CommittedEvaluationStatus.invalid_store

module _ (storage : SlotStorage) where
  open storage use {Device}

  unfoldable pub commit_occurrence_transition :
      PersistentAlarmState
      → CommittedScheduleEvaluation
      → CommittedAlarmEvaluation
      → Device
      → Device × (CommittedScheduleEvaluation × Option CommittedAlarmEvaluation)
  unfolding settle
  commit_occurrence_transition state evaluation entry device =
      if not entry.result.persist_before_effects
      then (device, (evaluation, some entry))
      else let (written, committed) =
          save_occurrence_state storage state evaluation.schedule_revision evaluation.generation
            device in
        (
          written,
          settle committed.status (record evaluation { generation = committed.generation }) entry,
        )

  -- What both parts of the evaluation do with a result: stop at an invalid time, commit, append.
  -- The evaluation goes on if the last component holds.
  unfoldable pub take_result :
      PersistentAlarmState
      → CommittedScheduleEvaluation
      → CommittedAlarmEvaluation
      → Device
      → Device × (CommittedScheduleEvaluation × Bool)
  unfolding commit_occurrence_transition
  take_result state evaluation entry device =
      if is_invalid_time entry.result.status
      then (
        device,
        (
          record (push_alarm evaluation entry) { status = CommittedEvaluationStatus.invalid_time },
          false,
        ),
      )
      else let (written, (next, settled)) =
          commit_occurrence_transition state evaluation entry device in
        elim settled [
          | none ↦ (written, (next, false))
          | some accepted ↦ (written, (push_alarm next accepted, true))
        ]

  unfoldable pub evaluate_alarms :
      ℤ
      → ℤ
      → List StoredAlarmDefinition
      → PersistentAlarmState
      → CommittedScheduleEvaluation
      → Device
      → Device × CommittedScheduleEvaluation
  unfolding take_result
  evaluate_alarms wall monotonic [] state evaluation device = (device, evaluation)
  evaluate_alarms wall monotonic (stored ∷ rest) state evaluation device =
      let (next_state, result) = evaluate_due (definition_of stored) state wall monotonic true in
      let (written, (next, goes_on)) =
        take_result next_state evaluation
          (record {
            alarm_id = stored.id;
            result = result;
            journal_committed = false;
            from_active_occurrence = false;
          })
          device in
      let later = evaluate_alarms wall monotonic rest next_state next written in
      if goes_on then later else (written, next)

  -- The part on the active occurrence, if there is one.
  unfoldable pub evaluate_active :
      ℤ
      → ℤ
      → Bytes
      → PersistentAlarmState
      → CommittedScheduleEvaluation
      → Device
      → Device × (PersistentAlarmState × (CommittedScheduleEvaluation × Bool))
  unfolding take_result active_result active_entry
  evaluate_active wall monotonic boot_id state evaluation device = elim state.active [
    | none ↦ (device, (state, (evaluation, true)))
    | some active ↦
        let (next_state, result) = active_result wall monotonic boot_id state in
        let (written, taken) =
          take_result next_state evaluation (active_entry active result) device in
        (written, (next_state, taken))
  ]

  unfoldable pub evaluate_loaded :
      ℤ → ℤ → Bytes → LoadResult → Device → Device × CommittedScheduleEvaluation
  unfolding evaluate_alarms evaluate_active sort_alarms
  evaluate_loaded wall monotonic boot_id loaded device =
      if not (is_loaded loaded.status)
      then (device, only_status (unloaded_status loaded.status))
      else let (written, (state, (next, goes_on))) =
          evaluate_active wall monotonic boot_id loaded.snapshot.occurrence_state
            (record {
              status = CommittedEvaluationStatus.evaluated;
              schedule_revision = loaded.snapshot.revision;
              generation = loaded.generation;
              alarms = [];
            })
            device in
        if goes_on
        then evaluate_alarms wall monotonic (sort_alarms loaded.snapshot.alarms) state next written
        else (written, next)

  unfoldable pub evaluate_committed_schedule :
      ℤ → ℤ → Bool → Bytes → Device → Device × CommittedScheduleEvaluation
  unfolding evaluate_loaded
  evaluate_committed_schedule wall monotonic time_valid boot_id device =
      if not time_valid
      then (device, only_status CommittedEvaluationStatus.invalid_time)
      else evaluate_loaded wall monotonic boot_id (load storage device).1 (load storage device).0
