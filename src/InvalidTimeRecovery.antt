-- ===== src/InvalidTimeRecovery.antt =====
-- firmware/components/alarm_core/invalid_time_recovery.cpp: the alarms whose instant passed while the
-- time was invalid are classified in one commit.
use dawn_dock.Common.{
  ℕ, zero, suc, ◌==◌, ℤ, pos, ltb_ℤ, leb_ℤ, eqb_ℤ, Bool, true, false, not, ◌&&◌, ◌||◌, List, [],
  ◌∷◌, ◌++◌, map, Option, none, some, if◌then◌else◌, Bytes, bytes_lt, any, bytes_eq,
}
use dawn_dock.AlarmEngine.{
  AlarmDefinition, ActiveOccurrence, PersistentAlarmState, EvaluationStatus, TerminalReason,
  checked_elapsed, make_occurrence_id, has_terminal, find_high_watermark, at_or_below,
  journal_can_accept, journal_terminal, begin_recovered_ring, late_grace_seconds,
}
use dawn_dock.ScheduleStore.Types.{
  StoredAlarmDefinition, SlotStorage, LoadStatus, LoadResult, StoreStatus, StoreResult,
}
use dawn_dock.ScheduleStore.Load.{is_loaded, load}
use dawn_dock.ScheduleStore.Commit.{is_accepted, save_occurrence_state}
pub mod Ring
pub mod Batch
pub mod Settles
mod Tests

pub data InvalidTimeRecoveryStatus : Type 0 where
  reconciled nothing_crossed invalid_time active_conflict : InvalidTimeRecoveryStatus
  journal_capacity empty_store invalid_store io_error : InvalidTimeRecoveryStatus
  persistence_conflict persistence_error : InvalidTimeRecoveryStatus

pub record RecoveredOccurrence : Type 0 where
  pub alarm_id : Bytes
  pub occurrence_id : Bytes
  pub outcome : EvaluationStatus
  pub lateness_seconds : ℤ

pub record InvalidTimeRecoveryResult : Type 0 where
  pub status : InvalidTimeRecoveryStatus
  pub schedule_revision : ℕ
  pub generation : ℕ
  pub crossed : List RecoveredOccurrence
  pub start_alert : Bool
  pub ringing_occurrence_id : Bytes
  pub journal_committed : Bool

-- A default-constructed result, but for its status.
abbrev pub only_status : InvalidTimeRecoveryStatus → InvalidTimeRecoveryResult
only_status status = record {
  status = status;
  schedule_revision = 0;
  generation = 0;
  crossed = [];
  start_alert = false;
  ringing_occurrence_id = [];
  journal_committed = false;
}

abbrev pub is_conflict : StoreStatus → Bool
is_conflict StoreStatus.revision_conflict = true
is_conflict StoreStatus.generation_conflict = true
is_conflict status = false

-- The status of a recovery over a store that has no record.
abbrev pub unloaded_status : LoadStatus → InvalidTimeRecoveryStatus
unloaded_status LoadStatus.empty = InvalidTimeRecoveryStatus.empty_store
unloaded_status LoadStatus.io_error = InvalidTimeRecoveryStatus.io_error
unloaded_status status = InvalidTimeRecoveryStatus.invalid_store

-- The lateness of the source's struct is filled in for the newest only, and is kept apart here.
pub record CrossedCandidate : Type 0 where
  pub alarm_id : Bytes
  pub occurrence_id : Bytes
  pub scheduled_utc_seconds : ℤ

abbrev pub definition_of : StoredAlarmDefinition → AlarmDefinition
definition_of alarm = record {
  id = alarm.id;
  schedule_revision = alarm.schedule_revision;
  enabled = alarm.enabled;
  scheduled_utc_seconds = alarm.scheduled_utc_seconds;
}

-- The test of the first loop.
abbrev pub is_crossed : PersistentAlarmState → ℤ → StoredAlarmDefinition → Bool
is_crossed state wall alarm =
    not (not alarm.enabled || ltb_ℤ wall alarm.scheduled_utc_seconds)
    && not (
        has_terminal state.terminal (make_occurrence_id (definition_of alarm))
        || at_or_below (find_high_watermark state.terminal_high_watermarks alarm.id)
            alarm.scheduled_utc_seconds)

unfoldable pub collect_crossed :
    PersistentAlarmState → ℤ → List StoredAlarmDefinition → List CrossedCandidate
collect_crossed state wall [] = []
collect_crossed state wall (alarm ∷ alarms) =
    let rest = collect_crossed state wall alarms in
    if is_crossed state wall alarm
    then record {
      alarm_id = alarm.id;
      occurrence_id = make_occurrence_id (definition_of alarm);
      scheduled_utc_seconds = alarm.scheduled_utc_seconds;
    }
      ∷ rest
    else rest

abbrev pub is_earlier : CrossedCandidate → CrossedCandidate → Bool
is_earlier left right =
    if not (eqb_ℤ left.scheduled_utc_seconds right.scheduled_utc_seconds)
    then ltb_ℤ left.scheduled_utc_seconds right.scheduled_utc_seconds
    else bytes_lt left.alarm_id right.alarm_id

-- `std::sort`; the alarm ids of a valid snapshot are distinct, so that the order is total.
unfoldable pub insert_candidate : CrossedCandidate → List CrossedCandidate → List CrossedCandidate
insert_candidate candidate [] = candidate ∷ []
insert_candidate candidate (first ∷ rest) =
    let inserted = insert_candidate candidate rest in
    if is_earlier first candidate then first ∷ inserted else candidate ∷ first ∷ rest

unfoldable pub sort_candidates : List CrossedCandidate → List CrossedCandidate
unfolding insert_candidate
sort_candidates [] = []
sort_candidates (candidate ∷ rest) = insert_candidate candidate (sort_candidates rest)

-- The candidates before the last, and the last: `crossed.back()`.
unfoldable pub split_newest :
    CrossedCandidate → List CrossedCandidate → List CrossedCandidate × CrossedCandidate
split_newest first [] = ([], first)
split_newest first (second ∷ rest) =
    (first ∷ (split_newest second rest).0, (split_newest second rest).1)

-- The candidates that are missed, journaled in their order; `none` is a full journal.
unfoldable pub journal_missed :
    PersistentAlarmState → List CrossedCandidate → Option PersistentAlarmState
journal_missed state [] = some state
journal_missed state (candidate ∷ rest) =
    let (next, accepted) =
      journal_terminal state candidate.alarm_id candidate.occurrence_id
        candidate.scheduled_utc_seconds TerminalReason.invalid_time in
    let later = journal_missed next rest in if accepted then later else none

-- The newest rings, if it may, behind the older ones.
unfoldable pub journal_ring :
    CrossedCandidate → ℤ → ℤ → PersistentAlarmState → Option PersistentAlarmState
journal_ring newest wall monotonic journal =
    let (rung, began) =
      begin_recovered_ring journal newest.alarm_id newest.occurrence_id newest.scheduled_utc_seconds
        wall monotonic in
    if not (journal_can_accept journal newest.alarm_id)
    then none
    else if began
    then some rung
    else none

-- The batch on a copy of the journal.
unfoldable pub journal_batch :
    PersistentAlarmState
    → List CrossedCandidate
    → CrossedCandidate
    → Bool
    → ℤ
    → ℤ
    → Option PersistentAlarmState
unfolding journal_missed journal_ring
journal_batch state older newest rings wall monotonic = elim (journal_missed state older) [
  | none ↦ none
  | some journal ↦
      if rings
      then journal_ring newest wall monotonic journal
      else journal_missed journal (newest ∷ [])
]

abbrev pub missed_record : CrossedCandidate → RecoveredOccurrence
missed_record candidate = record {
  alarm_id = candidate.alarm_id;
  occurrence_id = candidate.occurrence_id;
  outcome = EvaluationStatus.missed;
  lateness_seconds = pos 0;
}

abbrev pub newest_record : CrossedCandidate → Bool → ℤ → RecoveredOccurrence
newest_record newest rings lateness = record {
  alarm_id = newest.alarm_id;
  occurrence_id = newest.occurrence_id;
  outcome = if rings then EvaluationStatus.ringing else EvaluationStatus.missed;
  lateness_seconds = lateness;
}

module _ (storage : SlotStorage) where
  open storage use {Device}

  -- The one commit, and what it exposes. `observed` has the revision and the generation.
  unfoldable pub commit_batch :
      LoadResult
      → InvalidTimeRecoveryResult
      → List CrossedCandidate
      → CrossedCandidate
      → Bool
      → ℤ
      → PersistentAlarmState
      → Device
      → Device × InvalidTimeRecoveryResult
  commit_batch loaded observed older newest rings lateness journal device =
      let (written, committed) =
        save_occurrence_state storage journal loaded.snapshot.revision loaded.generation device in
      let answered = record observed { generation = committed.generation } in
      if not (is_accepted committed.status)
      then (
        written,
        record answered {
          status =
              if is_conflict committed.status
              then InvalidTimeRecoveryStatus.persistence_conflict
              else InvalidTimeRecoveryStatus.persistence_error;
        },
      )
      else (
        written,
        record answered {
          status = InvalidTimeRecoveryStatus.reconciled;
          crossed = map missed_record older ++ (newest_record newest rings lateness ∷ []);
          journal_committed = true;
          start_alert = rings;
          ringing_occurrence_id = if rings then newest.occurrence_id else [];
        },
      )

  -- From the sorted candidates on, the first of them and the others.
  unfoldable pub reconcile_crossed :
      LoadResult
      → InvalidTimeRecoveryResult
      → ℤ
      → ℤ
      → CrossedCandidate
      → List CrossedCandidate
      → Device
      → Device × InvalidTimeRecoveryResult
  unfolding split_newest journal_batch commit_batch
  reconcile_crossed loaded observed wall monotonic first rest device =
      let (older, newest) = split_newest first rest in
      elim (checked_elapsed wall newest.scheduled_utc_seconds) [
        | none ↦ (device, record observed { status = InvalidTimeRecoveryStatus.invalid_time })
        | some lateness ↦
            let rings = leb_ℤ lateness late_grace_seconds in
            elim (journal_batch loaded.snapshot.occurrence_state older newest rings wall
              monotonic) [
                | none ↦ (
                  device,
                  record observed { status = InvalidTimeRecoveryStatus.journal_capacity },
                )
                | some journal ↦
                    commit_batch loaded observed older newest rings lateness journal device
              ]
      ]

  unfoldable pub reconcile_sorted :
      LoadResult
      → InvalidTimeRecoveryResult
      → ℤ
      → ℤ
      → List CrossedCandidate
      → Device
      → Device × InvalidTimeRecoveryResult
  unfolding reconcile_crossed
  reconcile_sorted loaded observed wall monotonic [] device =
      (device, record observed { status = InvalidTimeRecoveryStatus.nothing_crossed })
  reconcile_sorted loaded observed wall monotonic (first ∷ rest) device =
      reconcile_crossed loaded observed wall monotonic first rest device

  unfoldable pub reconcile_loaded : LoadResult → ℤ → ℤ → Device → Device × InvalidTimeRecoveryResult
  unfolding reconcile_sorted collect_crossed sort_candidates
  reconcile_loaded loaded wall monotonic device =
      let observed = record (only_status InvalidTimeRecoveryStatus.persistence_error) {
        schedule_revision = loaded.snapshot.revision;
        generation = loaded.generation;
      } in
      let state = loaded.snapshot.occurrence_state in
      if not (is_loaded loaded.status)
      then (device, only_status (unloaded_status loaded.status))
      else elim state.active [
        | some active ↦
            (device, record observed { status = InvalidTimeRecoveryStatus.active_conflict })
        | none ↦
            reconcile_sorted loaded observed wall monotonic
              (sort_candidates (collect_crossed state wall loaded.snapshot.alarms)) device
      ]

  unfoldable pub reconcile_after_time_valid :
      ℤ → ℤ → Bool → Device → Device × InvalidTimeRecoveryResult
  unfolding reconcile_loaded
  reconcile_after_time_valid wall monotonic time_valid device =
      if not time_valid
      then (device, only_status InvalidTimeRecoveryStatus.invalid_time)
      else reconcile_loaded (load storage device).1 wall monotonic (load storage device).0
