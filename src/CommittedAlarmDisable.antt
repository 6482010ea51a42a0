-- ===== src/CommittedAlarmDisable.antt =====
-- firmware/components/alarm_core/committed_alarm_disable.cpp: the confirmed disable of an alarm, in
-- two commits. A result is passed on through the two phases as the local variable of the source is.
use dawn_dock.Common.{
  ℕ, ◌+◌, ◌%◌, ◌^◌, ◌==◌, Bool, true, false, not, ◌&&◌, ◌||◌, List, [], ◌∷◌, map, Option, none,
  some, if◌then◌else◌, Bytes, bytes_eq, find,
}
use dawn_dock.AlarmEngine.{ActiveOccurrence, PersistentAlarmState, EvaluationResult, dismiss_active}
use dawn_dock.ScheduleStore.Types.{
  StoredAlarmDefinition, ScheduleSnapshot, SlotStorage, LoadStatus, LoadResult, StoreStatus,
  StoreResult,
}
use dawn_dock.ScheduleStore.Load.{is_loaded, load}
use dawn_dock.ScheduleStore.Commit.{is_accepted, save, save_occurrence_state}
mod Disabled
mod Tests

pub data CommittedDisableStatus : Type 0 where
  disabled alarm_not_found already_disabled empty_store invalid_store : CommittedDisableStatus
  io_error persistence_conflict persistence_error : CommittedDisableStatus

pub record CommittedAlarmDisableResult : Type 0 where
  pub status : CommittedDisableStatus
  pub occurrence_id : Bytes
  pub journal_committed : Bool
  pub definition_committed : Bool
  pub stop_alert : Bool
  pub schedule_revision : ℕ
  pub generation : ℕ

-- A default-constructed result.
abbrev pub default_disable : CommittedAlarmDisableResult
default_disable = record {
  status = CommittedDisableStatus.persistence_error;
  occurrence_id = [];
  journal_committed = false;
  definition_committed = false;
  stop_alert = false;
  schedule_revision = 0;
  generation = 0;
}

abbrev pub is_conflict : StoreStatus → Bool
is_conflict StoreStatus.revision_conflict = true
is_conflict StoreStatus.generation_conflict = true
is_conflict status = false

-- The status of a commit that did not land.
abbrev pub failed_commit : StoreStatus → CommittedDisableStatus
failed_commit status =
    if is_conflict status
    then CommittedDisableStatus.persistence_conflict
    else CommittedDisableStatus.persistence_error

-- The status of a disable over a store that has no record.
abbrev pub unloaded_status : LoadStatus → CommittedDisableStatus
unloaded_status LoadStatus.empty = CommittedDisableStatus.empty_store
unloaded_status LoadStatus.io_error = CommittedDisableStatus.io_error
unloaded_status status = CommittedDisableStatus.invalid_store

abbrev pub find_alarm : Bytes → List StoredAlarmDefinition → Option StoredAlarmDefinition
find_alarm alarm_id alarms = find (λ alarm. bytes_eq alarm.id alarm_id) alarms

abbrev pub disable_alarm : Bytes → StoredAlarmDefinition → StoredAlarmDefinition
disable_alarm alarm_id alarm =
    if bytes_eq alarm.id alarm_id then record alarm { enabled = false } else alarm

-- The snapshot of the second phase; its revision wraps at 64 bits.
abbrev pub disabled_snapshot : Bytes → ScheduleSnapshot → ScheduleSnapshot
disabled_snapshot alarm_id snapshot = record snapshot {
  alarms = map (disable_alarm alarm_id) snapshot.alarms;
  revision = (snapshot.revision + 1) % 2 ^ 64;
}

-- The active occurrence belongs to the alarm.
abbrev pub has_matching_active : Bytes → Option ActiveOccurrence → Bool
has_matching_active alarm_id none = false
has_matching_active alarm_id (some active) = bytes_eq active.alarm_id alarm_id

abbrev pub active_occurrence_id : Option ActiveOccurrence → Bytes
active_occurrence_id none = []
active_occurrence_id (some active) = active.occurrence_id

module _ (storage : SlotStorage) where
  open storage use {Device}

  -- Phase 1, when the active occurrence belongs to the alarm. The Boolean says whether to go on.
  unfoldable pub commit_dismiss :
      LoadResult
      → CommittedAlarmDisableResult
      → Device
      → Device × (CommittedAlarmDisableResult × Bool)
  commit_dismiss loaded result device =
      let occurrence_id = active_occurrence_id loaded.snapshot.occurrence_state.active in
      let named = record result { occurrence_id = occurrence_id } in
      let (state, dismissed) = dismiss_active loaded.snapshot.occurrence_state occurrence_id true in
      if not dismissed.persist_before_effects || not dismissed.stop_alert
      then (device, (record named { status = CommittedDisableStatus.persistence_error }, false))
      else let (written, committed) =
          save_occurrence_state storage state loaded.snapshot.revision loaded.generation device in
        if is_accepted committed.status
        then (
          written,
          (
            record named {
              generation = committed.generation;
              journal_committed = true;
              stop_alert = true;
            },
            true,
          ),
        )
        else (
          written,
          (
            record named {
              generation = committed.generation;
              status = failed_commit committed.status;
              stop_alert = false;
            },
            false,
          ),
        )

  unfoldable pub dismiss_phase :
      Bytes
      → LoadResult
      → CommittedAlarmDisableResult
      → Device
      → Device × (CommittedAlarmDisableResult × Bool)
  unfolding commit_dismiss
  dismiss_phase alarm_id loaded result device =
      if has_matching_active alarm_id loaded.snapshot.occurrence_state.active
      then commit_dismiss loaded result device
      else (device, (result, true))

  -- Phase 2, for the definition that was found.
  unfoldable pub definition_phase :
      Bytes
      → LoadResult
      → StoredAlarmDefinition
      → CommittedAlarmDisableResult
      → Device
      → Device × CommittedAlarmDisableResult
  definition_phase alarm_id loaded target result device =
      let snapshot = disabled_snapshot alarm_id loaded.snapshot in
      if not target.enabled
      then (
        device,
        record result {
          status =
              if result.journal_committed
              then CommittedDisableStatus.disabled
              else CommittedDisableStatus.already_disabled;
        },
      )
      else if snapshot.revision == 0
      then (device, record result { status = CommittedDisableStatus.persistence_error })
      else let (written, committed) = save storage snapshot loaded.snapshot.revision device in
        if is_accepted committed.status
        then (
          written,
          record result {
            generation = committed.generation;
            definition_committed = true;
            schedule_revision = snapshot.revision;
            status = CommittedDisableStatus.disabled;
          },
        )
        else (
          written,
          record result {
            generation = committed.generation;
            status = failed_commit committed.status;
          },
        )

  unfoldable pub disable_loaded : Bytes → LoadResult → Device → Device × CommittedAlarmDisableResult
  unfolding dismiss_phase definition_phase
  disable_loaded alarm_id loaded device =
      let observed = record default_disable {
        schedule_revision = loaded.snapshot.revision;
        generation = loaded.generation;
      } in
      if not (is_loaded loaded.status)
      then (device, record default_disable { status = unloaded_status loaded.status })
      else elim (find_alarm alarm_id loaded.snapshot.alarms) [
        | none ↦ (device, record observed { status = CommittedDisableStatus.alarm_not_found })
        | some target ↦
            let (written, (result, goes_on)) = dismiss_phase alarm_id loaded observed device in
            if goes_on
            then definition_phase alarm_id loaded target result written
            else (written, result)
      ]

  unfoldable pub disable_committed_alarm : Bytes → Device → Device × CommittedAlarmDisableResult
  unfolding disable_loaded
  disable_committed_alarm alarm_id device =
      disable_loaded alarm_id (load storage device).1 (load storage device).0
