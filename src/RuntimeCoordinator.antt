-- ===== src/RuntimeCoordinator.antt =====
-- firmware/components/alarm_core/runtime_coordinator.cpp: one tick, which settles the active
-- occurrence, reconciles an invalid interval that is owed, or evaluates the schedule. The tick
-- returns the new state of its caller with its result.
use dawn_dock.Common.{
  ℕ, ◌==◌, ℤ, pos, ◌-ℤ◌, ltb_ℤ, Bool, true, false, not, ◌&&◌, ◌||◌, List, [], ◌∷◌, ◌++◌, map,
  Option, none, some, if◌then◌else◌, Bytes, length, bytes_eq,
}
use dawn_dock.AlarmEngine.{
  ActiveOccurrence, PersistentAlarmState, EvaluationStatus, EvaluationResult, advance_active,
  recover_after_reboot, set_active,
}
use dawn_dock.ScheduleStore.Types.{SlotStorage, LoadStatus, LoadResult, StoreStatus, StoreResult}
use dawn_dock.ScheduleStore.Load.{is_loaded, load}
use dawn_dock.ScheduleStore.Commit.{is_accepted, save_occurrence_state}
use dawn_dock.CommittedEvaluator.{
  CommittedEvaluationStatus, CommittedAlarmEvaluation, CommittedScheduleEvaluation, is_invalid_time,
  evaluate_committed_schedule,
}
use dawn_dock.InvalidTimeRecovery.{
  InvalidTimeRecoveryStatus, RecoveredOccurrence, InvalidTimeRecoveryResult, is_conflict,
  reconcile_after_time_valid,
}
mod Settle
mod Alert
mod Latch
mod Deadline
mod Tests

pub record RuntimeTickObservation : Type 0 where
  pub time_valid : Bool
  pub wall_utc_seconds : ℤ
  pub monotonic_seconds : ℤ
  pub boot_id : Bytes

pub record RuntimeCoordinatorState : Type 0 where
  pub last_handled_boot_id : Bytes
  pub reconciliation_pending : Bool

pub data RuntimeTickStatus : Type 0 where
  evaluated frozen_invalid_time reconciliation_blocked empty_store : RuntimeTickStatus
  invalid_store io_error persistence_conflict persistence_error : RuntimeTickStatus

pub data RuntimeEffectStage : Type 0 where
  evaluation active_lifecycle reconciliation : RuntimeEffectStage

pub record RuntimeTickEffect : Type 0 where
  pub alarm_id : Bytes
  pub occurrence_id : Bytes
  pub status : EvaluationStatus
  pub start_alert : Bool
  pub stop_alert : Bool
  pub late : Bool
  pub lateness_seconds : ℤ
  pub recovered_after_reboot : Bool
  pub stage : RuntimeEffectStage

pub record RuntimeTickResult : Type 0 where
  pub status : RuntimeTickStatus
  pub schedule_revision : ℕ
  pub generation : ℕ
  pub reconciliation_attempted : Bool
  pub reconciliation_status : InvalidTimeRecoveryStatus
  pub reconciliation_crossed : List RecoveredOccurrence
  pub effects : List RuntimeTickEffect

-- A default-constructed result.
abbrev pub default_tick : RuntimeTickResult
default_tick = record {
  status = RuntimeTickStatus.evaluated;
  schedule_revision = 0;
  generation = 0;
  reconciliation_attempted = false;
  reconciliation_status = InvalidTimeRecoveryStatus.nothing_crossed;
  reconciliation_crossed = [];
  effects = [];
}

abbrev pub status_from_evaluation : CommittedEvaluationStatus → RuntimeTickStatus
status_from_evaluation CommittedEvaluationStatus.evaluated = RuntimeTickStatus.evaluated
status_from_evaluation CommittedEvaluationStatus.invalid_time =
    RuntimeTickStatus.frozen_invalid_time
status_from_evaluation CommittedEvaluationStatus.empty_store = RuntimeTickStatus.empty_store
status_from_evaluation CommittedEvaluationStatus.invalid_store = RuntimeTickStatus.invalid_store
status_from_evaluation CommittedEvaluationStatus.io_error = RuntimeTickStatus.io_error
status_from_evaluation CommittedEvaluationStatus.persistence_conflict =
    RuntimeTickStatus.persistence_conflict
status_from_evaluation CommittedEvaluationStatus.persistence_error =
    RuntimeTickStatus.persistence_error

-- The status of a tick over a store that has no record.
abbrev pub unloaded_status : LoadStatus → RuntimeTickStatus
unloaded_status LoadStatus.empty = RuntimeTickStatus.empty_store
unloaded_status LoadStatus.io_error = RuntimeTickStatus.io_error
unloaded_status status = RuntimeTickStatus.invalid_store

-- The switch of `apply_reconciliation_outcome`, but for its effects.
abbrev pub status_from_recovery : InvalidTimeRecoveryStatus → RuntimeTickStatus
status_from_recovery InvalidTimeRecoveryStatus.reconciled = RuntimeTickStatus.evaluated
status_from_recovery InvalidTimeRecoveryStatus.nothing_crossed = RuntimeTickStatus.evaluated
status_from_recovery InvalidTimeRecoveryStatus.invalid_time =
    RuntimeTickStatus.reconciliation_blocked
status_from_recovery InvalidTimeRecoveryStatus.journal_capacity =
    RuntimeTickStatus.reconciliation_blocked
status_from_recovery InvalidTimeRecoveryStatus.active_conflict = RuntimeTickStatus.evaluated
status_from_recovery InvalidTimeRecoveryStatus.empty_store = RuntimeTickStatus.empty_store
status_from_recovery InvalidTimeRecoveryStatus.invalid_store = RuntimeTickStatus.invalid_store
status_from_recovery InvalidTimeRecoveryStatus.io_error = RuntimeTickStatus.io_error
status_from_recovery InvalidTimeRecoveryStatus.persistence_conflict =
    RuntimeTickStatus.persistence_conflict
status_from_recovery InvalidTimeRecoveryStatus.persistence_error =
    RuntimeTickStatus.persistence_error

abbrev pub is_reconciled : InvalidTimeRecoveryStatus → Bool
is_reconciled InvalidTimeRecoveryStatus.reconciled = true
is_reconciled status = false

-- The effect of one crossed occurrence.
unfoldable pub crossed_effect : InvalidTimeRecoveryResult → RecoveredOccurrence → RuntimeTickEffect
crossed_effect recovery crossed =
    let starts =
      recovery.start_alert && bytes_eq crossed.occurrence_id recovery.ringing_occurrence_id in
    record {
      alarm_id = crossed.alarm_id;
      occurrence_id = crossed.occurrence_id;
      status = crossed.outcome;
      start_alert = starts;
      stop_alert = false;
      late = starts && ltb_ℤ (pos 0) crossed.lateness_seconds;
      lateness_seconds = if starts then crossed.lateness_seconds else pos 0;
      recovered_after_reboot = false;
      stage = RuntimeEffectStage.reconciliation;
    }

unfoldable pub apply_reconciliation_outcome :
    InvalidTimeRecoveryResult → RuntimeTickResult → RuntimeTickResult
unfolding crossed_effect
apply_reconciliation_outcome recovery result = record result {
  reconciliation_status = recovery.status;
  reconciliation_crossed = recovery.crossed;
  generation = recovery.generation;
  effects =
      if is_reconciled recovery.status
      then result.effects ++ map (crossed_effect recovery) recovery.crossed
      else result.effects;
  status = status_from_recovery recovery.status;
}

abbrev pub reconciliation_clears_latch : InvalidTimeRecoveryStatus → Bool
reconciliation_clears_latch InvalidTimeRecoveryStatus.reconciled = true
reconciliation_clears_latch InvalidTimeRecoveryStatus.nothing_crossed = true
reconciliation_clears_latch status = false

-- The result of the engine on the active occurrence.
unfoldable pub settle_result :
    PersistentAlarmState → RuntimeTickObservation → Bool → PersistentAlarmState × EvaluationResult
settle_result state observation boot_pending =
    if boot_pending
    then recover_after_reboot state observation.wall_utc_seconds observation.boot_id
    else advance_active state observation.monotonic_seconds

-- The anchor of a recovered occurrence in the clock of the new boot. Both differences are the true
-- ones here; the source leaves one undefined that does not fit a `std::int64_t`.
unfoldable pub translate_anchor :
    PersistentAlarmState → RuntimeTickObservation → PersistentAlarmState
translate_anchor state observation = elim state.active [
  | none ↦ state
  | some active ↦ set_active state (
      some (record active {
        first_ring_monotonic_seconds =
            observation.monotonic_seconds
            -ℤ (observation.wall_utc_seconds -ℤ active.first_ring_utc_seconds);
      }))
]

unfoldable pub settle_effect : Bytes → EvaluationResult → RuntimeTickEffect
settle_effect alarm_id settled = record {
  alarm_id = alarm_id;
  occurrence_id = settled.occurrence_id;
  status = settled.status;
  start_alert = settled.start_alert;
  stop_alert = settled.stop_alert;
  late = false;
  lateness_seconds = pos 0;
  recovered_after_reboot = settled.recovered_after_reboot;
  stage = RuntimeEffectStage.active_lifecycle;
}

abbrev pub push_effect : RuntimeTickResult → RuntimeTickEffect → RuntimeTickResult
push_effect result effect = record result { effects = result.effects ++ (effect ∷ []) }

-- The effect of one entry of an evaluation.
unfoldable pub evaluation_effect : CommittedAlarmEvaluation → RuntimeTickEffect
evaluation_effect entry = record {
  alarm_id = entry.alarm_id;
  occurrence_id = entry.result.occurrence_id;
  status = entry.result.status;
  start_alert = entry.result.start_alert;
  stop_alert = entry.result.stop_alert;
  late = entry.result.late;
  lateness_seconds = entry.result.lateness_seconds;
  recovered_after_reboot = entry.result.recovered_after_reboot;
  stage =
      if entry.from_active_occurrence
      then RuntimeEffectStage.active_lifecycle
      else RuntimeEffectStage.evaluation;
}

abbrev pub is_boot_pending : RuntimeCoordinatorState → RuntimeTickObservation → Bool
is_boot_pending state observation =
    not (length observation.boot_id == 0)
    && not (bytes_eq state.last_handled_boot_id observation.boot_id)

module _ (storage : SlotStorage) where
  open storage use {Device}

  -- The commit of a settled occurrence, and its effect. The Boolean is `SettleStage::settled`.
  unfoldable pub commit_settled :
      PersistentAlarmState
      → Bytes
      → EvaluationResult
      → ℕ
      → ℕ
      → RuntimeTickResult
      → Device
      → Device × (RuntimeTickResult × Bool)
  unfolding settle_effect
  commit_settled state alarm_id settled revision generation result device =
      let effect = settle_effect alarm_id settled in
      let (written, committed) = save_occurrence_state storage state revision generation device in
      if not settled.persist_before_effects
      then (device, (push_effect result effect, true))
      else if not (is_accepted committed.status)
      then (
        written,
        (
          record result {
            status =
                if is_conflict committed.status
                then RuntimeTickStatus.persistence_conflict
                else RuntimeTickStatus.persistence_error;
          },
          false,
        ),
      )
      else (
        written,
        (push_effect (record result { generation = committed.generation }) effect, true),
      )

  unfoldable pub settle_active_occurrence :
      PersistentAlarmState
      → RuntimeTickObservation
      → Bool
      → ℕ
      → ℕ
      → RuntimeTickResult
      → Device
      → Device × (RuntimeTickResult × Bool)
  unfolding settle_result translate_anchor commit_settled
  settle_active_occurrence state observation boot_pending revision generation result device =
      elim state.active [
        | none ↦ (device, (result, true))
        | some active ↦
            let (settled_state, settled) = settle_result state observation boot_pending in
            if is_invalid_time settled.status
            then (device, (record result { status = RuntimeTickStatus.frozen_invalid_time }, false))
            else commit_settled
                (if boot_pending then translate_anchor settled_state observation else settled_state)
                active.alarm_id settled revision generation result device
      ]

  -- The load and the settling that a tick begins with. The Boolean says whether to go on.
  unfoldable pub settle_loaded :
      LoadResult
      → RuntimeTickObservation
      → Bool
      → RuntimeTickResult
      → Device
      → Device × (RuntimeTickResult × Bool)
  unfolding settle_active_occurrence
  settle_loaded loaded observation boot_pending result device =
      if not (is_loaded loaded.status)
      then (device, (record result { status = unloaded_status loaded.status }, false))
      else settle_active_occurrence loaded.snapshot.occurrence_state observation boot_pending
          loaded.snapshot.revision loaded.generation
          (record result {
            schedule_revision = loaded.snapshot.revision;
            generation = loaded.generation;
          })
          device

  -- The part of the tick on an invalid interval that is owed.
  unfoldable pub reconcile_tick :
      RuntimeCoordinatorState
      → RuntimeTickObservation
      → Device
      → Device × (RuntimeCoordinatorState × RuntimeTickResult)
  unfolding settle_loaded apply_reconciliation_outcome
  reconcile_tick state observation device =
      let boot_pending = is_boot_pending state observation in
      let (loaded_device, loaded) = load storage device in
      let (settled_device, (settled, goes_on)) =
        settle_loaded loaded observation boot_pending
          (record default_tick { reconciliation_attempted = true }) loaded_device in
      let handled =
        if boot_pending
        then record state { last_handled_boot_id = observation.boot_id }
        else state in
      let (written, recovery) =
        reconcile_after_time_valid storage observation.wall_utc_seconds
          observation.monotonic_seconds true settled_device in
      if not goes_on then (settled_device, (state, settled)) else (
        written,
        (
          if reconciliation_clears_latch recovery.status
              then record handled { reconciliation_pending = false }
              else handled,
          apply_reconciliation_outcome recovery settled,
        ),
      )

  -- The evaluation at the end of a tick.
  unfoldable pub evaluate_tick :
      RuntimeCoordinatorState
      → RuntimeTickObservation
      → RuntimeTickResult
      → Device
      → Device × (RuntimeCoordinatorState × RuntimeTickResult)
  unfolding evaluation_effect
  evaluate_tick state observation result device =
      let (written, outcome) =
        evaluate_committed_schedule storage observation.wall_utc_seconds
          observation.monotonic_seconds true [] device in
      (
        written,
        (
          state,
          record result {
            status = status_from_evaluation outcome.status;
            schedule_revision = outcome.schedule_revision;
            generation = outcome.generation;
            effects = result.effects ++ map evaluation_effect outcome.alarms;
          },
        ),
      )

  -- The first tick of a boot with no reconciliation owed.
  unfoldable pub boot_tick :
      RuntimeCoordinatorState
      → RuntimeTickObservation
      → Device
      → Device × (RuntimeCoordinatorState × RuntimeTickResult)
  unfolding settle_loaded evaluate_tick
  boot_tick state observation device =
      let (loaded_device, loaded) = load storage device in
      let (settled_device, (settled, goes_on)) =
        settle_loaded loaded observation true default_tick loaded_device in
      if not goes_on
      then (settled_device, (state, settled))
      else evaluate_tick (record state { last_handled_boot_id = observation.boot_id }) observation
          settled settled_device

  unfoldable pub run_runtime_tick :
      RuntimeCoordinatorState
      → RuntimeTickObservation
      → Device
      → Device × (RuntimeCoordinatorState × RuntimeTickResult)
  unfolding reconcile_tick boot_tick evaluate_tick
  run_runtime_tick state observation device =
      if not observation.time_valid
      then (
        device,
        (
          record state { reconciliation_pending = true },
          record default_tick { status = RuntimeTickStatus.frozen_invalid_time },
        ),
      )
      else if state.reconciliation_pending
      then reconcile_tick state observation device
      else if is_boot_pending state observation
      then boot_tick state observation device
      else evaluate_tick state observation default_tick device
