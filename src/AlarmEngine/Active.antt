-- ===== src/AlarmEngine/Active.antt =====
-- The life of the active occurrence: `request_snooze`, `advance_active`, `dismiss_active` and
-- `recover_after_reboot` of alarm_engine.cpp.
use dawn_dock.Common.{
  ◌+◌, leb, ℤ, ltb_ℤ, leb_ℤ, Bool, true, not, ◌||◌, Option, none, some, is_some, if◌then◌else◌,
  Bytes, bytes_eq,
}
use dawn_dock.AlarmEngine.Types.{
  ActiveOccurrence, PersistentAlarmState, EvaluationResult, EvaluationStatus, TerminalReason,
  default_result, status_only, invalid_time_result, set_active, minimum_snooze_seconds,
  maximum_snooze_seconds, occurrence_lifetime_seconds, maximum_snoozes,
}
use dawn_dock.AlarmEngine.Journal.{checked_add, checked_elapsed, finish}

-- `request_snooze` on the active occurrence, behind the tests that there is one and that it is the
-- one named.
unfoldable pub snooze_active :
    PersistentAlarmState
    → ActiveOccurrence
    → Bytes
    → ℤ
    → ℤ
    → PersistentAlarmState × EvaluationResult
unfolding checked_add
snooze_active state active occurrence_id monotonic duration =
    if is_some active.snooze_deadline_monotonic_seconds
    then (state, status_only EvaluationStatus.conflict occurrence_id)
    else if ltb_ℤ duration minimum_snooze_seconds || ltb_ℤ maximum_snooze_seconds duration
    then (state, status_only EvaluationStatus.invalid_request occurrence_id)
    else if leb maximum_snoozes active.snooze_count
    then (state, status_only EvaluationStatus.snooze_limit_reached occurrence_id)
    else if ltb_ℤ monotonic active.first_ring_monotonic_seconds
    then (state, invalid_time_result occurrence_id)
    else elim (checked_add monotonic duration) [
      | none ↦ (state, invalid_time_result occurrence_id)
      | some deadline ↦ (
        set_active state (
            some (record active {
              snooze_count = active.snooze_count + 1;
              snooze_deadline_monotonic_seconds = some deadline;
            })),
        record (status_only EvaluationStatus.snoozed occurrence_id) {
          stop_alert = true;
          persist_before_effects = true;
        },
      )
    ]

unfoldable pub request_snooze :
    PersistentAlarmState → Bytes → ℤ → ℤ → PersistentAlarmState × EvaluationResult
unfolding snooze_active
request_snooze state occurrence_id monotonic duration = elim state.active [
  | none ↦ (state, status_only EvaluationStatus.conflict occurrence_id)
  | some active ↦
      if not (bytes_eq active.occurrence_id occurrence_id)
      then (state, status_only EvaluationStatus.conflict occurrence_id)
      else snooze_active state active occurrence_id monotonic duration
]

-- The active occurrence ends in a terminal record.
unfoldable pub finish_active :
    PersistentAlarmState → ActiveOccurrence → TerminalReason → PersistentAlarmState
finish_active state active reason =
    set_active
      (finish state active.alarm_id active.scheduled_utc_seconds active.occurrence_id reason) none

-- `advance_active` from the elapsed time on.
unfoldable pub advance_elapsed :
    PersistentAlarmState → ActiveOccurrence → ℤ → Option ℤ → PersistentAlarmState × EvaluationResult
advance_elapsed state active monotonic none = (state, invalid_time_result active.occurrence_id)
advance_elapsed state active monotonic (some elapsed) =
    if leb_ℤ occurrence_lifetime_seconds elapsed
    then (
      finish_active state active TerminalReason.timed_out,
      record (status_only EvaluationStatus.timed_out active.occurrence_id) {
        stop_alert = true;
        persist_before_effects = true;
      },
    )
    else elim active.snooze_deadline_monotonic_seconds [
      | none ↦ (state, status_only EvaluationStatus.ringing active.occurrence_id)
      | some deadline ↦
          if ltb_ℤ monotonic deadline
          then (state, status_only EvaluationStatus.snoozed active.occurrence_id)
          else (
            set_active state (some (record active { snooze_deadline_monotonic_seconds = none })),
            record (status_only EvaluationStatus.ringing active.occurrence_id) {
              start_alert = true;
              persist_before_effects = true;
            },
          )
    ]

unfoldable pub advance_active : PersistentAlarmState → ℤ → PersistentAlarmState × EvaluationResult
unfolding advance_elapsed checked_elapsed
advance_active state monotonic = elim state.active [
  | none ↦ (state, default_result)
  | some active ↦
      advance_elapsed state active monotonic
        (checked_elapsed monotonic active.first_ring_monotonic_seconds)
]

unfoldable pub dismiss_active :
    PersistentAlarmState → Bytes → Bool → PersistentAlarmState × EvaluationResult
dismiss_active state occurrence_id for_disable = elim state.active [
  | none ↦ (state, status_only EvaluationStatus.conflict occurrence_id)
  | some active ↦
      if not (bytes_eq active.occurrence_id occurrence_id)
      then (state, status_only EvaluationStatus.conflict occurrence_id)
      else (
        set_active
            (finish state active.alarm_id active.scheduled_utc_seconds occurrence_id
              (if for_disable then TerminalReason.alarm_disabled else TerminalReason.dismissed))
            none,
        record (status_only EvaluationStatus.dismissed occurrence_id) {
          stop_alert = true;
          persist_before_effects = true;
        },
      )
]

-- `recover_after_reboot` from the elapsed time on.
unfoldable pub recover_elapsed :
    PersistentAlarmState
    → ActiveOccurrence
    → Bytes
    → Option ℤ
    → PersistentAlarmState × EvaluationResult
recover_elapsed state active boot_id none = (state, invalid_time_result active.occurrence_id)
recover_elapsed state active boot_id (some elapsed) =
    if leb_ℤ occurrence_lifetime_seconds elapsed
    then (
      finish_active state active TerminalReason.prolonged_power_off,
      record (status_only EvaluationStatus.missed active.occurrence_id) {
        persist_before_effects = true;
      },
    )
    else (
      set_active state (
          some (record active {
            snooze_deadline_monotonic_seconds = none;
            recovered_after_reboot = true;
            last_recovery_boot_id = boot_id;
          })),
      record (status_only EvaluationStatus.ringing active.occurrence_id) {
        start_alert = true;
        persist_before_effects = true;
        recovered_after_reboot = true;
      },
    )

unfoldable pub recover_after_reboot :
    PersistentAlarmState → ℤ → Bytes → PersistentAlarmState × EvaluationResult
unfolding recover_elapsed checked_elapsed
recover_after_reboot state wall boot_id = elim state.active [
  | none ↦ (state, default_result)
  | some active ↦
      if bytes_eq active.last_recovery_boot_id boot_id
      then (state, status_only EvaluationStatus.duplicate active.occurrence_id)
      else recover_elapsed state active boot_id (checked_elapsed wall active.first_ring_utc_seconds)
]
