-- ===== src/AlarmEngine/Due.antt =====
-- Admission of a due alarm: `evaluate_due` and `begin_recovered_ring` of alarm_engine.cpp.
use dawn_dock.Common.{
  ℤ, pos, ltb_ℤ, leb_ℤ, Bool, true, false, not, ◌&&◌, ◌||◌, [], Option, none, some, is_some,
  if◌then◌else◌, Bytes, bytes_eq,
}
use dawn_dock.AlarmEngine.Types.{
  AlarmDefinition, ActiveOccurrence, TerminalHighWatermark, PersistentAlarmState, EvaluationResult,
  EvaluationStatus, TerminalReason, default_result, status_only, invalid_time_result, set_active,
  late_grace_seconds,
}
use dawn_dock.AlarmEngine.Journal.{
  checked_elapsed, find_high_watermark, can_track_terminal, has_terminal, make_occurrence_id,
  finish,
}

abbrev pub active_is : Option ActiveOccurrence → Bytes → Bool
active_is none occurrence_id = false
active_is (some active) occurrence_id = bytes_eq active.occurrence_id occurrence_id

abbrev pub at_or_below : Option TerminalHighWatermark → ℤ → Bool
at_or_below none scheduled = false
at_or_below (some w) scheduled = leb_ℤ scheduled w.scheduled_utc_seconds

-- An occurrence that starts to ring.
abbrev pub begin_occurrence : Bytes → Bytes → ℤ → ℤ → ℤ → ActiveOccurrence
begin_occurrence alarm_id occurrence_id scheduled wall monotonic = record {
  alarm_id = alarm_id;
  occurrence_id = occurrence_id;
  scheduled_utc_seconds = scheduled;
  first_ring_utc_seconds = wall;
  first_ring_monotonic_seconds = monotonic;
  snooze_deadline_monotonic_seconds = none;
  snooze_count = 0;
  recovered_after_reboot = false;
  last_recovery_boot_id = [];
}

-- The end of `evaluate_due`, from the computed lateness on.
unfoldable pub admit :
    AlarmDefinition
    → PersistentAlarmState
    → ℤ
    → ℤ
    → Option ℤ
    → PersistentAlarmState × EvaluationResult
admit alarm state wall monotonic none = (state, invalid_time_result (make_occurrence_id alarm))
admit alarm state wall monotonic (some lateness) =
    let occurrence_id = make_occurrence_id alarm in
    if ltb_ℤ late_grace_seconds lateness
    then (
      finish state alarm.id alarm.scheduled_utc_seconds occurrence_id TerminalReason.forward_jump,
      record default_result {
        status = EvaluationStatus.missed;
        occurrence_id = occurrence_id;
        persist_before_effects = true;
        lateness_seconds = lateness;
      },
    )
    else (
      record state {
        active =
            some
              (begin_occurrence alarm.id occurrence_id alarm.scheduled_utc_seconds wall monotonic);
      },
      record default_result {
        status = EvaluationStatus.ringing;
        occurrence_id = occurrence_id;
        start_alert = true;
        persist_before_effects = true;
        late = ltb_ℤ (pos 0) lateness;
        lateness_seconds = lateness;
      },
    )

unfoldable pub evaluate_due :
    AlarmDefinition → PersistentAlarmState → ℤ → ℤ → Bool → PersistentAlarmState × EvaluationResult
evaluate_due alarm state wall monotonic time_valid =
    let occurrence_id = make_occurrence_id alarm in
    let scheduled = alarm.scheduled_utc_seconds in
    if not alarm.enabled
    then (state, status_only EvaluationStatus.disabled [])
    else if not time_valid
    then (state, status_only EvaluationStatus.invalid_time [])
    else if ltb_ℤ wall scheduled
    then (state, default_result)
    else if is_some state.active && not (active_is state.active occurrence_id)
    then (state, status_only EvaluationStatus.conflict occurrence_id)
    else if active_is state.active occurrence_id
        || (has_terminal state.terminal occurrence_id
            || at_or_below (find_high_watermark state.terminal_high_watermarks alarm.id) scheduled)
    then (state, status_only EvaluationStatus.duplicate occurrence_id)
    else if not (can_track_terminal state alarm.id)
    then (state, status_only EvaluationStatus.conflict occurrence_id)
    else admit alarm state wall monotonic (checked_elapsed wall scheduled)

unfoldable pub begin_recovered_ring :
    PersistentAlarmState → Bytes → Bytes → ℤ → ℤ → ℤ → PersistentAlarmState × Bool
begin_recovered_ring state alarm_id occurrence_id scheduled wall monotonic =
    if is_some state.active
    then (state, false)
    else if not (can_track_terminal state alarm_id)
    then (state, false)
    else (
      set_active state (some (begin_occurrence alarm_id occurrence_id scheduled wall monotonic)),
      true,
    )
