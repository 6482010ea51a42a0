-- ===== src/AlarmEngine/Types.antt =====
-- The constants and types of firmware/components/alarm_core/include/dawn/alarm_engine.hpp.
use dawn_dock.Common.{ℕ, ◌*◌, ℤ, pos, Bool, false, List, [], Option, Bytes}

abbrev pub late_grace_seconds : ℤ
late_grace_seconds = pos (10 * 60)

abbrev pub default_snooze_seconds : ℤ
default_snooze_seconds = pos (9 * 60)

abbrev pub minimum_snooze_seconds : ℤ
minimum_snooze_seconds = pos (1 * 60)

abbrev pub maximum_snooze_seconds : ℤ
maximum_snooze_seconds = pos (30 * 60)

abbrev pub occurrence_lifetime_seconds : ℤ
occurrence_lifetime_seconds = pos (60 * 60)

abbrev pub maximum_snoozes : ℕ
maximum_snoozes = 6

abbrev pub recent_terminal_retention : ℕ
recent_terminal_retention = 32

abbrev pub terminal_high_watermark_capacity : ℕ
terminal_high_watermark_capacity = 32

pub data EvaluationStatus : Type 0 where
  disabled armed ringing snoozed dismissed timed_out missed invalid_time : EvaluationStatus
  duplicate conflict invalid_request snooze_limit_reached : EvaluationStatus

pub data TerminalReason : Type 0 where
  dismissed alarm_disabled timed_out forward_jump invalid_time prolonged_power_off : TerminalReason

pub record AlarmDefinition : Type 0 where
  pub id : Bytes
  pub schedule_revision : ℕ
  pub enabled : Bool
  pub scheduled_utc_seconds : ℤ

pub record ActiveOccurrence : Type 0 where
  pub alarm_id : Bytes
  pub occurrence_id : Bytes
  pub scheduled_utc_seconds : ℤ
  pub first_ring_utc_seconds : ℤ
  pub first_ring_monotonic_seconds : ℤ
  pub snooze_deadline_monotonic_seconds : Option ℤ
  pub snooze_count : ℕ
  pub recovered_after_reboot : Bool
  pub last_recovery_boot_id : Bytes

pub record TerminalOccurrence : Type 0 where
  pub occurrence_id : Bytes
  pub reason : TerminalReason

pub record TerminalHighWatermark : Type 0 where
  pub alarm_id : Bytes
  pub scheduled_utc_seconds : ℤ

pub record PersistentAlarmState : Type 0 where
  pub active : Option ActiveOccurrence
  pub terminal : List TerminalOccurrence
  pub terminal_high_watermarks : List TerminalHighWatermark

pub record EvaluationResult : Type 0 where
  pub status : EvaluationStatus
  pub occurrence_id : Bytes
  pub start_alert : Bool
  pub stop_alert : Bool
  pub persist_before_effects : Bool
  pub late : Bool
  pub lateness_seconds : ℤ
  pub recovered_after_reboot : Bool

-- A default-constructed `EvaluationResult`.
abbrev pub default_result : EvaluationResult
default_result = record {
  status = EvaluationStatus.armed;
  occurrence_id = [];
  start_alert = false;
  stop_alert = false;
  persist_before_effects = false;
  late = false;
  lateness_seconds = pos 0;
  recovered_after_reboot = false;
}

abbrev pub status_only : EvaluationStatus → Bytes → EvaluationResult
status_only status occurrence_id = record default_result {
  status = status;
  occurrence_id = occurrence_id;
}

abbrev pub invalid_time_result : Bytes → EvaluationResult
invalid_time_result occurrence_id = record default_result {
  status = EvaluationStatus.invalid_time;
  occurrence_id = occurrence_id;
}

abbrev pub set_active : PersistentAlarmState → Option ActiveOccurrence → PersistentAlarmState
set_active state active = record state { active = active }
