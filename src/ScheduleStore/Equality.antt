-- ===== src/ScheduleStore/Equality.antt =====
-- `snapshots_equal` decides equality of snapshots.
use dawn_dock.Common.{
  ◌==◌, eqb_ℤ_iff, bool_eq, ℤ, Bool, true, false, List, [], ◌∷◌, Option, none, some, bytes_eq_iff,
  ◌≡◌, ◌↔◌, arith,
}
use dawn_dock.AlarmEngine.{
  ActiveOccurrence, TerminalOccurrence, TerminalHighWatermark, TerminalReason,
}
use dawn_dock.ScheduleStore.Types.{StoredAlarmDefinition, ScheduleSnapshot}
use dawn_dock.ScheduleStore.Encode.{encode_reason, decode_reason}
use dawn_dock.ScheduleStore.Compare.{
  deadline_equal, active_equal, terminal_equal, watermarks_equal, alarms_equal, snapshots_equal,
}

pub bool_eq_iff : (a b : Bool) → (bool_eq a b ≡ true) ↔ (a ≡ b)
bool_eq_iff true b = ground arith
bool_eq_iff false true = ground arith
bool_eq_iff false false = ground arith

deadline_equal_iff : (a b : Option ℤ) → (deadline_equal a b ≡ true) ↔ (a ≡ b)
deadline_equal_iff none none = ground arith
deadline_equal_iff none (some y) = ground arith
deadline_equal_iff (some x) none = ground arith
deadline_equal_iff (some x) (some y) = ground (arith, eqb_ℤ_iff x y)

pub decode_reason-encode_reason : (r : TerminalReason) → decode_reason (encode_reason r) ≡ some r
decode_reason-encode_reason r = ground arith

reason_eq_iff : (a b : TerminalReason) → ((encode_reason a == encode_reason b) ≡ true) ↔ (a ≡ b)
reason_eq_iff a b = ground arith

active_equal_iff : (a b : Option ActiveOccurrence) → (active_equal a b ≡ true) ↔ (a ≡ b)
unfolding active_equal
active_equal_iff none none = ground arith
active_equal_iff none (some y) = ground arith
active_equal_iff (some x) none = ground arith
active_equal_iff (some x) (some y) = ground (
  arith,
  bytes_eq_iff x.alarm_id y.alarm_id,
  bytes_eq_iff x.occurrence_id y.occurrence_id,
  bytes_eq_iff x.last_recovery_boot_id y.last_recovery_boot_id,
  eqb_ℤ_iff x.scheduled_utc_seconds y.scheduled_utc_seconds,
  eqb_ℤ_iff x.first_ring_utc_seconds y.first_ring_utc_seconds,
  eqb_ℤ_iff x.first_ring_monotonic_seconds y.first_ring_monotonic_seconds,
  deadline_equal_iff x.snooze_deadline_monotonic_seconds y.snooze_deadline_monotonic_seconds,
  bool_eq_iff x.recovered_after_reboot y.recovered_after_reboot,
)

terminal_equal_iff : (a b : List TerminalOccurrence) → (terminal_equal a b ≡ true) ↔ (a ≡ b)
unfolding terminal_equal
terminal_equal_iff [] [] = ground arith
terminal_equal_iff [] (y ∷ b) = ground arith
terminal_equal_iff (x ∷ a) [] = ground arith
terminal_equal_iff (x ∷ a) (y ∷ b) = ground (
  arith,
  bytes_eq_iff x.occurrence_id y.occurrence_id,
  reason_eq_iff x.reason y.reason,
  terminal_equal_iff a b,
)

watermarks_equal_iff : (a b : List TerminalHighWatermark) → (watermarks_equal a b ≡ true) ↔ (a ≡ b)
unfolding watermarks_equal
watermarks_equal_iff [] [] = ground arith
watermarks_equal_iff [] (y ∷ b) = ground arith
watermarks_equal_iff (x ∷ a) [] = ground arith
watermarks_equal_iff (x ∷ a) (y ∷ b) = ground (
  arith,
  bytes_eq_iff x.alarm_id y.alarm_id,
  eqb_ℤ_iff x.scheduled_utc_seconds y.scheduled_utc_seconds,
  watermarks_equal_iff a b,
)

alarms_equal_iff : (a b : List StoredAlarmDefinition) → (alarms_equal a b ≡ true) ↔ (a ≡ b)
unfolding alarms_equal
alarms_equal_iff [] [] = ground arith
alarms_equal_iff [] (y ∷ b) = ground arith
alarms_equal_iff (x ∷ a) [] = ground arith
alarms_equal_iff (x ∷ a) (y ∷ b) = ground (
  arith,
  bytes_eq_iff x.id y.id,
  bool_eq_iff x.enabled y.enabled,
  eqb_ℤ_iff x.scheduled_utc_seconds y.scheduled_utc_seconds,
  alarms_equal_iff a b,
)

-- Two snapshots compare as equal exactly when they are.
pub snapshots_equal_iff : (a b : ScheduleSnapshot) → (snapshots_equal a b ≡ true) ↔ (a ≡ b)
unfolding snapshots_equal
snapshots_equal_iff a b = ground (
  arith,
  bytes_eq_iff a.timezone_rules_version b.timezone_rules_version,
  alarms_equal_iff a.alarms b.alarms,
  active_equal_iff a.occurrence_state.active b.occurrence_state.active,
  terminal_equal_iff a.occurrence_state.terminal b.occurrence_state.terminal,
  watermarks_equal_iff a.occurrence_state.terminal_high_watermarks
      b.occurrence_state.terminal_high_watermarks,
)
