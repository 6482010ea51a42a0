-- ===== src/ScheduleStore/Compare.antt =====
-- `snapshots_equal` of firmware/components/alarm_core/schedule_store.cpp, and what it calls.
use dawn_dock.Common.{
  ◌==◌, eqb_ℤ, bool_eq, ℤ, Bool, true, false, ◌&&◌, List, [], ◌∷◌, Option, none, some, bytes_eq,
}
use dawn_dock.AlarmEngine.{ActiveOccurrence, TerminalOccurrence, TerminalHighWatermark}
use dawn_dock.ScheduleStore.Types.{StoredAlarmDefinition, ScheduleSnapshot}
use dawn_dock.ScheduleStore.Encode.{encode_reason}

abbrev pub deadline_equal : Option ℤ → Option ℤ → Bool
deadline_equal none none = true
deadline_equal (some d) (some e) = eqb_ℤ d e
deadline_equal none (some e) = false
deadline_equal (some d) none = false

unfoldable pub active_equal : Option ActiveOccurrence → Option ActiveOccurrence → Bool
active_equal none none = true
active_equal none (some right) = false
active_equal (some left) none = false
active_equal (some left) (some right) =
    bytes_eq left.alarm_id right.alarm_id
    && (bytes_eq left.occurrence_id right.occurrence_id
        && (eqb_ℤ left.scheduled_utc_seconds right.scheduled_utc_seconds
            && (eqb_ℤ left.first_ring_utc_seconds right.first_ring_utc_seconds
                && (eqb_ℤ left.first_ring_monotonic_seconds right.first_ring_monotonic_seconds
                    && (deadline_equal left.snooze_deadline_monotonic_seconds
                          right.snooze_deadline_monotonic_seconds
                        && (left.snooze_count == right.snooze_count
                            && (bool_eq left.recovered_after_reboot right.recovered_after_reboot
                                && bytes_eq left.last_recovery_boot_id
                                    right.last_recovery_boot_id)))))))

unfoldable pub terminal_equal : List TerminalOccurrence → List TerminalOccurrence → Bool
terminal_equal [] [] = true
terminal_equal [] (r ∷ right) = false
terminal_equal (l ∷ left) [] = false
terminal_equal (l ∷ left) (r ∷ right) =
    (bytes_eq l.occurrence_id r.occurrence_id && encode_reason l.reason == encode_reason r.reason)
    && terminal_equal left right

unfoldable pub watermarks_equal : List TerminalHighWatermark → List TerminalHighWatermark → Bool
watermarks_equal [] [] = true
watermarks_equal [] (r ∷ right) = false
watermarks_equal (l ∷ left) [] = false
watermarks_equal (l ∷ left) (r ∷ right) =
    (bytes_eq l.alarm_id r.alarm_id && eqb_ℤ l.scheduled_utc_seconds r.scheduled_utc_seconds)
    && watermarks_equal left right

-- `operator==` of the alarms, entry by entry.
unfoldable pub alarms_equal : List StoredAlarmDefinition → List StoredAlarmDefinition → Bool
alarms_equal [] [] = true
alarms_equal [] (r ∷ right) = false
alarms_equal (l ∷ left) [] = false
alarms_equal (l ∷ left) (r ∷ right) =
    (bytes_eq l.id r.id
      && (l.schedule_revision == r.schedule_revision
          && (bool_eq l.enabled r.enabled
              && eqb_ℤ l.scheduled_utc_seconds r.scheduled_utc_seconds)))
    && alarms_equal left right

unfoldable pub snapshots_equal : ScheduleSnapshot → ScheduleSnapshot → Bool
unfolding active_equal terminal_equal watermarks_equal alarms_equal
snapshots_equal left right =
    left.revision == right.revision
    && (bytes_eq left.timezone_rules_version right.timezone_rules_version
        && (alarms_equal left.alarms right.alarms
            && (active_equal left.occurrence_state.active right.occurrence_state.active
                && (terminal_equal left.occurrence_state.terminal right.occurrence_state.terminal
                    && watermarks_equal left.occurrence_state.terminal_high_watermarks
                        right.occurrence_state.terminal_high_watermarks))))
