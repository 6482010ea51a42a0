-- ===== src/ScheduleStore/Validate.antt =====
-- `validate_snapshot` of firmware/components/alarm_core/schedule_store.cpp. A set of the ids seen so
-- far is the list of them.
use dawn_dock.Common.{
  ℕ, ltb, leb, ◌==◌, ltb_ℤ, Bool, true, not, ◌&&◌, ◌||◌, List, [], ◌∷◌, Option, none, some, length,
  any, Bytes, bytes_eq,
}
use dawn_dock.AlarmEngine.{
  ActiveOccurrence, TerminalOccurrence, TerminalHighWatermark, PersistentAlarmState,
  maximum_snoozes, recent_terminal_retention, terminal_high_watermark_capacity, active_is,
}
use dawn_dock.ScheduleStore.Types.{
  StoredAlarmDefinition, ScheduleSnapshot, maximum_stored_alarms, maximum_alarm_id_bytes,
  maximum_occurrence_id_bytes, maximum_boot_id_bytes, maximum_timezone_version_bytes,
}

unfoldable pub valid_string : Bytes → ℕ → Bool
valid_string value maximum =
    not (length value == 0)
    && (leb (length value) maximum && not (any (λ c. c == 0 || ltb c 0x20) value))

unfoldable pub valid_optional_string : Bytes → ℕ → Bool
unfolding valid_string
valid_optional_string value maximum = length value == 0 || valid_string value maximum

abbrev pub seen_in : List Bytes → Bytes → Bool
seen_in seen id = any (λ s. bytes_eq s id) seen

unfoldable pub validate_alarms : ℕ → List Bytes → List StoredAlarmDefinition → Bool
validate_alarms revision seen [] = true
validate_alarms revision seen (alarm ∷ alarms) =
    valid_string alarm.id maximum_alarm_id_bytes
    && (not (alarm.schedule_revision == 0)
        && (leb alarm.schedule_revision revision
            && (not (seen_in seen alarm.id) && validate_alarms revision (alarm.id ∷ seen) alarms)))

unfoldable pub validate_active : Option ActiveOccurrence → Bool
validate_active none = true
validate_active (some active) =
    valid_string active.alarm_id maximum_alarm_id_bytes
    && (valid_string active.occurrence_id maximum_occurrence_id_bytes
        && (valid_optional_string active.last_recovery_boot_id maximum_boot_id_bytes
            && (leb active.snooze_count maximum_snoozes
                && elim active.snooze_deadline_monotonic_seconds [
                  | none ↦ true
                  | some deadline ↦ not (ltb_ℤ deadline active.first_ring_monotonic_seconds)
                ])))

-- The reason is one of the enumerators by its type.
unfoldable pub validate_terminal :
    Option ActiveOccurrence → List Bytes → List TerminalOccurrence → Bool
validate_terminal active seen [] = true
validate_terminal active seen (terminal ∷ rest) =
    valid_string terminal.occurrence_id maximum_occurrence_id_bytes
    && (not (seen_in seen terminal.occurrence_id)
        && (not (active_is active terminal.occurrence_id)
            && validate_terminal active (terminal.occurrence_id ∷ seen) rest))

unfoldable pub validate_watermarks : List Bytes → List TerminalHighWatermark → Bool
validate_watermarks seen [] = true
validate_watermarks seen (watermark ∷ rest) =
    valid_string watermark.alarm_id maximum_alarm_id_bytes
    && (not (seen_in seen watermark.alarm_id)
        && validate_watermarks (watermark.alarm_id ∷ seen) rest)

unfoldable pub validate_occurrence_state : PersistentAlarmState → Bool
unfolding validate_active validate_terminal validate_watermarks
validate_occurrence_state state =
    validate_active state.active
    && (validate_terminal state.active [] state.terminal
        && validate_watermarks [] state.terminal_high_watermarks)

unfoldable pub validate_snapshot : ScheduleSnapshot → Bool
unfolding valid_string validate_alarms validate_occurrence_state
validate_snapshot snapshot =
    not (snapshot.revision == 0)
    && (valid_string snapshot.timezone_rules_version maximum_timezone_version_bytes
        && (leb (length snapshot.alarms) maximum_stored_alarms
            && (leb (length snapshot.occurrence_state.terminal) recent_terminal_retention
                && (leb (length snapshot.occurrence_state.terminal_high_watermarks)
                      terminal_high_watermark_capacity
                    && (validate_alarms snapshot.revision [] snapshot.alarms
                        && validate_occurrence_state snapshot.occurrence_state)))))
