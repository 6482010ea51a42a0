-- ===== src/AlarmEngine/Journal.antt =====
-- The helpers of alarm_engine.cpp: checked arithmetic, terminal high-watermarks, recent terminal
-- records, occurrence ids. An output parameter with a Boolean result is an `Option`.
use dawn_dock.Common.{
  ◌-◌, ltb, ℤ, pos, ◌+ℤ◌, ◌-ℤ◌, ltb_ℤ, int64_max, int64_min, Bool, true, false, not, ◌&&◌, ◌||◌,
  List, [], ◌∷◌, ◌++◌, Option, none, some, if◌then◌else◌, length, drop, any, find, Bytes, bytes_eq,
  to_string, to_string_ℤ,
}
use dawn_dock.AlarmEngine.Types.{
  AlarmDefinition, TerminalOccurrence, TerminalHighWatermark, PersistentAlarmState, TerminalReason,
  recent_terminal_retention, terminal_high_watermark_capacity,
}

unfoldable pub checked_add : ℤ → ℤ → Option ℤ
unfolding ◌+ℤ◌ ◌-ℤ◌
checked_add left right =
    if (ltb_ℤ (pos 0) right && ltb_ℤ (int64_max -ℤ right) left)
      || (ltb_ℤ right (pos 0) && ltb_ℤ left (int64_min -ℤ right))
    then none
    else some (left +ℤ right)

unfoldable pub checked_elapsed : ℤ → ℤ → Option ℤ
unfolding ◌+ℤ◌ ◌-ℤ◌
checked_elapsed now start =
    if ltb_ℤ now start || (ltb_ℤ start (pos 0) && ltb_ℤ (int64_max +ℤ start) now)
    then none
    else some (now -ℤ start)

unfoldable pub find_high_watermark :
    List TerminalHighWatermark → Bytes → Option TerminalHighWatermark
find_high_watermark watermarks alarm_id = find (λ w. bytes_eq w.alarm_id alarm_id) watermarks

unfoldable pub can_track_terminal : PersistentAlarmState → Bytes → Bool
can_track_terminal state alarm_id =
    any (λ w. bytes_eq w.alarm_id alarm_id) state.terminal_high_watermarks
    || ltb (length state.terminal_high_watermarks) terminal_high_watermark_capacity

-- The first entry of the alarm is raised in place, or a new one is appended.
unfoldable pub raise_high_watermark :
    Bytes → ℤ → List TerminalHighWatermark → List TerminalHighWatermark
raise_high_watermark alarm_id scheduled [] =
    record { alarm_id = alarm_id; scheduled_utc_seconds = scheduled } ∷ []
raise_high_watermark alarm_id scheduled (w ∷ ws) =
    if bytes_eq w.alarm_id alarm_id
    then (if ltb_ℤ w.scheduled_utc_seconds scheduled
        then record w { scheduled_utc_seconds = scheduled } ∷ ws
        else w ∷ ws)
    else w ∷ raise_high_watermark alarm_id scheduled ws

unfoldable pub record_terminal_high_watermark :
    PersistentAlarmState → Bytes → ℤ → PersistentAlarmState
record_terminal_high_watermark state alarm_id scheduled = record state {
  terminal_high_watermarks = raise_high_watermark alarm_id scheduled state.terminal_high_watermarks;
}

unfoldable pub has_terminal : List TerminalOccurrence → Bytes → Bool
has_terminal terminal occurrence_id = any (λ t. bytes_eq t.occurrence_id occurrence_id) terminal

-- The oldest records are erased beyond the retention.
unfoldable pub retain_recent : List TerminalOccurrence → List TerminalOccurrence
retain_recent terminal =
    if ltb recent_terminal_retention (length terminal)
    then drop (length terminal - recent_terminal_retention) terminal
    else terminal

unfoldable pub append_terminal : PersistentAlarmState → TerminalOccurrence → PersistentAlarmState
append_terminal state occurrence =
    if has_terminal state.terminal occurrence.occurrence_id
    then state
    else record state { terminal = retain_recent (state.terminal ++ (occurrence ∷ [])) }

-- 58 is the colon.
unfoldable pub make_occurrence_id : AlarmDefinition → Bytes
make_occurrence_id alarm =
    alarm.id
    ++ (58 ∷ (to_string alarm.schedule_revision ++ (58 ∷ to_string_ℤ alarm.scheduled_utc_seconds)))

-- A terminal outcome as the engine records it: the watermark, then the diagnostic record.
unfoldable pub finish :
    PersistentAlarmState → Bytes → ℤ → Bytes → TerminalReason → PersistentAlarmState
finish state alarm_id scheduled occurrence_id reason =
    append_terminal (record_terminal_high_watermark state alarm_id scheduled)
      (record { occurrence_id = occurrence_id; reason = reason })

unfoldable pub journal_can_accept : PersistentAlarmState → Bytes → Bool
unfolding can_track_terminal
journal_can_accept state alarm_id = can_track_terminal state alarm_id

-- The new state, and whether the record was accepted.
unfoldable pub journal_terminal :
    PersistentAlarmState → Bytes → Bytes → ℤ → TerminalReason → PersistentAlarmState × Bool
journal_terminal state alarm_id occurrence_id scheduled reason =
    if not (can_track_terminal state alarm_id)
    then (state, false)
    else (finish state alarm_id scheduled occurrence_id reason, true)
