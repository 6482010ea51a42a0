-- ===== src/AlarmEngine.antt =====
-- The alarm engine, firmware/components/alarm_core/alarm_engine.cpp: one function for each function
-- of the file, in `Journal`, `Due` and `Active`. A function that changes `PersistentAlarmState`
-- returns the new state; an output parameter with a Boolean result is an `Option`. `std::int64_t`
-- is ℤ, with every range test of the source written out.
pub mod Types
pub mod Journal
pub mod Due
pub mod Active
pub mod Watermarks
mod Terminal
mod Checked
pub mod Calls
mod Effects
pub mod Steps
mod Refines
mod Invariant
mod Once
mod Admission
mod Lifetime
mod OccurrenceId
mod Tests
pub use Types.{
  AlarmDefinition, ActiveOccurrence, TerminalOccurrence, TerminalHighWatermark,
  PersistentAlarmState, EvaluationStatus, TerminalReason, EvaluationResult, default_result,
  status_only, invalid_time_result, set_active, late_grace_seconds, minimum_snooze_seconds,
  maximum_snooze_seconds, occurrence_lifetime_seconds, maximum_snoozes, recent_terminal_retention,
  terminal_high_watermark_capacity,
}
unfoldable pub use Journal.{
  checked_add, checked_elapsed, find_high_watermark, can_track_terminal, raise_high_watermark,
  record_terminal_high_watermark, has_terminal, retain_recent, append_terminal, make_occurrence_id,
  finish, journal_can_accept, journal_terminal,
}
unfoldable pub use Due.{
  active_is, at_or_below, begin_occurrence, admit, evaluate_due, begin_recovered_ring,
}
unfoldable pub use Active.{
  snooze_active, request_snooze, finish_active, advance_elapsed, advance_active, dismiss_active,
  recover_elapsed, recover_after_reboot,
}
