-- ===== src/AlarmEngine/Calls.antt =====
-- The engine as a whole: a request of its caller or of the coordinator, and a history of them.
use dawn_dock.Common.{ℤ, Bool, List, [], ◌∷◌, Bytes}
use dawn_dock.AlarmEngine.{
  AlarmDefinition, PersistentAlarmState, TerminalReason, EvaluationResult, evaluate_due,
  request_snooze, advance_active, dismiss_active, recover_after_reboot, journal_terminal,
  begin_recovered_ring,
}

-- The functions that answer by an `EvaluationResult`, with their arguments.
pub data Request : Type 0 where
  due : AlarmDefinition → ℤ → ℤ → Bool → Request
  snooze : Bytes → ℤ → ℤ → Request
  advance : ℤ → Request
  dismiss : Bytes → Bool → Request
  recover : ℤ → Bytes → Request

unfoldable pub respond : PersistentAlarmState → Request → PersistentAlarmState × EvaluationResult
respond s (due alarm wall monotonic valid) = evaluate_due alarm s wall monotonic valid
respond s (snooze occurrence_id monotonic duration) =
    request_snooze s occurrence_id monotonic duration
respond s (advance monotonic) = advance_active s monotonic
respond s (dismiss occurrence_id for_disable) = dismiss_active s occurrence_id for_disable
respond s (recover wall boot_id) = recover_after_reboot s wall boot_id

-- With the two functions that answer by a Boolean.
pub data Call : Type 0 where
  asks : Request → Call
  journals : Bytes → Bytes → ℤ → TerminalReason → Call
  rings : Bytes → Bytes → ℤ → ℤ → ℤ → Call

unfoldable pub after : PersistentAlarmState → Call → PersistentAlarmState
unfolding respond
after s (asks r) = (respond s r).0
after s (journals alarm_id occurrence_id scheduled reason) =
    (journal_terminal s alarm_id occurrence_id scheduled reason).0
after s (rings alarm_id occurrence_id scheduled wall monotonic) =
    (begin_recovered_ring s alarm_id occurrence_id scheduled wall monotonic).0

unfoldable pub run : PersistentAlarmState → List Call → PersistentAlarmState
unfolding after
run s [] = s
run s (c ∷ cs) = run (after s c) cs
