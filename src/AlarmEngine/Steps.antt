-- ===== src/AlarmEngine/Steps.antt =====
-- The engine as an abstract transition system: the five ways in which a call changes the state.
use dawn_dock.Common.{◌≤◌, ◌≡◌, ◌⊎◌, ℤ, ◌≤ℤ◌, true, false, Option, none, some, List, [], ◌∷◌, Bytes}
use dawn_dock.AlarmEngine.{
  ActiveOccurrence, PersistentAlarmState, TerminalReason, maximum_snoozes, has_terminal,
  can_track_terminal, finish, finish_active, set_active, begin_occurrence,
}
use dawn_dock.AlarmEngine.Calls.{Call, asks, journals, rings, after}

-- A snooze deadline lies after the first ring.
abbrev pub DeadlineIn : ℤ → Option ℤ → Type 0
DeadlineIn first none = Unit
DeadlineIn first (some deadline) = first ≤ℤ deadline

-- The same occurrence, with at most the allowed snoozes.
pub record Continues (a b : ActiveOccurrence) : Type 0 where
  pub same_alarm : b.alarm_id ≡ a.alarm_id
  pub same_occurrence : b.occurrence_id ≡ a.occurrence_id
  pub same_schedule : b.scheduled_utc_seconds ≡ a.scheduled_utc_seconds
  pub same_first_ring : b.first_ring_monotonic_seconds ≡ a.first_ring_monotonic_seconds
  pub snoozes : (b.snooze_count ≤ a.snooze_count) ⊎ (b.snooze_count ≤ maximum_snoozes)
  pub deadline : DeadlineIn b.first_ring_monotonic_seconds b.snooze_deadline_monotonic_seconds

pub data Step : PersistentAlarmState → PersistentAlarmState → Type 0 where
  -- Nothing changes.
  stay : (s u : PersistentAlarmState) → u ≡ s → Step s u
  -- An occurrence begins to ring: the slot is free, and its outcome can be tracked.
  start :
      (s u : PersistentAlarmState) (id o : Bytes) (t wall monotonic : ℤ)
      → s.active ≡ none
      → can_track_terminal s id ≡ true
      → has_terminal s.terminal o ≡ false
      → u ≡ set_active s (some (begin_occurrence id o t wall monotonic))
      → Step s u
  -- An occurrence that never rang is recorded as terminal.
  miss :
      (s u : PersistentAlarmState) (id o : Bytes) (t : ℤ) (reason : TerminalReason)
      → s.active ≡ none
      → can_track_terminal s id ≡ true
      → u ≡ finish s id t o reason
      → Step s u
  -- The active occurrence is snoozed, rings again, or is recovered.
  continue :
      (s u : PersistentAlarmState) (a b : ActiveOccurrence)
      → s.active ≡ some a
      → Continues a b
      → u ≡ set_active s (some b)
      → Step s u
  -- The active occurrence ends.
  end :
      (s u : PersistentAlarmState) (a : ActiveOccurrence) (reason : TerminalReason)
      → s.active ≡ some a
      → u ≡ finish_active s a reason
      → Step s u

-- What the callers of the last two functions see to: a record is journaled while no
-- occurrence is active, and one that is terminal does not ring again.
abbrev pub Allowed : PersistentAlarmState → Call → Type 0
Allowed s (asks r) = Unit
Allowed s (journals alarm_id o t reason) = s.active ≡ none
Allowed s (rings alarm_id o t wall monotonic) = has_terminal s.terminal o ≡ false

abbrev pub AllAllowed : PersistentAlarmState → List Call → Type 0
AllAllowed s [] = Unit
AllAllowed s (c ∷ cs) = Allowed s c × AllAllowed (after s c) cs
