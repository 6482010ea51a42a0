-- ===== src/AlarmEngine/Invariant.antt =====
-- The well-formedness of the engine's state, which is what `validate_snapshot` of
-- schedule_store.cpp asks of it before it is stored, and its preservation by every call.
use dawn_dock.Common.{
  ◌≤◌, ◌≡◌, arith, ℤ, true, false, Option, none, some, List, [], ◌∷◌, length, Bytes, DistinctBy,
}
use dawn_dock.AlarmEngine.{
  ActiveOccurrence, PersistentAlarmState, TerminalOccurrence, TerminalReason, maximum_snoozes,
  recent_terminal_retention, terminal_high_watermark_capacity, has_terminal,
  record_terminal_high_watermark, append_terminal, can_track_terminal, finish, finish_active,
  set_active,
}
use dawn_dock.AlarmEngine.Watermarks.{length-raise, DistinctBy-raise}
use dawn_dock.AlarmEngine.Terminal.{
  length-append_terminal, DistinctBy-append_terminal, active-finish,
}
use dawn_dock.AlarmEngine.Steps.{
  DeadlineIn, Step, stay, start, miss, continue, end, Allowed, AllAllowed,
}
use dawn_dock.AlarmEngine.Refines.{after-Step}
use dawn_dock.AlarmEngine.Calls.{Call, after, run}

-- What holds of the active occurrence beside the journal.
pub record ActiveIsValid (s : PersistentAlarmState) (a : ActiveOccurrence) : Type 0 where
  pub snoozes : a.snooze_count ≤ maximum_snoozes
  pub deadline : DeadlineIn a.first_ring_monotonic_seconds a.snooze_deadline_monotonic_seconds
  pub tracked : can_track_terminal s a.alarm_id ≡ true
  pub unfinished : has_terminal s.terminal a.occurrence_id ≡ false

abbrev pub OptionIsValid : PersistentAlarmState → Option ActiveOccurrence → Type 0
OptionIsValid s none = Unit
OptionIsValid s (some a) = ActiveIsValid s a

pub record JournalIsValid (s : PersistentAlarmState) : Type 0 where
  pub terminal_fits : length s.terminal ≤ recent_terminal_retention
  pub watermarks_fit : length s.terminal_high_watermarks ≤ terminal_high_watermark_capacity
  pub terminal_distinct : DistinctBy (λ t. t.occurrence_id) s.terminal
  pub watermarks_distinct : DistinctBy (λ w. w.alarm_id) s.terminal_high_watermarks

abbrev pub IsValid : PersistentAlarmState → Type 0
IsValid s = JournalIsValid s × OptionIsValid s s.active

-- A terminal outcome of a tracked alarm keeps the journal valid.
pub finish-JournalIsValid :
    (s : PersistentAlarmState) (id : Bytes) (t : ℤ) (o : Bytes) (r : TerminalReason)
    → JournalIsValid s
    → can_track_terminal s id ≡ true
    → JournalIsValid (finish s id t o r)
unfolding finish record_terminal_high_watermark append_terminal can_track_terminal
finish-JournalIsValid s id t o r v h = record {
  terminal_fits = unfold append_terminal in length-append_terminal marked done v.terminal_fits;
  watermarks_fit = ground (arith, length-raise s.terminal_high_watermarks id t);
  terminal_distinct =
      unfold append_terminal in DistinctBy-append_terminal marked done v.terminal_distinct;
  watermarks_distinct =
      ground (arith, DistinctBy-raise s.terminal_high_watermarks id t v.watermarks_distinct);
}
  where
    marked : PersistentAlarmState
    marked = record_terminal_high_watermark s id t

    done : TerminalOccurrence
    done = record { occurrence_id = o; reason = r }

set_active-JournalIsValid :
    (s : PersistentAlarmState) (a : Option ActiveOccurrence)
    → JournalIsValid s
    → JournalIsValid (set_active s a)
set_active-JournalIsValid s a v = record {
  terminal_fits = v.terminal_fits;
  watermarks_fit = v.watermarks_fit;
  terminal_distinct = v.terminal_distinct;
  watermarks_distinct = v.watermarks_distinct;
}

finish-IsValid :
    (s : PersistentAlarmState) (id : Bytes) (t : ℤ) (o : Bytes) (r : TerminalReason)
    → s.active ≡ none
    → JournalIsValid s
    → can_track_terminal s id ≡ true
    → IsValid (finish s id t o r)
finish-IsValid s id t o r free v h =
    (finish-JournalIsValid s id t o r v h, rw (active-finish, free) tt)

pub Step-IsValid : {s u : PersistentAlarmState} → Step s u → IsValid s → IsValid u
unfolding can_track_terminal finish_active
Step-IsValid (stay s u e) v = rw e v
Step-IsValid (start s u id o t wall monotonic free tracked fresh e) v = rw e (
  set_active-JournalIsValid s _ v.0,
  record { snoozes = omega arith; deadline = tt; tracked = tracked; unfinished = fresh },
)
Step-IsValid (miss s u id o t reason free tracked e) v =
    rw e (finish-IsValid s id t o reason free v.0 tracked)
Step-IsValid (continue s u a b active c e) v =
    let w = rw active at v.1 in
    rw e (
      set_active-JournalIsValid s _ v.0,
      record {
        snoozes = ground arith;
        deadline = c.deadline;
        tracked = rw c.same_alarm w.tracked;
        unfinished = rw c.same_occurrence w.unfinished;
      },
    )
Step-IsValid (end s u a reason active e) v =
    let w = rw active at v.1 in
    rw e (
      set_active-JournalIsValid _ none (
          finish-JournalIsValid s a.alarm_id a.scheduled_utc_seconds a.occurrence_id reason v.0
            w.tracked),
      tt,
    )

-- A valid state stays valid through any call that its caller may make.
pub after-IsValid :
    (s : PersistentAlarmState) (c : Call) → Allowed s c → IsValid s → IsValid (after s c)
after-IsValid s c h v = Step-IsValid (after-Step s c h) v

-- And through any history of calls.
pub run-IsValid :
    (s : PersistentAlarmState) (cs : List Call) → AllAllowed s cs → IsValid s → IsValid (run s cs)
unfolding run
run-IsValid s [] h v = v
run-IsValid s (c ∷ cs) h v = run-IsValid (after s c) cs h.1 (after-IsValid s c h.0 v)
