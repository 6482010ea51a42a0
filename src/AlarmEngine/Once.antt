-- ===== src/AlarmEngine/Once.antt =====
-- An occurrence is admitted once: by ringing or by being missed it is settled, and nothing that the
-- engine does later unsettles it.
use dawn_dock.Common.{
  ◌≡◌, refl, ◌⊎◌, inl, inr, arith, ℤ, Bool, true, false, some, List, [], ◌∷◌, Bytes, bytes_eq_refl,
  subst₂,
}
use dawn_dock.AlarmEngine.{
  AlarmDefinition, ActiveOccurrence, PersistentAlarmState, EvaluationResult, TerminalReason,
  find_high_watermark, at_or_below, finish, finish_active, set_active, evaluate_due, admit,
  make_occurrence_id, begin_occurrence,
}
use dawn_dock.AlarmEngine.Watermarks.{at_or_below-raise}
use dawn_dock.AlarmEngine.Terminal.{watermarks-finish}
use dawn_dock.AlarmEngine.Steps.{Step, stay, start, miss, continue, end, AllAllowed}
use dawn_dock.AlarmEngine.Refines.{after-Step}
use dawn_dock.AlarmEngine.Calls.{Call, after, run}

-- The occurrence of alarm `id` scheduled at `t` is active now, or at or below the watermark.
abbrev pub IsSettled : Bytes → ℤ → PersistentAlarmState → Type 0
IsSettled id t s =
    ((a : ActiveOccurrence) × (s.active ≡ some a)
      × (a.alarm_id ≡ id)
      × (a.scheduled_utc_seconds ≡ t))
    ⊎ (at_or_below (find_high_watermark s.terminal_high_watermarks id) t ≡ true)

-- A terminal outcome keeps what was below the watermarks there.
finish_keeps :
    (s : PersistentAlarmState) (id k : Bytes) (t u : ℤ) (o : Bytes) (r : TerminalReason)
    → at_or_below (find_high_watermark s.terminal_high_watermarks k) u ≡ true
    → at_or_below (find_high_watermark (finish s id t o r).terminal_high_watermarks k) u ≡ true
finish_keeps s id k t u o r h =
    rw (watermarks-finish, at_or_below-raise s.terminal_high_watermarks id k t u, h) refl

-- And puts its own occurrence there.
finish_settles :
    (s : PersistentAlarmState) (id : Bytes) (t : ℤ) (o : Bytes) (r : TerminalReason)
    → at_or_below (find_high_watermark (finish s id t o r).terminal_high_watermarks id) t ≡ true
finish_settles s id t o r =
    rw watermarks-finish
      (ground (arith, at_or_below-raise s.terminal_high_watermarks id id t t, bytes_eq_refl id))

Step-IsSettled :
    {s u : PersistentAlarmState} (id : Bytes) (t : ℤ)
    → Step s u
    → IsSettled id t s
    → IsSettled id t u
unfolding finish_active
Step-IsSettled id t (stay s u e) h = rw e h
Step-IsSettled id t (start s u k o w wall monotonic free tracked fresh e) (inl (a, p, q, r)) = cc
Step-IsSettled id t (start s u k o w wall monotonic free tracked fresh e) (inr h) = rw e (inr h)
Step-IsSettled id t (miss s u k o w reason free tracked e) (inl (a, p, q, r)) = cc
Step-IsSettled id t (miss s u k o w reason free tracked e) (inr h) =
    rw e (inr (finish_keeps s k id w t o reason h))
Step-IsSettled id t (continue s u a b active c e) (inl (x, p, q, r)) =
    rw e (inl (b, refl, ground arith, ground arith))
Step-IsSettled id t (continue s u a b active c e) (inr h) = rw e (inr h)
Step-IsSettled id t (end s u a reason active e) (inl (x, p, q, r)) = rw e (
    inr (
      subst₂
        (λ k w.
          at_or_below
            (find_high_watermark
              (finish s a.alarm_id a.scheduled_utc_seconds a.occurrence_id
                reason).terminal_high_watermarks
              k)
            w
          ≡ true)
        (ground arith) (ground arith)
        (finish_settles s a.alarm_id a.scheduled_utc_seconds a.occurrence_id reason)))
Step-IsSettled id t (end s u a reason active e) (inr h) =
    rw e (inr (finish_keeps s a.alarm_id id a.scheduled_utc_seconds t a.occurrence_id reason h))

pub run-IsSettled :
    (s : PersistentAlarmState) (id : Bytes) (t : ℤ) (cs : List Call)
    → AllAllowed s cs
    → IsSettled id t s
    → IsSettled id t (run s cs)
unfolding run
run-IsSettled s id t [] ok h = h
run-IsSettled s id t (c ∷ cs) ok h =
    run-IsSettled (after s c) id t cs ok.1 (Step-IsSettled id t (after-Step s c ok.0) h)

-- What `evaluate_due` answers when it admits nothing: no change, no alert, nothing to persist.
abbrev pub Refuses : PersistentAlarmState → PersistentAlarmState × EvaluationResult → Type 0
Refuses s answer =
    (answer.0 ≡ s) × (answer.1.start_alert ≡ false) × (answer.1.persist_before_effects ≡ false)

pub evaluate_due-settled :
    (s : PersistentAlarmState) (alarm : AlarmDefinition) (wall monotonic : ℤ) (valid : Bool)
    → IsSettled alarm.id alarm.scheduled_utc_seconds s
    → Refuses s (evaluate_due alarm s wall monotonic valid)
unfolding evaluate_due
evaluate_due-settled s alarm wall monotonic valid (inl (a, p, q, r)) = ground arith
evaluate_due-settled s alarm wall monotonic valid (inr h) = ground arith

settles_by_start :
    (s u : PersistentAlarmState) (id o : Bytes) (t wall monotonic : ℤ)
    → u ≡ set_active s (some (begin_occurrence id o t wall monotonic))
    → IsSettled id t u
settles_by_start s u id o t wall monotonic e = rw e (inl (_, refl, refl, refl))

settles_by_finish :
    (s u : PersistentAlarmState) (id o : Bytes) (t : ℤ) (r : TerminalReason)
    → u ≡ finish s id t o r
    → IsSettled id t u
settles_by_finish s u id o t r e = rw e (inr (finish_settles s id t o r))

-- Of the two ways in which `evaluate_due` asks for a write.
evaluate_due_writes :
    (s : PersistentAlarmState) (alarm : AlarmDefinition) (wall monotonic : ℤ) (valid : Bool)
    → (evaluate_due alarm s wall monotonic valid).1.persist_before_effects ≡ true
    → ((evaluate_due alarm s wall monotonic valid).0
        ≡ set_active s (
            some (
              begin_occurrence alarm.id
                (make_occurrence_id alarm)
                alarm.scheduled_utc_seconds
                wall
                monotonic)))
      ⊎ ((evaluate_due alarm s wall monotonic valid).0
          ≡ finish s alarm.id alarm.scheduled_utc_seconds
              (make_occurrence_id alarm)
              TerminalReason.forward_jump)
unfolding evaluate_due admit
evaluate_due_writes s alarm wall monotonic valid h = ground arith

-- Admission settles the occurrence, whether it rings or is missed.
pub evaluate_due-IsSettled :
    (s : PersistentAlarmState) (alarm : AlarmDefinition) (wall monotonic : ℤ) (valid : Bool)
    → (evaluate_due alarm s wall monotonic valid).1.persist_before_effects ≡ true
    → IsSettled alarm.id alarm.scheduled_utc_seconds (evaluate_due alarm s wall monotonic valid).0
evaluate_due-IsSettled s alarm wall monotonic valid h =
    elim (evaluate_due_writes s alarm wall monotonic valid h) [
      | inl e ↦ settles_by_start s _ alarm.id _ alarm.scheduled_utc_seconds wall monotonic e
      | inr e ↦ settles_by_finish s _ alarm.id _ alarm.scheduled_utc_seconds _ e
    ]

-- Once `evaluate_due` has admitted an occurrence, as ringing or as missed, no later evaluation of
-- the same alarm at the same scheduled instant admits it again, whatever the engine is asked in
-- between: it leaves the state as it is, starts no alert and asks for no write. The revision of
-- the schedule may have changed meanwhile.
pub evaluate_due_once :
    (s : PersistentAlarmState) (alarm again : AlarmDefinition) (wall monotonic : ℤ) (valid : Bool)
    (cs : List Call) (wall' monotonic' : ℤ) (valid' : Bool)
    → (evaluate_due alarm s wall monotonic valid).1.persist_before_effects ≡ true
    → AllAllowed (evaluate_due alarm s wall monotonic valid).0 cs
    → again.id ≡ alarm.id
    → again.scheduled_utc_seconds ≡ alarm.scheduled_utc_seconds
    → Refuses (run (evaluate_due alarm s wall monotonic valid).0 cs) (
        evaluate_due again
          (run (evaluate_due alarm s wall monotonic valid).0 cs)
          wall'
          monotonic'
          valid')
evaluate_due_once s alarm again wall monotonic valid cs wall' monotonic' valid' h ok id t =
    evaluate_due-settled _ again wall' monotonic' valid' (
      rw (id, t)
        (run-IsSettled _ alarm.id alarm.scheduled_utc_seconds cs ok
          (evaluate_due-IsSettled s alarm wall monotonic valid h)))
