-- ===== src/AlarmEngine/Tests.antt =====
-- Runs of the engine, and its theorems at concrete inputs.
use dawn_dock.Common.{
  ◌≡◌, ◌↔◌, inr, refl, arith, ℕ, pos, negsuc, ◌+ℤ◌, ◌-ℤ◌, ◌≤ℤ◌, ◌<ℤ◌, IsInt64, true, false, some,
  none, [], ◌∷◌, List, bytes_eq, codes, to_string, to_string_ℤ, decimal,
}
use dawn_dock.AlarmEngine.{
  AlarmDefinition, ActiveOccurrence, PersistentAlarmState, EvaluationStatus, checked_add,
  checked_elapsed, find_high_watermark, raise_high_watermark, record_terminal_high_watermark,
  at_or_below, has_terminal, retain_recent, append_terminal, can_track_terminal, finish,
  finish_active, evaluate_due, admit, request_snooze, snooze_active, advance_active,
  advance_elapsed, dismiss_active, recover_after_reboot, recover_elapsed, journal_terminal,
  begin_recovered_ring, begin_occurrence, make_occurrence_id, set_active, late_grace_seconds,
}
use dawn_dock.AlarmEngine.Calls.{
  Call, asks, rings, due, snooze, advance, dismiss, respond, after, run,
}
use dawn_dock.AlarmEngine.Steps.{Step}
use dawn_dock.AlarmEngine.Refines.{after-Step}
use dawn_dock.AlarmEngine.Checked.{checked_elapsed-exact}
use dawn_dock.AlarmEngine.Effects.{respond-unpersisted, respond-alerts}
use dawn_dock.AlarmEngine.Invariant.{IsValid, run-IsValid}
use dawn_dock.AlarmEngine.Once.{Refuses, evaluate_due_once}
use dawn_dock.AlarmEngine.Admission.{IsAdmissible, evaluate_due-ringing, evaluate_due-missed}
use dawn_dock.AlarmEngine.Lifetime.{
  MaySnooze, Advances, advance_active-Advances, recover_after_reboot-once,
}
use dawn_dock.AlarmEngine.OccurrenceId.{make_occurrence_id_inj}
use dawn_dock.AlarmEngine.Watermarks.{at_or_below-raise}

engine : Unit {0}
unfolding evaluate_due admit request_snooze snooze_active advance_active advance_elapsed
    dismiss_active recover_after_reboot recover_elapsed journal_terminal begin_recovered_ring
    checked_add checked_elapsed ◌+ℤ◌ ◌-ℤ◌ find_high_watermark raise_high_watermark
    record_terminal_high_watermark has_terminal retain_recent append_terminal can_track_terminal
    finish finish_active make_occurrence_id bytes_eq to_string to_string_ℤ decimal respond after run
engine = tt

abbrev empty : PersistentAlarmState
empty = record { active = none; terminal = []; terminal_high_watermarks = [] }

abbrev wake : AlarmDefinition
wake = record {
  id = codes "wake";
  schedule_revision = 3;
  enabled = true;
  scheduled_utc_seconds = pos 1000;
}

abbrev rung : PersistentAlarmState
rung =
    set_active empty
      (some (begin_occurrence (codes "wake") (codes "wake:3:1000") (pos 1000) (pos 1060) (pos 50)))

rings_late : (evaluate_due wake empty (pos 1060) (pos 50) true).0 ≡ rung
unfolding engine
rings_late = refl

empty-IsValid : IsValid empty
empty-IsValid = (
  record {
    terminal_fits = omega arith;
    watermarks_fit = omega arith;
    terminal_distinct = tt;
    watermarks_distinct = tt;
  },
  tt,
)

checked_elapsed-exact_example :
    (checked_elapsed (pos 5) (negsuc 4) ≡ some (pos 10))
    ↔ ((pos 10 ≡ pos 5 -ℤ negsuc 4) × (negsuc 4 ≤ℤ pos 5) × IsInt64 (pos 5 -ℤ negsuc 4))
checked_elapsed-exact_example =
    checked_elapsed-exact (pos 5) (negsuc 4) (pos 10) (omega arith) (omega arith)

respond-unpersisted_example :
    (respond rung (snooze (codes "wake:3:1000") (pos 60) (pos 1))).0 ≡ rung
unfolding engine
respond-unpersisted_example =
    respond-unpersisted rung (snooze (codes "wake:3:1000") (pos 60) (pos 1)) refl

respond-alerts_example :
    ((respond rung (advance (pos 5000))).1.persist_before_effects ≡ true)
    × ¬ (
        ((respond rung (advance (pos 5000))).1.start_alert ≡ true)
        × ((respond rung (advance (pos 5000))).1.stop_alert ≡ true))
unfolding engine
respond-alerts_example = respond-alerts rung (advance (pos 5000)) (inr refl)

abbrev night : List Call
night =
    asks (due wake (pos 1060) (pos 50) true)
    ∷ asks (snooze (codes "wake:3:1000") (pos 60) (pos 540))
    ∷ asks (advance (pos 600))
    ∷ asks (dismiss (codes "wake:3:1000") false)
    ∷ []

run-IsValid_example : IsValid (run empty night)
run-IsValid_example = run-IsValid empty night (tt, (tt, (tt, (tt, tt)))) empty-IsValid

after-Step_example :
    Step empty (after empty (rings (codes "a") (codes "a:1:5") (pos 5) (pos 6) (pos 7)))
unfolding engine
after-Step_example =
    after-Step empty (rings (codes "a") (codes "a:1:5") (pos 5) (pos 6) (pos 7)) refl

evaluate_due_once_example :
    Refuses
      (run
        (evaluate_due wake empty (pos 1060) (pos 50) true).0
        (asks (dismiss (codes "wake:3:1000") false) ∷ []))
      (evaluate_due wake
        (run
          (evaluate_due wake empty (pos 1060) (pos 50) true).0
          (asks (dismiss (codes "wake:3:1000") false) ∷ []))
        (pos 1070)
        (pos 60)
        true)
unfolding engine
evaluate_due_once_example =
    evaluate_due_once empty wake wake (pos 1060) (pos 50) true
      (asks (dismiss (codes "wake:3:1000") false) ∷ []) (pos 1070) (pos 60) true refl (tt, tt) refl
      refl

evaluate_due-ringing_example :
    ((evaluate_due wake empty (pos 1060) (pos 50) true).1.status ≡ EvaluationStatus.ringing)
    ↔ (IsAdmissible wake empty (pos 1060) true × (pos 1060 -ℤ pos 1000 ≤ℤ late_grace_seconds))
evaluate_due-ringing_example =
    evaluate_due-ringing empty wake (pos 1060) (pos 50) true (omega arith) (omega arith)

evaluate_due-missed_example :
    ((evaluate_due wake empty (pos 9000) (pos 50) true).1.status ≡ EvaluationStatus.missed)
    ↔ (IsAdmissible wake empty (pos 9000) true × (late_grace_seconds <ℤ pos 9000 -ℤ pos 1000))
evaluate_due-missed_example =
    evaluate_due-missed empty wake (pos 9000) (pos 50) true (omega arith) (omega arith)

abbrev ringing_now : ActiveOccurrence
ringing_now = begin_occurrence (codes "wake") (codes "wake:3:1000") (pos 1000) (pos 1060) (pos 50)

may_snooze : MaySnooze ringing_now (codes "wake:3:1000") (pos 60) (pos 540)
unfolding engine
may_snooze = record {
  named = refl;
  ringing = refl;
  at_least = omega arith;
  at_most = omega arith;
  remaining = omega arith;
  forward = omega arith;
  fits = omega arith;
}

advance_active-Advances_example :
    Advances rung ringing_now (pos 5000) (advance_active rung (pos 5000))
unfolding ◌-ℤ◌
advance_active-Advances_example =
    advance_active-Advances rung ringing_now (pos 5000) refl (omega arith) (omega arith)
      (omega arith) (omega arith)

recover_after_reboot-once_example :
    Refuses (recover_after_reboot rung (pos 1100) (codes "boot-2")).0 (
      recover_after_reboot
        (recover_after_reboot rung (pos 1100) (codes "boot-2")).0
        (pos 1200)
        (codes "boot-2"))
unfolding engine
recover_after_reboot-once_example =
    recover_after_reboot-once rung (pos 1100) (pos 1200) (codes "boot-2") refl

make_occurrence_id_inj_example :
    (codes "wake" ≡ codes "wake") × (◌≡◌ {A = ℕ} 3 3) × (pos 1000 ≡ pos 1000)
make_occurrence_id_inj_example =
    make_occurrence_id_inj wake wake (record { revision = omega arith; scheduled = omega arith })
      (record { revision = omega arith; scheduled = omega arith }) refl

at_or_below-raise_example :
    at_or_below
      (find_high_watermark (raise_high_watermark (codes "a") (pos 9) []) (codes "a"))
      (pos 5)
    ≡ true
unfolding engine
at_or_below-raise_example = at_or_below-raise [] (codes "a") (codes "a") (pos 9) (pos 5)
