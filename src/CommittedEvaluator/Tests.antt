-- ===== src/CommittedEvaluator/Tests.antt =====
-- An evaluation of a schedule that was stored on the device in memory.
use dawn_dock.Common.{◌≡◌, refl, pos, true, [], all, codes}
use dawn_dock.ScheduleStore.Tests.{memory, memory_laws, saved}
use dawn_dock.CommittedEvaluator.{alarm_id_from_occurrence_id, evaluate_committed_schedule}
use dawn_dock.ScheduleStore.Load.{load_unlocked}
use dawn_dock.CommittedEvaluator.Journal.{starts_held}
use dawn_dock.CommittedEvaluator.Alert.{evaluate_committed_schedule-held}
use dawn_dock.CommittedEvaluator.Effects.{is_committed, evaluate_committed_schedule-all}

-- The alarm id is what stands before the first colon.
alarm_id_first : alarm_id_from_occurrence_id (codes "wake:1:9") ≡ codes "wake"
unfolding alarm_id_from_occurrence_id
alarm_id_first = refl

evaluate_committed_schedule-all_example :
    all is_committed (evaluate_committed_schedule memory (pos 12) (pos 3) true [] saved).1.alarms
    ≡ true
evaluate_committed_schedule-all_example =
    evaluate_committed_schedule-all memory (pos 12) (pos 3) true [] saved

evaluate_committed_schedule-held_example :
    all
      (starts_held
        (load_unlocked memory
          (evaluate_committed_schedule memory
            (pos 12)
            (pos 3)
            true
            []
            saved).0).snapshot.occurrence_state)
      (evaluate_committed_schedule memory (pos 12) (pos 3) true [] saved).1.alarms
    ≡ true
evaluate_committed_schedule-held_example =
    evaluate_committed_schedule-held memory memory_laws (pos 12) (pos 3) true [] saved
