-- ===== src/InvalidTimeRecovery/Tests.antt =====
-- A reconciliation over the device in memory.
use dawn_dock.Common.{◌≡◌, refl, pos, true, all, to_string, to_string_ℤ}
use dawn_dock.AlarmEngine.{
  has_terminal, find_high_watermark, checked_elapsed, journal_can_accept, begin_recovered_ring,
  make_occurrence_id,
}
use dawn_dock.ScheduleStore.Load.{load, load_unlocked, is_loaded}
use dawn_dock.ScheduleStore.Tests.{memory, memory_laws, saved, store}
use dawn_dock.InvalidTimeRecovery.{reconcile_after_time_valid}
use dawn_dock.InvalidTimeRecovery.Batch.{is_answered}
use dawn_dock.InvalidTimeRecovery.Settles.{is_complete, reconcile_after_time_valid-settled}

completes :
    is_complete (reconcile_after_time_valid memory (pos 12) (pos 3) true saved).1.status ≡ true
unfolding store load saved reconcile_after_time_valid has_terminal find_high_watermark
    checked_elapsed journal_can_accept begin_recovered_ring make_occurrence_id to_string to_string_ℤ
completes = refl

reconcile_after_time_valid-settled_example :
    (is_loaded (load_unlocked memory saved).status ≡ true)
    × (all
          (is_answered
            (load_unlocked memory saved).snapshot.occurrence_state
            (load_unlocked memory
              (reconcile_after_time_valid memory
                (pos 12)
                (pos 3)
                true
                saved).0).snapshot.occurrence_state
            (pos 12))
          (load_unlocked memory saved).snapshot.alarms
        ≡ true)
reconcile_after_time_valid-settled_example =
    reconcile_after_time_valid-settled memory memory_laws (pos 12) (pos 3) true saved completes
