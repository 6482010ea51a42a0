-- ===== src/RuntimeCoordinator/Tests.antt =====
-- Ticks over the device in memory, and a recovery after a boot.
use dawn_dock.Common.{
  ◌≡◌, ◌↔◌, refl, arith, pos, ◌+ℤ◌, ◌-ℤ◌, ◌≤ℤ◌, ◌&&◌, ◌||◌, int64_max, true, false, [], some, none,
  all, codes, bytes_eq, any, to_string, to_string_ℤ,
}
use dawn_dock.AlarmEngine.{
  ActiveOccurrence, PersistentAlarmState, EvaluationStatus, advance_active,
  occurrence_lifetime_seconds, recover_after_reboot, has_terminal, find_high_watermark,
  checked_elapsed, journal_can_accept, begin_recovered_ring, make_occurrence_id,
}
use dawn_dock.InvalidTimeRecovery.{reconcile_after_time_valid}
use dawn_dock.ScheduleStore.Load.{load, load_unlocked}
use dawn_dock.ScheduleStore.Tests.{memory, memory_laws, saved, store}
use dawn_dock.RuntimeCoordinator.{
  RuntimeTickObservation, RuntimeCoordinatorState, reconciliation_clears_latch, settle_result,
  translate_anchor, run_runtime_tick,
}
use dawn_dock.RuntimeCoordinator.Settle.{effect_held}
use dawn_dock.RuntimeCoordinator.Alert.{run_runtime_tick-held}
use dawn_dock.RuntimeCoordinator.Latch.{
  is_deferred, all_answered, settled_device, run_runtime_tick-defers,
}
use dawn_dock.RuntimeCoordinator.Deadline.{recovered-deadline}

abbrev tick : RuntimeTickObservation
tick = record {
  time_valid = true;
  wall_utc_seconds = pos 12;
  monotonic_seconds = pos 3;
  boot_id = codes "b";
}

abbrev owed : RuntimeCoordinatorState
owed = record { last_handled_boot_id = []; reconciliation_pending = true }

run_runtime_tick-held_example :
    all
      (effect_held
        (load_unlocked memory
          (run_runtime_tick memory owed tick saved).0).snapshot.occurrence_state)
      (run_runtime_tick memory owed tick saved).1.1.effects
    ≡ true
run_runtime_tick-held_example = run_runtime_tick-held memory memory_laws owed tick saved

run_runtime_tick-defers_example :
    (all is_deferred (run_runtime_tick memory owed tick saved).1.1.effects ≡ true)
    × (((run_runtime_tick memory owed tick saved).1.0.reconciliation_pending
          || (true
              && (reconciliation_clears_latch
                    (run_runtime_tick memory owed tick saved).1.1.reconciliation_status
                  && all_answered
                      (load_unlocked memory (settled_device memory owed tick saved))
                      (load_unlocked memory (run_runtime_tick memory owed tick saved).0)
                      (pos 12))))
        ≡ true)
run_runtime_tick-defers_example = run_runtime_tick-defers memory memory_laws owed tick saved refl

abbrev ringing : ActiveOccurrence
ringing = record {
  alarm_id = codes "w";
  occurrence_id = codes "w:1:9";
  scheduled_utc_seconds = pos 9;
  first_ring_utc_seconds = pos 10;
  first_ring_monotonic_seconds = pos 5000;
  snooze_deadline_monotonic_seconds = none;
  snooze_count = 0;
  recovered_after_reboot = false;
  last_recovery_boot_id = [];
}

abbrev rings : PersistentAlarmState
rings = record { active = some ringing; terminal = []; terminal_high_watermarks = [] }

resumes : (settle_result rings tick true).1.start_alert ≡ true
unfolding settle_result recover_after_reboot bytes_eq
resumes = refl

fits : (pos 12 +ℤ pos 3598) -ℤ pos 10 ≤ℤ int64_max
unfolding ◌+ℤ◌ ◌-ℤ◌
fits = omega arith

recovered-deadline_example :
    ((advance_active
        (translate_anchor (settle_result rings tick true).0 tick)
        (pos 3 +ℤ pos 3598)).1.status
      ≡ EvaluationStatus.timed_out)
    ↔ (occurrence_lifetime_seconds ≤ℤ (pos 12 +ℤ pos 3598) -ℤ pos 10)
recovered-deadline_example = recovered-deadline rings ringing tick 3598 refl resumes fits

-- The crossed alarm of the stored schedule rings on that tick.
crossed_rings :
    any (λ effect. effect.start_alert) (run_runtime_tick memory owed tick saved).1.1.effects ≡ true
unfolding store run_runtime_tick load saved reconcile_after_time_valid has_terminal
    find_high_watermark checked_elapsed journal_can_accept begin_recovered_ring make_occurrence_id
    to_string to_string_ℤ
crossed_rings = refl
