-- ===== src/CommittedAlarmDisable/Tests.antt =====
-- A disable over the device in memory.
use dawn_dock.Common.{◌≡◌, refl, true, false, bytes_eq, codes}
use dawn_dock.ScheduleStore.Load.{load, load_unlocked}
use dawn_dock.ScheduleStore.Tests.{memory, memory_laws, saved, store}
use dawn_dock.CommittedAlarmDisable.{find_alarm, has_matching_active, disable_committed_alarm}
use dawn_dock.CommittedAlarmDisable.Disabled.{
  is_off, is_found_disabled, disable_committed_alarm-off,
}

disables : is_off (disable_committed_alarm memory (codes "w") saved).1.status ≡ true
unfolding store disable_committed_alarm load saved
disables = refl

differs : bytes_eq (codes "v") (codes "w") ≡ false
unfolding bytes_eq
differs = refl

disable_committed_alarm-off_example :
    (is_found_disabled (
        find_alarm
          (codes "w")
          (load_unlocked memory
            (disable_committed_alarm memory (codes "w") saved).0).snapshot.alarms)
      ≡ true)
    × (has_matching_active
          (codes "w")
          (load_unlocked memory
            (disable_committed_alarm memory (codes "w") saved).0).snapshot.occurrence_state.active
        ≡ false)
    × (find_alarm
          (codes "v")
          (load_unlocked memory
            (disable_committed_alarm memory (codes "w") saved).0).snapshot.alarms
        ≡ find_alarm (codes "v") (load_unlocked memory saved).snapshot.alarms)
disable_committed_alarm-off_example =
    disable_committed_alarm-off memory memory_laws (codes "w") (codes "v") saved differs disables
