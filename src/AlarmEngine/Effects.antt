-- ===== src/AlarmEngine/Effects.antt =====
-- Persistence before effects: what a result says of the state and of the alert.
use dawn_dock.Common.{◌≡◌, ◌⊎◌, arith, true, false}
use dawn_dock.AlarmEngine.{
  PersistentAlarmState, evaluate_due, admit, request_snooze, advance_active, dismiss_active,
  recover_after_reboot,
}
use dawn_dock.AlarmEngine.Calls.{Request, due, snooze, advance, dismiss, recover, respond}

-- A request that does not ask to be persisted left the state as it was.
pub respond-unpersisted :
    (s : PersistentAlarmState) (r : Request)
    → (respond s r).1.persist_before_effects ≡ false
    → (respond s r).0 ≡ s
unfolding respond evaluate_due admit request_snooze advance_active dismiss_active
    recover_after_reboot
respond-unpersisted s (due alarm wall monotonic valid) h = ground arith
respond-unpersisted s (snooze occurrence_id monotonic duration) h = ground arith
respond-unpersisted s (advance monotonic) h = ground arith
respond-unpersisted s (dismiss occurrence_id for_disable) h = ground arith
respond-unpersisted s (recover wall boot_id) h = ground arith

-- A request that starts or stops the alert asks to be persisted first, and never does both.
pub respond-alerts :
    (s : PersistentAlarmState) (r : Request)
    → ((respond s r).1.start_alert ≡ true) ⊎ ((respond s r).1.stop_alert ≡ true)
    → ((respond s r).1.persist_before_effects ≡ true)
      × ¬ (((respond s r).1.start_alert ≡ true) × ((respond s r).1.stop_alert ≡ true))
unfolding respond evaluate_due admit request_snooze advance_active dismiss_active
    recover_after_reboot
respond-alerts s (due alarm wall monotonic valid) h = ground arith
respond-alerts s (snooze occurrence_id monotonic duration) h = ground arith
respond-alerts s (advance monotonic) h = ground arith
respond-alerts s (dismiss occurrence_id for_disable) h = ground arith
respond-alerts s (recover wall boot_id) h = ground arith
