-- ===== src/AlarmEngine/Refines.antt =====
-- Every call of the engine is a step of the abstract system of `Steps`.
use dawn_dock.Common.{
  ◌+◌, ◌≡◌, inl, inr, arith, ℤ, ◌+ℤ◌, ◌-ℤ◌, ltb_ℤ, ◌≤ℤ◌, Bool, true, false, none, some,
  if◌then◌else◌, Bytes, bytes_eq_iff, Option-cases,
}
use dawn_dock.AlarmEngine.{
  AlarmDefinition, PersistentAlarmState, TerminalReason, minimum_snooze_seconds, checked_add,
  finish_active, evaluate_due, admit, request_snooze, advance_active, dismiss_active,
  recover_after_reboot, journal_terminal, begin_recovered_ring, make_occurrence_id,
}
use dawn_dock.AlarmEngine.Calls.{
  due, snooze, advance, dismiss, recover, Call, asks, journals, rings, after,
}
use dawn_dock.AlarmEngine.Steps.{Step, stay, start, miss, continue, end, Allowed}

pub evaluate_due-Step :
    (s : PersistentAlarmState) (alarm : AlarmDefinition) (wall monotonic : ℤ) (valid : Bool)
    → Step s (evaluate_due alarm s wall monotonic valid).0
unfolding evaluate_due admit
evaluate_due-Step s alarm wall monotonic valid = ground (
  arith,
  stay s u,
  start s u alarm.id o alarm.scheduled_utc_seconds wall monotonic,
  miss s u alarm.id o alarm.scheduled_utc_seconds TerminalReason.forward_jump,
)
  where
    o : Bytes
    o = make_occurrence_id alarm

    u : PersistentAlarmState
    u = (evaluate_due alarm s wall monotonic valid).0

pub advance_active-Step :
    (s : PersistentAlarmState) (monotonic : ℤ) → Step s (advance_active s monotonic).0
unfolding advance_active
advance_active-Step s monotonic = elim (Option-cases s.active) [
  | inl e ↦ stay s _ (ground arith)
  | inr (a, e) ↦ ground (
    arith,
    stay s (advance_active s monotonic).0,
    end s (advance_active s monotonic).0 a TerminalReason.timed_out,
    continue s (advance_active s monotonic).0 a
        (record a { snooze_deadline_monotonic_seconds = none }),
  )
]

pub dismiss_active-Step :
    (s : PersistentAlarmState) (o : Bytes) (for_disable : Bool)
    → Step s (dismiss_active s o for_disable).0
unfolding dismiss_active finish_active
dismiss_active-Step s o for_disable = elim (Option-cases s.active) [
  | inl e ↦ stay s _ (ground arith)
  | inr (a, e) ↦ ground (
    arith,
    bytes_eq_iff a.occurrence_id o,
    stay s (dismiss_active s o for_disable).0,
    end s (dismiss_active s o for_disable).0 a
        (if for_disable then TerminalReason.alarm_disabled else TerminalReason.dismissed),
  )
]

pub recover_after_reboot-Step :
    (s : PersistentAlarmState) (wall : ℤ) (boot_id : Bytes)
    → Step s (recover_after_reboot s wall boot_id).0
unfolding recover_after_reboot
recover_after_reboot-Step s wall boot_id = elim (Option-cases s.active) [
  | inl e ↦ stay s _ (ground arith)
  | inr (a, e) ↦ ground (
    arith,
    stay s (recover_after_reboot s wall boot_id).0,
    end s (recover_after_reboot s wall boot_id).0 a TerminalReason.prolonged_power_off,
    continue s (recover_after_reboot s wall boot_id).0 a (record a {
      snooze_deadline_monotonic_seconds = none;
      recovered_after_reboot = true;
      last_recovery_boot_id = boot_id;
    }),
  )
]

-- A deadline that `checked_add` returns for an allowed snooze does not precede the first ring.
deadline_after :
    (first monotonic duration d : ℤ)
    → checked_add monotonic duration ≡ some d
    → ltb_ℤ duration minimum_snooze_seconds ≡ false
    → ltb_ℤ monotonic first ≡ false
    → first ≤ℤ d
unfolding checked_add ◌+ℤ◌ ◌-ℤ◌
deadline_after first monotonic duration d h short back = ground arith

pub request_snooze-Step :
    (s : PersistentAlarmState) (o : Bytes) (monotonic duration : ℤ)
    → Step s (request_snooze s o monotonic duration).0
unfolding request_snooze
request_snooze-Step s o monotonic duration = elim (Option-cases s.active) [
  | inl e ↦ stay s _ (ground arith)
  | inr (a, e) ↦ elim (Option-cases (checked_add monotonic duration)) [
    | inl overflow ↦ ground (arith, stay s (request_snooze s o monotonic duration).0)
    | inr (d, sum) ↦ ground (
      arith,
      stay s (request_snooze s o monotonic duration).0,
      deadline_after a.first_ring_monotonic_seconds monotonic duration d sum,
      continue s (request_snooze s o monotonic duration).0 a (record a {
        snooze_count = a.snooze_count + 1;
        snooze_deadline_monotonic_seconds = some d;
      }),
    )
  ]
]

-- Every call of the engine is one of the five steps.
pub after-Step : (s : PersistentAlarmState) (c : Call) → Allowed s c → Step s (after s c)
unfolding after journal_terminal begin_recovered_ring
after-Step s (asks (due alarm wall monotonic valid)) h =
    evaluate_due-Step s alarm wall monotonic valid
after-Step s (asks (snooze o monotonic duration)) h = request_snooze-Step s o monotonic duration
after-Step s (asks (advance monotonic)) h = advance_active-Step s monotonic
after-Step s (asks (dismiss o for_disable)) h = dismiss_active-Step s o for_disable
after-Step s (asks (recover wall boot_id)) h = recover_after_reboot-Step s wall boot_id
after-Step s (journals alarm_id o t reason) h = ground (
  arith,
  stay s (after s (journals alarm_id o t reason)),
  miss s (after s (journals alarm_id o t reason)) alarm_id o t reason,
)
after-Step s (rings alarm_id o t wall monotonic) h = ground (
  arith,
  stay s (after s (rings alarm_id o t wall monotonic)),
  start s (after s (rings alarm_id o t wall monotonic)) alarm_id o t wall monotonic,
)
