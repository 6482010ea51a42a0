-- ===== src/AlarmEngine/Lifetime.antt =====
-- The life of a ringing occurrence: its snoozes, its hour, and its recovery after a reboot.
use dawn_dock.Common.{
  ◌<◌, ◌≡◌, refl, arith, ℤ, ◌-ℤ◌, ◌+ℤ◌, ◌≤ℤ◌, ◌<ℤ◌, IsInt64, true, none, some, Option-cases, Bytes,
  bytes_eq_refl, inl, inr,
}
use dawn_dock.AlarmEngine.{
  ActiveOccurrence, PersistentAlarmState, EvaluationStatus, EvaluationResult, TerminalReason,
  set_active, advance_active, recover_after_reboot, occurrence_lifetime_seconds,
  minimum_snooze_seconds, maximum_snooze_seconds, maximum_snoozes, finish_active,
}
use dawn_dock.AlarmEngine.Checked.{checked_elapsed-exact}
use dawn_dock.AlarmEngine.Once.{Refuses}

-- What a snooze asks for.
pub record MaySnooze (a : ActiveOccurrence) (o : Bytes) (monotonic duration : ℤ) : Type 0 where
  pub named : a.occurrence_id ≡ o
  pub ringing : a.snooze_deadline_monotonic_seconds ≡ none
  pub at_least : minimum_snooze_seconds ≤ℤ duration
  pub at_most : duration ≤ℤ maximum_snooze_seconds
  pub remaining : a.snooze_count < maximum_snoozes
  pub forward : a.first_ring_monotonic_seconds ≤ℤ monotonic
  pub fits : IsInt64 (monotonic +ℤ duration)

-- What advancing the active occurrence `a` of `s` to `monotonic` may come to.
pub data Advances
    : PersistentAlarmState
      → ActiveOccurrence
      → ℤ
      → PersistentAlarmState × EvaluationResult
      → Type 0 where
  -- Past its hour it ends as timed out, and the alert stops.
  expires :
      (s : PersistentAlarmState) (a : ActiveOccurrence) (monotonic : ℤ)
      (r : PersistentAlarmState × EvaluationResult)
      → occurrence_lifetime_seconds ≤ℤ monotonic -ℤ a.first_ring_monotonic_seconds
      → r.0 ≡ finish_active s a TerminalReason.timed_out
      → r.1.status ≡ EvaluationStatus.timed_out
      → r.1.stop_alert ≡ true
      → Advances s a monotonic r
  -- Within its hour, at a snooze deadline that is reached, the alert starts again and the deadline
  -- is cleared.
  rings_again :
      (s : PersistentAlarmState) (a : ActiveOccurrence) (monotonic : ℤ)
      (r : PersistentAlarmState × EvaluationResult) (d : ℤ)
      → monotonic -ℤ a.first_ring_monotonic_seconds <ℤ occurrence_lifetime_seconds
      → a.snooze_deadline_monotonic_seconds ≡ some d
      → d ≤ℤ monotonic
      → r.0 ≡ set_active s (some (record a { snooze_deadline_monotonic_seconds = none }))
      → r.1.start_alert ≡ true
      → Advances s a monotonic r
  -- Within its hour and before its deadline it stays snoozed.
  stays_snoozed :
      (s : PersistentAlarmState) (a : ActiveOccurrence) (monotonic : ℤ)
      (r : PersistentAlarmState × EvaluationResult) (d : ℤ)
      → monotonic -ℤ a.first_ring_monotonic_seconds <ℤ occurrence_lifetime_seconds
      → a.snooze_deadline_monotonic_seconds ≡ some d
      → monotonic <ℤ d
      → Refuses s r
      → r.1.status ≡ EvaluationStatus.snoozed
      → Advances s a monotonic r
  -- Within its hour, not snoozed, it goes on ringing.
  stays_ringing :
      (s : PersistentAlarmState) (a : ActiveOccurrence) (monotonic : ℤ)
      (r : PersistentAlarmState × EvaluationResult)
      → monotonic -ℤ a.first_ring_monotonic_seconds <ℤ occurrence_lifetime_seconds
      → a.snooze_deadline_monotonic_seconds ≡ none
      → Refuses s r
      → r.1.status ≡ EvaluationStatus.ringing
      → Advances s a monotonic r

-- With a clock that has not gone back behind the first ring, advancing comes to one of these.
pub advance_active-Advances :
    (s : PersistentAlarmState) (a : ActiveOccurrence) (monotonic : ℤ)
    → s.active ≡ some a
    → IsInt64 monotonic
    → IsInt64 a.first_ring_monotonic_seconds
    → a.first_ring_monotonic_seconds ≤ℤ monotonic
    → IsInt64 (monotonic -ℤ a.first_ring_monotonic_seconds)
    → Advances s a monotonic (advance_active s monotonic)
unfolding advance_active
advance_active-Advances s a monotonic active now_fits first_fits forward fits =
    let r : PersistentAlarmState × EvaluationResult = advance_active s monotonic in
    let exact =
      (checked_elapsed-exact monotonic a.first_ring_monotonic_seconds
          (monotonic -ℤ a.first_ring_monotonic_seconds) now_fits first_fits).1
        (refl, forward, fits) in
    elim (Option-cases a.snooze_deadline_monotonic_seconds) [
      | inl e ↦ ground (arith, exact, expires s a monotonic r, stays_ringing s a monotonic r)
      | inr (d, e) ↦ ground (
        arith,
        exact,
        expires s a monotonic r,
        rings_again s a monotonic r d,
        stays_snoozed s a monotonic r d,
      )
    ]

-- A recovery that was granted or that ended the occurrence is not repeated in the same boot: the
-- next one changes nothing, starts no alert and asks for no write.
pub recover_after_reboot-once :
    (s : PersistentAlarmState) (wall wall' : ℤ) (boot_id : Bytes)
    → (recover_after_reboot s wall boot_id).1.persist_before_effects ≡ true
    → Refuses
        (recover_after_reboot s wall boot_id).0
        (recover_after_reboot (recover_after_reboot s wall boot_id).0 wall' boot_id)
unfolding recover_after_reboot finish_active
recover_after_reboot-once s wall wall' boot_id h = ground (arith, bytes_eq_refl boot_id)
