-- ===== src/RuntimeCoordinator/Deadline.antt =====
-- The hour of an occurrence that a tick of runtime_coordinator.cpp recovers after a boot.
use dawn_dock.Common.{
  ◌≡◌, ◌↔◌, refl, ◌∙◌, arith, inl, inr, ℤ, pos, ◌+ℤ◌, ◌-ℤ◌, ◌≤ℤ◌, -ℤ_parts, +ℤ_parts, eq_of_parts,
  int64_max, ℕ, true, none, some, Option-cases, ap,
}
use dawn_dock.AlarmEngine.{
  ActiveOccurrence, PersistentAlarmState, EvaluationStatus, advance_active, recover_after_reboot,
  checked_elapsed, occurrence_lifetime_seconds, set_active,
}
use dawn_dock.RuntimeCoordinator.{RuntimeTickObservation, settle_result, translate_anchor}

elapsed_fits :
    (now start : ℤ)
    → start ≤ℤ now
    → now -ℤ start ≤ℤ int64_max
    → checked_elapsed now start ≡ some (now -ℤ start)
unfolding checked_elapsed
elapsed_fits now start h l = ground (arith, -ℤ_parts now start, +ℤ_parts int64_max start)

elapsed_order : (now start elapsed : ℤ) → checked_elapsed now start ≡ some elapsed → start ≤ℤ now
unfolding checked_elapsed
elapsed_order now start elapsed h = ground arith

module _ (wall start now : ℤ) (later : ℕ) where
  abbrev anchor : ℤ
  anchor = now -ℤ (wall -ℤ start)

  same_elapsed : (now +ℤ pos later) -ℤ anchor ≡ (wall +ℤ pos later) -ℤ start
  same_elapsed = eq_of_parts _ _ (
      omega (
        arith,
        -ℤ_parts wall start,
        -ℤ_parts (wall +ℤ pos later) start,
        +ℤ_parts wall (pos later),
        +ℤ_parts now (pos later),
        -ℤ_parts now (wall -ℤ start),
        -ℤ_parts (now +ℤ pos later) anchor,
      ))

  anchor_order : start ≤ℤ wall → anchor ≤ℤ now +ℤ pos later
  anchor_order h =
      omega (arith, -ℤ_parts wall start, -ℤ_parts now (wall -ℤ start), +ℤ_parts now (pos later))

  -- The new clock elapses from the anchor what the wall clock elapses from the first ring.
  anchor_elapsed :
      (elapsed : ℤ)
      → checked_elapsed wall start ≡ some elapsed
      → (wall +ℤ pos later) -ℤ start ≤ℤ int64_max
      → checked_elapsed (now +ℤ pos later) anchor ≡ some ((wall +ℤ pos later) -ℤ start)
  anchor_elapsed elapsed h l =
      elapsed_fits (now +ℤ pos later) anchor (anchor_order (elapsed_order wall start elapsed h))
        (rw same_elapsed l)
      ∙ ap some same_elapsed

abbrev resumed : ActiveOccurrence → RuntimeTickObservation → ActiveOccurrence
resumed active observation = record active {
  first_ring_monotonic_seconds =
      observation.monotonic_seconds
      -ℤ (observation.wall_utc_seconds -ℤ active.first_ring_utc_seconds);
  snooze_deadline_monotonic_seconds = none;
  recovered_after_reboot = true;
  last_recovery_boot_id = observation.boot_id;
}

recovered-resumed :
    (state : PersistentAlarmState) (active : ActiveOccurrence)
    (observation : RuntimeTickObservation)
    → state.active ≡ some active
    → (settle_result state observation true).1.start_alert ≡ true
    → (translate_anchor (settle_result state observation true).0 observation
        ≡ set_active state (some (resumed active observation)))
      × ((elapsed : ℤ) × (checked_elapsed observation.wall_utc_seconds active.first_ring_utc_seconds
            ≡ some elapsed))
unfolding settle_result translate_anchor recover_after_reboot
recovered-resumed state active observation e h =
    elim (Option-cases
      (checked_elapsed observation.wall_utc_seconds active.first_ring_utc_seconds)) [
        | inl f ↦ ground arith
        | inr (elapsed, f) ↦ (ground arith, (elapsed, f))
      ]

ringing-deadline :
    (state : PersistentAlarmState) (active : ActiveOccurrence) (now elapsed : ℤ)
    → active.snooze_deadline_monotonic_seconds ≡ none
    → checked_elapsed now active.first_ring_monotonic_seconds ≡ some elapsed
    → ((advance_active (set_active state (some active)) now).1.status ≡ EvaluationStatus.timed_out)
      ↔ (occurrence_lifetime_seconds ≤ℤ elapsed)
unfolding advance_active
ringing-deadline state active now elapsed n e = ground arith

-- After a recovery that resumes the ring, the occurrence is timed out on the monotonic clock of the
-- new boot exactly when its hour since the first ring is over on the wall clock: `later` seconds
-- after the recovery, as long as that span fits a `std::int64_t`.
pub recovered-deadline :
    (state : PersistentAlarmState) (active : ActiveOccurrence)
    (observation : RuntimeTickObservation) (later : ℕ)
    → state.active ≡ some active
    → (settle_result state observation true).1.start_alert ≡ true
    → (observation.wall_utc_seconds +ℤ pos later) -ℤ active.first_ring_utc_seconds ≤ℤ int64_max
    → ((advance_active
          (translate_anchor (settle_result state observation true).0 observation)
          (observation.monotonic_seconds +ℤ pos later)).1.status
        ≡ EvaluationStatus.timed_out)
      ↔ (occurrence_lifetime_seconds
          ≤ℤ (observation.wall_utc_seconds +ℤ pos later) -ℤ active.first_ring_utc_seconds)
recovered-deadline state active observation later e h l =
    let wall = observation.wall_utc_seconds in
    let start = active.first_ring_utc_seconds in
    let (same, (elapsed, f)) = recovered-resumed state active observation e h in
    rw same (
      ringing-deadline state (resumed active observation)
        (observation.monotonic_seconds +ℤ pos later) ((wall +ℤ pos later) -ℤ start) refl
        (anchor_elapsed wall start observation.monotonic_seconds later elapsed f l))
