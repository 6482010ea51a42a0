-- ===== src/RuntimeCoordinator/Settle.antt =====
-- What a tick of runtime_coordinator.cpp does with the active occurrence before it goes on.
use dawn_dock.Common.{
  ◌≡◌, refl, ap, arith, pos, ◌-ℤ◌, -ℤ_parts, +ℤ_parts, eq_of_parts, leb_ℤ, int64_max, ◌⊎◌, inl, inr,
  ℤ, Bool, true, false, not, ◌||◌, [], some, Option-cases, Bool-cases, is_some, Bytes,
  bytes_eq_refl, all, if◌then◌else◌, ℕ,
}
use dawn_dock.AlarmEngine.{
  PersistentAlarmState, EvaluationResult, active_is, advance_active, recover_after_reboot,
  checked_elapsed, occurrence_lifetime_seconds,
}
use dawn_dock.ScheduleStore.Types.{ScheduleSnapshot, SlotStorage, LoadResult}
use dawn_dock.ScheduleStore.Load.{is_loaded}
use dawn_dock.ScheduleStore.Durable.{SlotLaws}
use dawn_dock.ScheduleStore.Accepted.{save_occurrence_state-accepted}
use dawn_dock.ScheduleStore.Commit.{is_accepted, save_occurrence_state}
use dawn_dock.CommittedEvaluator.{is_invalid_time}
use dawn_dock.CommittedEvaluator.Journal.{journal_of}
use dawn_dock.RuntimeCoordinator.{
  RuntimeTickObservation, RuntimeTickResult, RuntimeTickEffect, translate_anchor, settle_result,
  commit_settled, settle_active_occurrence, settle_loaded,
}

-- An effect starts the alert only for the occurrence that is active.
abbrev pub effect_held : PersistentAlarmState → RuntimeTickEffect → Bool
effect_held state effect = not effect.start_alert || active_is state.active effect.occurrence_id

abbrev pub is_silent : RuntimeTickEffect → Bool
is_silent effect = not effect.start_alert

-- The active occurrence has nothing to persist at that time.
abbrev pub IsIdle : PersistentAlarmState → ℤ → Type 0
IsIdle state monotonic =
    (is_some state.active ≡ true)
    × ((advance_active state monotonic).1.persist_before_effects ≡ false)

-- The state behind the settling, and its result.
abbrev pub settled_pair :
    PersistentAlarmState → RuntimeTickObservation → Bool → PersistentAlarmState × EvaluationResult
settled_pair state observation boot_pending =
    let (next, settled) = settle_result state observation boot_pending in
    (if boot_pending then translate_anchor next observation else next, settled)

settled-held :
    (state : PersistentAlarmState) (observation : RuntimeTickObservation) (boot_pending : Bool)
    → let (next, settled) = settled_pair state observation boot_pending in
      ((not settled.start_alert || active_is next.active settled.occurrence_id) ≡ true)
      × ((not settled.start_alert || settled.persist_before_effects) ≡ true)
unfolding settle_result translate_anchor advance_active recover_after_reboot
settled-held state observation boot_pending = elim (Option-cases state.active) [
  | inl e ↦ ground arith
  | inr (active, e) ↦ ground (arith, bytes_eq_refl active.occurrence_id)
]

sub_sub_ℤ : (a b : ℤ) → a -ℤ (a -ℤ b) ≡ b
sub_sub_ℤ a b = eq_of_parts _ _ (omega (arith, -ℤ_parts a b, -ℤ_parts a (a -ℤ b)))

-- Going back by an elapsed time that is in the hour and then forth again elapses it.
checked_elapsed_back :
    (wall start now elapsed : ℤ)
    → checked_elapsed wall start ≡ some elapsed
    → leb_ℤ occurrence_lifetime_seconds elapsed ≡ false
    → checked_elapsed now (now -ℤ (wall -ℤ start)) ≡ some elapsed
unfolding checked_elapsed
checked_elapsed_back wall start now elapsed h l =
    let e : wall -ℤ start ≡ elapsed = ground arith in
    let n : leb_ℤ (pos 0) elapsed ≡ true = ground (arith, -ℤ_parts wall start) in
    rw (e, sub_sub_ℤ) ground (arith, -ℤ_parts now elapsed, +ℤ_parts int64_max (now -ℤ elapsed))

-- A recovered ring is as far in its hour on the new clock as on the wall's.
settled-IsIdle :
    (state : PersistentAlarmState) (observation : RuntimeTickObservation)
    → let (next, settled) = settled_pair state observation true in
      settled.start_alert ≡ true → IsIdle next observation.monotonic_seconds
unfolding settle_result translate_anchor advance_active recover_after_reboot
settled-IsIdle state observation h = elim (Option-cases state.active) [
  | inl e ↦ ground arith
  | inr (active, e) ↦
      elim (Option-cases
        (checked_elapsed observation.wall_utc_seconds active.first_ring_utc_seconds)) [
          | inl f ↦ ground arith
          | inr (elapsed, f) ↦ ground (
            arith,
            checked_elapsed_back observation.wall_utc_seconds active.first_ring_utc_seconds
                observation.monotonic_seconds elapsed f,
          )
        ]
]

boot-IsIdle :
    (state : PersistentAlarmState) (observation : RuntimeTickObservation) (boot_pending : Bool)
    → let (next, settled) = settled_pair state observation boot_pending in
      boot_pending ≡ true → settled.start_alert ≡ true → IsIdle next observation.monotonic_seconds
boot-IsIdle state observation true b h = settled-IsIdle state observation h
boot-IsIdle state observation false b h = ground arith

module _ (storage : SlotStorage) (laws : SlotLaws storage) where
  open storage use {Device}

  commit_settled-held :
      (next : PersistentAlarmState) (alarm_id : Bytes) (settled : EvaluationResult)
      (revision generation : ℕ) (result : RuntimeTickResult) (d : Device)
      → result.effects ≡ []
      → (not settled.start_alert || active_is next.active settled.occurrence_id) ≡ true
      → (not settled.start_alert || settled.persist_before_effects) ≡ true
      → let answer = commit_settled storage next alarm_id settled revision generation result d in
        (all (effect_held (journal_of storage laws answer.0)) answer.1.0.effects ≡ true)
        × ((all is_silent answer.1.0.effects ≡ true)
            ⊎ ((settled.start_alert ≡ true) × (journal_of storage laws answer.0 ≡ next)))
  unfolding commit_settled
  commit_settled-held next alarm_id settled revision generation result d s h p =
      let stored = save_occurrence_state-accepted storage laws d next revision generation in
      let (written, committed) = save_occurrence_state storage next revision generation d in
      elim (Bool-cases settled.persist_before_effects) [
        | inr e ↦ rw (commit_settled, e, s) (ground arith, inl (ground arith))
        | inl e ↦ elim (Bool-cases (is_accepted committed.status)) [
          | inr a ↦ rw (commit_settled, e, a, s) (refl, inl refl)
          | inl a ↦
              let held : journal_of storage laws written ≡ next =
                ap (λ (x : ScheduleSnapshot). x.occurrence_state) (stored a).snapshot_is in
              elim (Bool-cases settled.start_alert) [
                | inr f ↦ rw (commit_settled, e, a, s, f) (refl, inl refl)
                | inl f ↦ rw (commit_settled, e, a, s) (ground (arith, held), inr (f, held))
              ]
        ]
      ]

  settle_active_occurrence-held :
      (state : PersistentAlarmState) (observation : RuntimeTickObservation) (boot_pending : Bool)
      (revision generation : ℕ) (result : RuntimeTickResult) (d : Device)
      → result.effects ≡ []
      → let answer =
          settle_active_occurrence storage state observation boot_pending revision generation result
            d in
        (all (effect_held (journal_of storage laws answer.0)) answer.1.0.effects ≡ true)
        × (boot_pending ≡ true
            → (all is_silent answer.1.0.effects ≡ true)
              ⊎ IsIdle (journal_of storage laws answer.0) observation.monotonic_seconds)
  unfolding settle_active_occurrence commit_settled
  settle_active_occurrence-held state observation boot_pending revision generation result d s =
      elim (Option-cases state.active) [
        | inl e ↦ rw (settle_active_occurrence, e, s) (refl, λ b. inl refl)
        | inr (active, e) ↦
            let (next, settled) = settled_pair state observation boot_pending in
            let (starts, asks) = settled-held state observation boot_pending in
            let (held, kept) =
              commit_settled-held next active.alarm_id settled revision generation result d s starts
                asks in
            elim (Bool-cases (is_invalid_time settled.status)) [
              | inl f ↦ rw (settle_active_occurrence, e, f, s) (refl, λ b. inl refl)
              | inr f ↦
                  rw (settle_active_occurrence, e, f)
                    (
                      held,
                      λ b. elim kept [
                        | inl silent ↦ inl silent
                        | inr (starting, same) ↦
                            inr (rw same (boot-IsIdle state observation boot_pending b starting))
                      ],
                    )
            ]
      ]

  -- The effects of a settling start the alert only for the occurrence active in the store behind it.
  -- After a boot that occurrence has nothing more to persist at that time.
  pub settle_loaded-held :
      (loaded : LoadResult) (observation : RuntimeTickObservation) (boot_pending : Bool)
      (result : RuntimeTickResult) (d : Device)
      → result.effects ≡ []
      → let answer = settle_loaded storage loaded observation boot_pending result d in
        (all (effect_held (journal_of storage laws answer.0)) answer.1.0.effects ≡ true)
        × (boot_pending ≡ true
            → (all is_silent answer.1.0.effects ≡ true)
              ⊎ IsIdle (journal_of storage laws answer.0) observation.monotonic_seconds)
  unfolding settle_loaded
  settle_loaded-held loaded observation boot_pending result d s =
      elim (Bool-cases (is_loaded loaded.status)) [
        | inr l ↦ rw (settle_loaded, l, s) (refl, λ b. inl refl)
        | inl l ↦
            rw (settle_loaded, l)
              (settle_active_occurrence-held loaded.snapshot.occurrence_state observation
                boot_pending loaded.snapshot.revision loaded.generation
                (record result {
                  schedule_revision = loaded.snapshot.revision;
                  generation = loaded.generation;
                })
                d s)
      ]
