-- ===== src/RuntimeCoordinator/Alert.antt =====
-- Which alert a tick of runtime_coordinator.cpp starts, over its settling, its reconciliation and its
-- evaluation.
use dawn_dock.Common.{
  ◌≡◌, refl, arith, ◌⊎◌, inl, inr, true, List, [], ◌∷◌, map, none, Bool-cases, bytes_eq,
  bytes_eq_iff, all, all-append, all_mono,
}
use dawn_dock.AlarmEngine.{PersistentAlarmState}
use dawn_dock.ScheduleStore.Types.{SlotStorage}
use dawn_dock.ScheduleStore.Load.{load, load_unlocked}
use dawn_dock.ScheduleStore.Durable.{SlotLaws}
use dawn_dock.CommittedEvaluator.{CommittedAlarmEvaluation, evaluate_committed_schedule}
use dawn_dock.CommittedEvaluator.Journal.{journal_of, starts_held}
use dawn_dock.CommittedEvaluator.Alert.{
  evaluate_committed_schedule-held, evaluate_committed_schedule_idle,
}
use dawn_dock.InvalidTimeRecovery.{
  RecoveredOccurrence, InvalidTimeRecoveryResult, reconcile_after_time_valid,
}
use dawn_dock.InvalidTimeRecovery.Ring.{rings_held, reconcile_after_time_valid-held}
use dawn_dock.RuntimeCoordinator.{
  RuntimeTickObservation, RuntimeCoordinatorState, RuntimeTickResult, RuntimeTickEffect,
  crossed_effect, apply_reconciliation_outcome, evaluation_effect, is_reconciled, default_tick,
  settle_loaded, reconcile_tick, evaluate_tick, boot_tick, run_runtime_tick, is_boot_pending,
}
use dawn_dock.RuntimeCoordinator.Settle.{effect_held, is_silent, IsIdle, settle_loaded-held}

silent-held :
    (state : PersistentAlarmState) (effects : List RuntimeTickEffect)
    → all is_silent effects ≡ true
    → all (effect_held state) effects ≡ true
silent-held state effects = all_mono is_silent (effect_held state) (λ x h. ground arith) effects

held_silent :
    (state : PersistentAlarmState) (effects : List RuntimeTickEffect)
    → state.active ≡ none
    → all (effect_held state) effects ≡ true
    → all is_silent effects ≡ true
held_silent state effects e = all_mono (effect_held state) is_silent (λ x h. ground arith) effects

evaluations-held :
    (state : PersistentAlarmState) (entries : List CommittedAlarmEvaluation)
    → all (starts_held state) entries ≡ true
    → all (effect_held state) (map evaluation_effect entries) ≡ true
unfolding evaluation_effect
evaluations-held state [] h = refl
evaluations-held state (entry ∷ rest) h = ground (arith, evaluations-held state rest)

-- A crossed occurrence starts the alert only if it is the ringing one.
crossed-held :
    (state : PersistentAlarmState) (recovery : InvalidTimeRecoveryResult)
    (crossed : RecoveredOccurrence)
    → rings_held state recovery ≡ true
    → effect_held state (crossed_effect recovery crossed) ≡ true
unfolding crossed_effect
crossed-held state recovery crossed h =
    elim (Bool-cases (bytes_eq crossed.occurrence_id recovery.ringing_occurrence_id)) [
      | inl e ↦
          rw (e, (bytes_eq_iff crossed.occurrence_id recovery.ringing_occurrence_id).0 e) ground
            arith
      | inr e ↦ ground arith
    ]

all_crossed-held :
    (state : PersistentAlarmState) (recovery : InvalidTimeRecoveryResult)
    (crossed : List RecoveredOccurrence)
    → rings_held state recovery ≡ true
    → all (effect_held state) (map (crossed_effect recovery) crossed) ≡ true
all_crossed-held state recovery [] h = refl
all_crossed-held state recovery (first ∷ rest) h =
    ground (arith, crossed-held state recovery first h, all_crossed-held state recovery rest h)

outcome-held :
    (state : PersistentAlarmState) (recovery : InvalidTimeRecoveryResult)
    (result : RuntimeTickResult)
    → rings_held state recovery ≡ true
    → all (effect_held state) result.effects ≡ true
    → all (effect_held state) (apply_reconciliation_outcome recovery result).effects ≡ true
unfolding apply_reconciliation_outcome
outcome-held state recovery result h k = elim (Bool-cases (is_reconciled recovery.status)) [
  | inl e ↦ rw (e, all-append) ground (arith, all_crossed-held state recovery recovery.crossed h)
  | inr e ↦ rw (e) k
]

module _ (storage : SlotStorage) (laws : SlotLaws storage) where
  open storage use {Device}

  -- What the tick that ends in this answer has started.
  abbrev AnswerHeld : Device × (RuntimeCoordinatorState × RuntimeTickResult) → Type 0
  AnswerHeld answer = all (effect_held (journal_of storage laws answer.0)) answer.1.1.effects ≡ true

  reconcile_tick-held :
      (state : RuntimeCoordinatorState) (observation : RuntimeTickObservation) (d : Device)
      → AnswerHeld (reconcile_tick storage state observation d)
  unfolding reconcile_tick
  reconcile_tick-held state observation d =
      let (loaded_device, loaded) = load storage d in
      let boot_pending = is_boot_pending state observation in
      let first = record default_tick { reconciliation_attempted = true } in
      let (settled_device, (settled, goes_on)) =
        settle_loaded storage loaded observation boot_pending first loaded_device in
      let (held, quiet) =
        settle_loaded-held storage laws loaded observation boot_pending first loaded_device refl in
      let wall = observation.wall_utc_seconds in
      let monotonic = observation.monotonic_seconds in
      let (written, recovery) =
        reconcile_after_time_valid storage wall monotonic true settled_device in
      let (rings, kept) =
        reconcile_after_time_valid-held storage laws wall monotonic true settled_device in
      elim (Bool-cases goes_on) [
        | inr g ↦ rw (reconcile_tick, g) held
        | inl g ↦
            rw (reconcile_tick, g)
              (outcome-held (journal_of storage laws written) recovery settled rings (elim kept [
                | inl same ↦ rw same held
                | inr idle ↦
                    silent-held (journal_of storage laws written) settled.effects (
                      held_silent (journal_of storage laws settled_device) settled.effects idle
                        held)
              ]))
      ]

  evaluate_tick-held :
      (state : RuntimeCoordinatorState) (observation : RuntimeTickObservation)
      (result : RuntimeTickResult) (d : Device)
      → all (effect_held (journal_of storage laws d)) result.effects ≡ true
      → (all is_silent result.effects ≡ true)
        ⊎ IsIdle (journal_of storage laws d) observation.monotonic_seconds
      → AnswerHeld (evaluate_tick storage state observation result d)
  unfolding evaluate_tick
  evaluate_tick-held state observation result d h q =
      let wall = observation.wall_utc_seconds in
      let monotonic = observation.monotonic_seconds in
      let (written, outcome) = evaluate_committed_schedule storage wall monotonic true [] d in
      let later =
        evaluations-held (journal_of storage laws written) outcome.alarms
          (evaluate_committed_schedule-held storage laws wall monotonic true [] d) in
      let earlier : all (effect_held (journal_of storage laws written)) result.effects ≡ true =
        elim q [
          | inl silent ↦ silent-held (journal_of storage laws written) result.effects silent
          | inr (active, idle) ↦
              rw (evaluate_committed_schedule_idle storage laws wall monotonic d active idle) h
        ] in
      rw (evaluate_tick, all-append) ground (arith, earlier, later)

  boot_tick-held :
      (state : RuntimeCoordinatorState) (observation : RuntimeTickObservation) (d : Device)
      → AnswerHeld (boot_tick storage state observation d)
  unfolding boot_tick
  boot_tick-held state observation d =
      let (loaded_device, loaded) = load storage d in
      let (settled_device, (settled, goes_on)) =
        settle_loaded storage loaded observation true default_tick loaded_device in
      let (held, quiet) =
        settle_loaded-held storage laws loaded observation true default_tick loaded_device refl in
      elim (Bool-cases goes_on) [
        | inr g ↦ rw (boot_tick, g) held
        | inl g ↦
            rw (boot_tick, g)
              (evaluate_tick-held (record state { last_handled_boot_id = observation.boot_id })
                observation settled settled_device held (quiet refl))
      ]

  -- On every tick, each effect that starts the alert names the occurrence that is active in the store
  -- behind the tick, as the next load would read it. So a tick starts at most one occurrence, and only
  -- one whose start is committed.
  pub run_runtime_tick-held :
      (state : RuntimeCoordinatorState) (observation : RuntimeTickObservation) (d : Device)
      → let answer = run_runtime_tick storage state observation d in
        all
          (effect_held (load_unlocked storage answer.0).snapshot.occurrence_state)
          answer.1.1.effects
        ≡ true
  unfolding run_runtime_tick
  run_runtime_tick-held state observation d = ground (
    arith,
    reconcile_tick-held state observation d,
    boot_tick-held state observation d,
    evaluate_tick-held state observation default_tick d refl (inl refl),
  )
