-- ===== src/RuntimeCoordinator/Latch.antt =====
-- The latch of runtime_coordinator.cpp: what a tick does while an invalid interval is owed.
use dawn_dock.Common.{
  ◌≡◌, refl, arith, inl, inr, ℤ, and_both, Bool, true, false, not, ◌&&◌, ◌||◌, List, [], ◌∷◌, map,
  Option-cases, Bool-cases, all, all-append,
}
use dawn_dock.ScheduleStore.Types.{SlotStorage, LoadResult}
use dawn_dock.ScheduleStore.Load.{load, load_unlocked, is_loaded}
use dawn_dock.InvalidTimeRecovery.Settles.{is_complete, reconcile_after_time_valid-settled}
use dawn_dock.InvalidTimeRecovery.Batch.{is_answered}
use dawn_dock.ScheduleStore.Durable.{SlotLaws}
use dawn_dock.InvalidTimeRecovery.{
  InvalidTimeRecoveryStatus, RecoveredOccurrence, InvalidTimeRecoveryResult,
  reconcile_after_time_valid,
}
use dawn_dock.RuntimeCoordinator.{
  RuntimeTickObservation, RuntimeCoordinatorState, RuntimeTickResult, RuntimeTickEffect,
  RuntimeEffectStage, crossed_effect, apply_reconciliation_outcome, is_reconciled,
  reconciliation_clears_latch, default_tick, commit_settled, settle_effect,
  settle_active_occurrence, settle_loaded, reconcile_tick, run_runtime_tick, is_boot_pending,
}

-- The effect is not one of the evaluation of a due alarm.
abbrev pub is_deferred : RuntimeTickEffect → Bool
is_deferred effect = elim effect.stage [
  | RuntimeEffectStage.evaluation ↦ false
  | RuntimeEffectStage.active_lifecycle ↦ true
  | RuntimeEffectStage.reconciliation ↦ true
]

crossed_deferred :
    (recovery : InvalidTimeRecoveryResult) (crossed : List RecoveredOccurrence)
    → all is_deferred (map (crossed_effect recovery) crossed) ≡ true
unfolding crossed_effect
crossed_deferred recovery [] = refl
crossed_deferred recovery (first ∷ rest) = crossed_deferred recovery rest

outcome_deferred :
    (recovery : InvalidTimeRecoveryResult) (result : RuntimeTickResult)
    → all is_deferred result.effects ≡ true
    → all is_deferred (apply_reconciliation_outcome recovery result).effects ≡ true
unfolding apply_reconciliation_outcome
outcome_deferred recovery result h = elim (Bool-cases (is_reconciled recovery.status)) [
  | inl e ↦ rw (e, all-append) ground (arith, crossed_deferred recovery recovery.crossed)
  | inr e ↦ rw (e) h
]

clears-is_complete :
    (status : InvalidTimeRecoveryStatus) → reconciliation_clears_latch status ≡ is_complete status
clears-is_complete InvalidTimeRecoveryStatus.reconciled = refl
clears-is_complete InvalidTimeRecoveryStatus.nothing_crossed = refl
clears-is_complete status = refl

-- The store could be loaded before, and none of its alarms is owed an occurrence after.
abbrev pub all_answered : LoadResult → LoadResult → ℤ → Bool
all_answered before after wall =
    is_loaded before.status
    && all (is_answered before.snapshot.occurrence_state after.snapshot.occurrence_state wall)
        before.snapshot.alarms

module _ (storage : SlotStorage) where
  open storage use {Device}

  settled_deferred :
      (loaded : LoadResult) (observation : RuntimeTickObservation) (boot_pending : Bool)
      (result : RuntimeTickResult) (d : Device)
      → result.effects ≡ []
      → all is_deferred (settle_loaded storage loaded observation boot_pending result d).1.0.effects
        ≡ true
  unfolding settle_loaded settle_active_occurrence commit_settled settle_effect
  settled_deferred loaded observation boot_pending result d s =
      elim (Option-cases loaded.snapshot.occurrence_state.active) [
        | inl e ↦ ground arith
        | inr (active, e) ↦ ground arith
      ]

  -- The store behind the settling of a tick that begins with the latch armed.
  abbrev pub settled_device : RuntimeCoordinatorState → RuntimeTickObservation → Device → Device
  settled_device state observation d =
      (settle_loaded storage (load storage d).1 observation (is_boot_pending state observation)
        (record default_tick { reconciliation_attempted = true }) (load storage d).0).0

  reconciling :
      (state : RuntimeCoordinatorState) (observation : RuntimeTickObservation) (d : Device)
      → observation.time_valid ≡ true
      → state.reconciliation_pending ≡ true
      → run_runtime_tick storage state observation d ≡ reconcile_tick storage state observation d
  unfolding run_runtime_tick
  reconciling state observation d v p = ground arith

module _ (storage : SlotStorage) (laws : SlotLaws storage) where
  open storage use {Device}

  -- The latch is off only behind a reconciliation that answered for every alarm.
  abbrev latch_holds :
      RuntimeCoordinatorState
      → RuntimeTickObservation
      → Device
      → Device × (RuntimeCoordinatorState × RuntimeTickResult)
      → Bool
  latch_holds state observation d answer =
      answer.1.0.reconciliation_pending
      || (reconciliation_clears_latch answer.1.1.reconciliation_status
          && all_answered (load_unlocked storage (settled_device storage state observation d))
              (load_unlocked storage answer.0) observation.wall_utc_seconds)

  reconcile_tick_deferred :
      (state : RuntimeCoordinatorState) (observation : RuntimeTickObservation) (d : Device)
      → state.reconciliation_pending ≡ true
      → (all is_deferred (reconcile_tick storage state observation d).1.1.effects ≡ true)
        × (latch_holds state observation d (reconcile_tick storage state observation d) ≡ true)
  unfolding reconcile_tick apply_reconciliation_outcome
  reconcile_tick_deferred state observation d p =
      let (loaded_device, loaded) = load storage d in
      let boot_pending = is_boot_pending state observation in
      let first = record default_tick { reconciliation_attempted = true } in
      let (settled_at, (settled, goes_on)) =
        settle_loaded storage loaded observation boot_pending first loaded_device in
      let quiet =
        settled_deferred storage loaded observation boot_pending first loaded_device refl in
      let wall = observation.wall_utc_seconds in
      let monotonic = observation.monotonic_seconds in
      let (written, recovery) = reconcile_after_time_valid storage wall monotonic true settled_at in
      elim (Bool-cases goes_on) [
        | inr g ↦ rw (reconcile_tick, g) (quiet, ground arith)
        | inl g ↦ elim (Bool-cases (reconciliation_clears_latch recovery.status)) [
          | inr c ↦
              rw (reconcile_tick, g, c) (outcome_deferred recovery settled quiet, ground arith)
          | inl c ↦
              let (is_read, answered) =
                reconcile_after_time_valid-settled storage laws wall monotonic true settled_at
                  (rw (clears-is_complete) at c) in
              rw (reconcile_tick, g, c)
                (
                  outcome_deferred recovery settled quiet,
                  and_both (is_loaded (load_unlocked storage settled_at).status) _ is_read answered,
                )
        ]
      ]

  -- A tick at an invalid time, or one that begins with the latch armed, admits no due alarm: none of
  -- its effects is of the stage `evaluation`. It leaves the latch armed unless the time is valid, its
  -- reconciliation ended as `reconciled` or as `nothing_crossed`, the store behind its settling could
  -- be loaded, and none of the alarms there is owed an occurrence in the store behind the tick: each
  -- is not enabled, scheduled later than the wall time, terminal, at or below its watermark, or active.
  pub run_runtime_tick-defers :
      (state : RuntimeCoordinatorState) (observation : RuntimeTickObservation) (d : Device)
      → (not observation.time_valid || state.reconciliation_pending) ≡ true
      → let answer = run_runtime_tick storage state observation d in
        (all is_deferred answer.1.1.effects ≡ true)
        × ((answer.1.0.reconciliation_pending
              || (observation.time_valid
                  && (reconciliation_clears_latch answer.1.1.reconciliation_status
                      && all_answered
                          (load_unlocked storage (settled_device storage state observation d))
                          (load_unlocked storage answer.0)
                          observation.wall_utc_seconds)))
            ≡ true)
  unfolding run_runtime_tick
  run_runtime_tick-defers state observation d h = elim (Bool-cases observation.time_valid) [
    | inr v ↦ (ground arith, ground arith)
    | inl v ↦
        let p : state.reconciliation_pending ≡ true = ground arith in
        let owed = reconcile_tick_deferred state observation d p in
        rw (reconciling storage state observation d v p, v) owed
  ]
