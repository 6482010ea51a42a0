-- ===== src/CommittedAlarmDisable/Disabled.antt =====
-- What stands in the store behind a disable of committed_alarm_disable.cpp that reports the alarm
-- disabled.
use dawn_dock.Common.{
  ℕ, ◌≡◌, refl, sym, ap, ◌∙◌, arith, inl, inr, Bool, true, false, not, List, [], ◌∷◌, map, Option,
  none, some, Option-cases, Bool-cases, Bytes, bytes_eq, bytes_eq_iff, ◌==◌,
}
use dawn_dock.AlarmEngine.{PersistentAlarmState, dismiss_active}
use dawn_dock.ScheduleStore.Types.{ScheduleSnapshot, SlotStorage, LoadResult, StoredAlarmDefinition}
use dawn_dock.ScheduleStore.Load.{load, load_unlocked, is_loaded}
use dawn_dock.ScheduleStore.Durable.{SlotLaws, IsCurrent}
use dawn_dock.ScheduleStore.Accepted.{
  save_occurrence_state-accepted, save-accepted, load-reads, load-loaded,
}
use dawn_dock.ScheduleStore.Commit.{is_accepted, save_occurrence_state, save}
use dawn_dock.CommittedAlarmDisable.{
  CommittedDisableStatus, CommittedAlarmDisableResult, find_alarm, disable_alarm, disabled_snapshot,
  has_matching_active, active_occurrence_id, commit_dismiss, dismiss_phase, default_disable,
  definition_phase, disable_loaded, disable_committed_alarm,
}

-- The status says that the alarm is off.
abbrev pub is_off : CommittedDisableStatus → Bool
is_off CommittedDisableStatus.disabled = true
is_off CommittedDisableStatus.already_disabled = true
is_off status = false

-- The alarm is found, and not enabled.
abbrev pub is_found_disabled : Option StoredAlarmDefinition → Bool
is_found_disabled none = false
is_found_disabled (some alarm) = not alarm.enabled

find-disable_alarm :
    (alarm_id : Bytes) (alarms : List StoredAlarmDefinition) (target : StoredAlarmDefinition)
    → find_alarm alarm_id alarms ≡ some target
    → is_found_disabled (find_alarm alarm_id (map (disable_alarm alarm_id) alarms)) ≡ true
find-disable_alarm alarm_id [] target h = ground arith
find-disable_alarm alarm_id (first ∷ rest) target h =
    ground (arith, find-disable_alarm alarm_id rest target)

find-disable_other :
    (alarm_id other : Bytes) (alarms : List StoredAlarmDefinition)
    → bytes_eq other alarm_id ≡ false
    → find_alarm other (map (disable_alarm alarm_id) alarms) ≡ find_alarm other alarms
find-disable_other alarm_id other [] h = refl
find-disable_other alarm_id other (first ∷ rest) h =
    elim (Bool-cases (bytes_eq first.id alarm_id)) [
      | inl e ↦
          let n : bytes_eq first.id other ≡ false = elim (Bool-cases (bytes_eq first.id other)) [
            | inl f ↦
                let same =
                  sym ((bytes_eq_iff first.id other).0 f) ∙ (bytes_eq_iff first.id alarm_id).0 e in
                ground (arith, (bytes_eq_iff other alarm_id).1 same)
            | inr f ↦ f
          ] in
          ground (arith, find-disable_other alarm_id other rest h)
      | inr e ↦ ground (arith, find-disable_other alarm_id other rest h)
    ]

dismiss_clears :
    (state : PersistentAlarmState) (occurrence_id : Bytes)
    → (dismiss_active state occurrence_id true).1.persist_before_effects ≡ true
    → (dismiss_active state occurrence_id true).0.active ≡ none
unfolding dismiss_active
dismiss_clears state occurrence_id h = ground arith

-- What stands in the store between the phases.
record IsDismissed (alarm_id : Bytes) (before : ScheduleSnapshot) (now : LoadResult) : Type 0 where
  loads : is_loaded now.status ≡ true
  alarms : now.snapshot.alarms ≡ before.alarms
  idle : has_matching_active alarm_id now.snapshot.occurrence_state.active ≡ false

-- What stands in the store at the end.
record IsOff (alarm_id other : Bytes) (before after : ScheduleSnapshot) : Type 0 where
  disabled : is_found_disabled (find_alarm alarm_id after.alarms) ≡ true
  idle : has_matching_active alarm_id after.occurrence_state.active ≡ false
  others : find_alarm other after.alarms ≡ find_alarm other before.alarms

module _ (storage : SlotStorage) (laws : SlotLaws storage) (alarm_id : Bytes) where
  open storage use {Device}

  IsDismissed-current :
      (loaded : LoadResult) (state : PersistentAlarmState) (d : Device) (generation : ℕ)
      → load_unlocked storage d ≡ loaded
      → is_loaded loaded.status ≡ true
      → state.active ≡ none
      → (after : Device)
      → IsCurrent storage after
          (record ((load_unlocked storage d).snapshot) { occurrence_state = state })
          generation
      → IsDismissed alarm_id loaded.snapshot (load_unlocked storage after)
  IsDismissed-current loaded state d generation e l n after c = record {
    loads = rw c.is_loaded;
    alarms = rw (c.snapshot_is, e);
    idle = rw (c.snapshot_is, n);
  }

  commit_dismiss-IsDismissed :
      (loaded : LoadResult) (result : CommittedAlarmDisableResult) (d : Device)
      → load_unlocked storage d ≡ loaded
      → is_loaded loaded.status ≡ true
      → (commit_dismiss storage loaded result d).1.1 ≡ true
      → IsDismissed alarm_id loaded.snapshot
          (load_unlocked storage (commit_dismiss storage loaded result d).0)
  unfolding commit_dismiss
  commit_dismiss-IsDismissed loaded result d e l h =
      let occurrence_id = active_occurrence_id loaded.snapshot.occurrence_state.active in
      let (state, dismissed) = dismiss_active loaded.snapshot.occurrence_state occurrence_id true in
      let (written, committed) =
        save_occurrence_state storage state loaded.snapshot.revision loaded.generation d in
      elim (Bool-cases dismissed.persist_before_effects) [
        | inr p ↦ ground arith
        | inl p ↦ elim (Bool-cases dismissed.stop_alert) [
          | inr s ↦ ground arith
          | inl s ↦ elim (Bool-cases (is_accepted committed.status)) [
            | inr a ↦ ground arith
            | inl a ↦
                rw (commit_dismiss, p, s, a)
                  (IsDismissed-current loaded state d committed.generation e l
                    (dismiss_clears loaded.snapshot.occurrence_state occurrence_id p) written
                    (save_occurrence_state-accepted storage laws d state loaded.snapshot.revision
                      loaded.generation a))
          ]
        ]
      ]

  dismiss_phase-IsDismissed :
      (loaded : LoadResult) (result : CommittedAlarmDisableResult) (d : Device)
      → load_unlocked storage d ≡ loaded
      → is_loaded loaded.status ≡ true
      → (dismiss_phase storage alarm_id loaded result d).1.1 ≡ true
      → IsDismissed alarm_id loaded.snapshot
          (load_unlocked storage (dismiss_phase storage alarm_id loaded result d).0)
  unfolding dismiss_phase
  dismiss_phase-IsDismissed loaded result d e l h =
      elim (Bool-cases (has_matching_active alarm_id loaded.snapshot.occurrence_state.active)) [
        | inl m ↦
            rw (dismiss_phase, m)
              (commit_dismiss-IsDismissed loaded result d e l (unfold dismiss_phase in rw (m) at h))
        | inr m ↦ rw (dismiss_phase, m, e) (record { loads = l; alarms = refl; idle = m })
      ]

  dismiss_stopped :
      (loaded : LoadResult) (result : CommittedAlarmDisableResult) (d : Device)
      → (dismiss_phase storage alarm_id loaded result d).1.1 ≡ false
      → is_off (dismiss_phase storage alarm_id loaded result d).1.0.status ≡ false
  unfolding dismiss_phase commit_dismiss
  dismiss_stopped loaded result d h = ground arith

  definition_phase-IsOff :
      (other : Bytes) (loaded : LoadResult) (target : StoredAlarmDefinition)
      (result : CommittedAlarmDisableResult) (d : Device)
      → bytes_eq other alarm_id ≡ false
      → find_alarm alarm_id loaded.snapshot.alarms ≡ some target
      → IsDismissed alarm_id loaded.snapshot (load_unlocked storage d)
      → let answer = definition_phase storage alarm_id loaded target result d in
        is_off answer.1.status ≡ true
        → IsOff alarm_id other loaded.snapshot (load_unlocked storage answer.0).snapshot
  unfolding definition_phase
  definition_phase-IsOff other loaded target result d n f c h =
      let snapshot = disabled_snapshot alarm_id loaded.snapshot in
      let (written, committed) = save storage snapshot loaded.snapshot.revision d in
      elim (Bool-cases target.enabled) [
        | inr t ↦
            rw (definition_phase, t)
              (record {
                disabled = rw (c.alarms, f) (ground arith);
                idle = c.idle;
                others = ap (find_alarm other) c.alarms;
              })
        | inl t ↦ elim (Bool-cases (snapshot.revision == 0)) [
          | inl z ↦ ground arith
          | inr z ↦ elim (Bool-cases (is_accepted committed.status)) [
            | inr a ↦ ground arith
            | inl a ↦
                let stored = save-accepted storage laws d snapshot loaded.snapshot.revision a in
                let same : (load_unlocked storage written).snapshot ≡ record snapshot {
                  occurrence_state = (load_unlocked storage d).snapshot.occurrence_state;
                } =
                  stored.snapshot_is ∙ rw c.loads refl in
                rw (definition_phase, t, z, a)
                  (record {
                    disabled =
                        rw same (find-disable_alarm alarm_id loaded.snapshot.alarms target f);
                    idle = rw same c.idle;
                    others = rw same (find-disable_other alarm_id other loaded.snapshot.alarms n);
                  })
          ]
        ]
      ]

  disable_loaded-IsOff :
      (other : Bytes) (loaded : LoadResult) (d : Device)
      → bytes_eq other alarm_id ≡ false
      → load_unlocked storage d ≡ loaded
      → let answer = disable_loaded storage alarm_id loaded d in
        is_off answer.1.status ≡ true
        → IsOff alarm_id other loaded.snapshot (load_unlocked storage answer.0).snapshot
  unfolding disable_loaded
  disable_loaded-IsOff other loaded d n e h =
      let observed = record default_disable {
        schedule_revision = loaded.snapshot.revision;
        generation = loaded.generation;
      } in
      let (written, (result, goes_on)) = dismiss_phase storage alarm_id loaded observed d in
      elim (Bool-cases (is_loaded loaded.status)) [
        | inr l ↦ ground arith
        | inl l ↦ elim (Option-cases (find_alarm alarm_id loaded.snapshot.alarms)) [
          | inl f ↦ ground arith
          | inr (target, f) ↦ elim (Bool-cases goes_on) [
            | inr g ↦ ground (arith, dismiss_stopped loaded observed d g)
            | inl g ↦
                rw (disable_loaded, l, f, g)
                  (definition_phase-IsOff other loaded target result written n f
                    (dismiss_phase-IsDismissed loaded observed d e l g)
                    (rw (disable_loaded, l, f, g) at h))
          ]
        ]
      ]

  -- A disable that reports `disabled` or `already_disabled` leaves a store whose next load finds the
  -- alarm not enabled and no active occurrence of it. Every other alarm is found as it was before.
  pub disable_committed_alarm-off :
      (other : Bytes) (d : Device)
      → bytes_eq other alarm_id ≡ false
      → is_off (disable_committed_alarm storage alarm_id d).1.status ≡ true
      → let after =
          (load_unlocked storage (disable_committed_alarm storage alarm_id d).0).snapshot in
        (is_found_disabled (find_alarm alarm_id after.alarms) ≡ true)
        × (has_matching_active alarm_id after.occurrence_state.active ≡ false)
        × (find_alarm other after.alarms
            ≡ find_alarm other (load_unlocked storage d).snapshot.alarms)
  unfolding disable_committed_alarm disable_loaded
  disable_committed_alarm-off other d n h =
      elim (Bool-cases (is_loaded (load storage d).1.status)) [
        | inr l ↦ ground arith
        | inl l ↦
            let reads = load-loaded storage laws d l in
            let off =
              disable_loaded-IsOff other (load storage d).1 (load storage d).0 n
                (load-reads storage laws d ∙ sym reads) h in
            (
              off.disabled,
              off.idle,
              off.others ∙ ap (λ (r : LoadResult). find_alarm other r.snapshot.alarms) reads,
            )
      ]
