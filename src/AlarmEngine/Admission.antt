-- ===== src/AlarmEngine/Admission.antt =====
-- When a due alarm rings, and when it is missed.
use dawn_dock.Common.{
  ◌≡◌, ◌↔◌, refl, arith, ℤ, ◌-ℤ◌, ◌≤ℤ◌, ◌<ℤ◌, IsInt64, Bool, true, false, none, some, Option-cases,
  Bytes, is_some, inl, inr, ◌⊎◌,
}
use dawn_dock.AlarmEngine.{
  AlarmDefinition, PersistentAlarmState, EvaluationStatus, checked_elapsed, find_high_watermark,
  at_or_below, has_terminal, can_track_terminal, evaluate_due, admit, make_occurrence_id,
  late_grace_seconds, begin_recovered_ring, set_active, begin_occurrence,
}
use dawn_dock.AlarmEngine.Checked.{checked_elapsed-exact}

-- What admission asks for: an enabled alarm that is due by a valid clock whose reading is at a
-- distance that fits, a free slot, no terminal record, and room to record the outcome.
pub record IsAdmissible (alarm : AlarmDefinition) (s : PersistentAlarmState) (wall : ℤ)
    (valid : Bool) : Type 0 where
  pub enabled : alarm.enabled ≡ true
  pub time_valid : valid ≡ true
  pub due : alarm.scheduled_utc_seconds ≤ℤ wall
  pub fits : IsInt64 (wall -ℤ alarm.scheduled_utc_seconds)
  pub free : s.active ≡ none
  pub not_terminal : has_terminal s.terminal (make_occurrence_id alarm) ≡ false
  pub above_watermark :
      at_or_below
        (find_high_watermark s.terminal_high_watermarks alarm.id)
        alarm.scheduled_utc_seconds
      ≡ false
  pub trackable : can_track_terminal s alarm.id ≡ true

module _ (s : PersistentAlarmState) (alarm : AlarmDefinition) (wall monotonic : ℤ) (valid : Bool)
    (wall_fits : IsInt64 wall) (scheduled_fits : IsInt64 alarm.scheduled_utc_seconds) where
  abbrev lateness : ℤ
  lateness = wall -ℤ alarm.scheduled_utc_seconds

  -- The alarm rings exactly when it can be admitted within the late grace.
  pub evaluate_due-ringing :
      ((evaluate_due alarm s wall monotonic valid).1.status ≡ EvaluationStatus.ringing)
      ↔ (IsAdmissible alarm s wall valid × (lateness ≤ℤ late_grace_seconds))
  unfolding evaluate_due admit
  evaluate_due-ringing = (
    λ h. elim (Option-cases (checked_elapsed wall alarm.scheduled_utc_seconds)) [
      | inl e ↦ ground arith
      | inr (l, e) ↦ ground (
        arith,
        (checked_elapsed-exact wall alarm.scheduled_utc_seconds l wall_fits scheduled_fits).0 e,
      )
    ],
    λ h. ground (
      arith,
      (checked_elapsed-exact wall alarm.scheduled_utc_seconds lateness wall_fits scheduled_fits).1
          (refl, h.0.due, h.0.fits),
    ),
  )

  -- It is missed exactly when it can be admitted but is later than that.
  pub evaluate_due-missed :
      ((evaluate_due alarm s wall monotonic valid).1.status ≡ EvaluationStatus.missed)
      ↔ (IsAdmissible alarm s wall valid × (late_grace_seconds <ℤ lateness))
  unfolding evaluate_due admit
  evaluate_due-missed = (
    λ h. elim (Option-cases (checked_elapsed wall alarm.scheduled_utc_seconds)) [
      | inl e ↦ ground arith
      | inr (l, e) ↦ ground (
        arith,
        (checked_elapsed-exact wall alarm.scheduled_utc_seconds l wall_fits scheduled_fits).0 e,
      )
    ],
    λ h. ground (
      arith,
      (checked_elapsed-exact wall alarm.scheduled_utc_seconds lateness wall_fits scheduled_fits).1
          (refl, h.0.due, h.0.fits),
    ),
  )

-- A recovered ring takes the slot exactly when it is free and the outcome can be tracked, and
-- otherwise changes nothing.
pub begin_recovered_ring-exact :
    (s : PersistentAlarmState) (id o : Bytes) (t wall monotonic : ℤ)
    → ((begin_recovered_ring s id o t wall monotonic
          ≡ (set_active s (some (begin_occurrence id o t wall monotonic)), true))
        × (s.active ≡ none)
        × (can_track_terminal s id ≡ true))
      ⊎ ((begin_recovered_ring s id o t wall monotonic ≡ (s, false))
          × ((is_some s.active ≡ true) ⊎ (can_track_terminal s id ≡ false)))
unfolding begin_recovered_ring
begin_recovered_ring-exact s id o t wall monotonic = ground arith
