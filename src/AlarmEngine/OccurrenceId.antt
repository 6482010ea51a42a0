-- ===== src/AlarmEngine/OccurrenceId.antt =====
-- `make_occurrence_id` gives different occurrences different ids.
use dawn_dock.Common.{
  ◌^◌, ◌<◌, ◌≡◌, arith, ℤ, ◌++◌, ◌∷◌, to_string, to_string_ℤ, IsInt64, append_assoc, ◌∙◌, sym,
}
use dawn_dock.Common.Decimal.{
  magnitude, to_string_inj, to_string_ℤ_inj, has_byte-to_string, has_byte-to_string_ℤ, split_inj,
}
use dawn_dock.AlarmEngine.{AlarmDefinition, make_occurrence_id}

-- The numbers of an alarm are of 64 bits.
pub record IsSized (a : AlarmDefinition) : Type 0 where
  pub revision : a.schedule_revision < 2 ^ 64
  pub scheduled : IsInt64 a.scheduled_utc_seconds

magnitude_bound : (z : ℤ) → IsInt64 z → magnitude z < 10 ^ 20
magnitude_bound z h = ground arith

regroup :
    (a : AlarmDefinition)
    → make_occurrence_id a
      ≡ (a.id ++ (58 ∷ to_string a.schedule_revision)) ++ (58 ∷ to_string_ℤ a.scheduled_utc_seconds)
unfolding make_occurrence_id
regroup a = sym (append_assoc a.id (58 ∷ to_string a.schedule_revision) _)

-- Two alarms with one occurrence id have the same id, revision and scheduled instant, whatever
-- bytes their ids hold.
pub make_occurrence_id_inj :
    (a b : AlarmDefinition)
    → IsSized a
    → IsSized b
    → make_occurrence_id a ≡ make_occurrence_id b
    → (a.id ≡ b.id)
      × (a.schedule_revision ≡ b.schedule_revision)
      × (a.scheduled_utc_seconds ≡ b.scheduled_utc_seconds)
make_occurrence_id_inj a b ha hb e =
    let (front, scheduled) =
      split_inj 58 _ _ _ _ (has_byte-to_string_ℤ 58 a.scheduled_utc_seconds (omega arith))
        (has_byte-to_string_ℤ 58 b.scheduled_utc_seconds (omega arith))
        (sym (regroup a) ∙ (e ∙ regroup b)) in
    let (id, revision) =
      split_inj 58 _ _ _ _ (has_byte-to_string 58 a.schedule_revision (omega arith))
        (has_byte-to_string 58 b.schedule_revision (omega arith)) front in
    (
      id,
      to_string_inj _ _ (omega (arith, ha.revision)) (omega (arith, hb.revision)) revision,
      to_string_ℤ_inj _ _ (magnitude_bound _ ha.scheduled) (magnitude_bound _ hb.scheduled)
          scheduled,
    )
