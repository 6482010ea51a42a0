-- ===== src/RecurrenceResolver/Resolved.antt =====
-- What a resolved occurrence of recurrence_resolver.cpp is, whatever the rules of the timezone.
use dawn_dock.Common.{
  ℕ, zero, suc, ◌≡◌, refl, arith, inl, inr, ℤ, pos, ◌+ℤ◌, ◌-ℤ◌, ltb_ℤ, leb_ℤ, eqb_ℤ, Bool, true,
  false, not, ◌&&◌, ◌||◌, List, [], ◌∷◌, Option, none, some, Option-cases, Bool-cases, and_both,
  and_parts,
}
use dawn_dock.RecurrenceResolver.Types.{
  UtcOffsetTransition, TimezoneRules, WeeklyAlarmSchedule, OccurrenceResolutionStatus,
  ResolvedOccurrence, can_add, civil_from_days, floor_div, seconds_per_day, weekday_from_days,
}
use dawn_dock.RecurrenceResolver.Mapping.{
  LocalMapping, Candidates, offset_at_utc, find_gap, consider, consider_all, map_local, mark_fold,
  add_offset, collect_offsets, is_earliest,
}
use dawn_dock.RecurrenceResolver.Resolve.{
  local_on_day, occurrence_of, resolve_on_day, resolve_days, resolve_next_occurrence, has_weekday,
}

later_of : (after instant : ℤ) → leb_ℤ instant after ≡ false → ltb_ℤ after instant ≡ true
later_of after instant h = ground arith

-- A mapping behind a gap, or one whose offset is in force at its instant.
abbrev pub is_in_force : TimezoneRules → LocalMapping → Bool
is_in_force rules mapping =
    mapping.shifted_for_gap
    || eqb_ℤ (offset_at_utc rules mapping.utc_seconds) mapping.offset_seconds

abbrev all_in_force : TimezoneRules → Option LocalMapping → Bool
all_in_force rules none = true
all_in_force rules (some mapping) = is_in_force rules mapping

find_gap-shifted :
    (rules : TimezoneRules) (transitions : List UtcOffsetTransition) (local : ℤ)
    → all_in_force rules (find_gap transitions local) ≡ true
unfolding find_gap
find_gap-shifted rules [] local = refl
find_gap-shifted rules (transition ∷ rest) local = ground (arith, find_gap-shifted rules rest local)

consider_in_force :
    (rules : TimezoneRules) (local : ℤ) (candidates : Candidates) (offset : ℤ)
    → all_in_force rules candidates.earliest ≡ true
    → all_in_force rules (consider rules local candidates offset).earliest ≡ true
unfolding consider
consider_in_force rules local candidates offset h =
    let candidate_utc = local +ℤ (pos 0 -ℤ offset) in
    elim (Bool-cases (can_add local (pos 0 -ℤ offset))) [
      | inr a ↦ rw (consider, a) h
      | inl a ↦ elim (Bool-cases (eqb_ℤ (offset_at_utc rules candidate_utc) offset)) [
        | inr b ↦ rw (consider, a, b) h
        | inl b ↦ elim (Bool-cases (is_earliest candidates.earliest candidate_utc)) [
          | inl c ↦ rw (consider, a, b, c) b
          | inr c ↦ rw (consider, a, b, c) h
        ]
      ]
    ]

consider_all_in_force :
    (rules : TimezoneRules) (local : ℤ) (candidates : Candidates) (offsets : List ℤ)
    → all_in_force rules candidates.earliest ≡ true
    → all_in_force rules (consider_all rules local candidates offsets).earliest ≡ true
unfolding consider_all
consider_all_in_force rules local candidates [] h = h
consider_all_in_force rules local candidates (offset ∷ rest) h =
    consider_all_in_force rules local (consider rules local candidates offset) rest
      (consider_in_force rules local candidates offset h)

mark_fold_in_force :
    (rules : TimezoneRules) (candidates : Candidates)
    → all_in_force rules candidates.earliest ≡ true
    → all_in_force rules (mark_fold candidates) ≡ true
mark_fold_in_force rules candidates h = elim (Option-cases candidates.earliest) [
  | inl e ↦ rw e
  | inr (mapping, e) ↦ rw e (rw e at h)
]

map_local_in_force :
    (rules : TimezoneRules) (local : ℤ) → all_in_force rules (map_local rules local) ≡ true
unfolding map_local
map_local_in_force rules local = elim (Option-cases (find_gap rules.transitions local)) [
  | inr (mapping, e) ↦
      let gap = find_gap-shifted rules rules.transitions local in rw (map_local, e) (rw e at gap)
  | inl e ↦
      let none_yet : Candidates = record { earliest = none; valid_mapping_count = 0 } in
      let offsets =
        collect_offsets (add_offset [] rules.initial_utc_offset_seconds) rules.transitions in
      rw (map_local, e)
        (mark_fold_in_force rules (consider_all rules local none_yet offsets)
          (consider_all_in_force rules local none_yet offsets refl))
]

abbrev is_resolved : OccurrenceResolutionStatus → Bool
is_resolved OccurrenceResolutionStatus.resolved = true
is_resolved status = false

-- A resolved instant is a later one, and its offset is in force there unless it was shifted.
abbrev is_sound : TimezoneRules → ℤ → ResolvedOccurrence → Bool
is_sound rules after result =
    not (is_resolved result.status)
    || (ltb_ℤ after result.scheduled_utc_seconds
        && (result.shifted_for_gap
            || eqb_ℤ (offset_at_utc rules result.scheduled_utc_seconds) result.utc_offset_seconds))

abbrev all_sound : TimezoneRules → ℤ → Option ResolvedOccurrence → Bool
all_sound rules after none = true
all_sound rules after (some result) = is_sound rules after result

occurrence_of_sound :
    (rules : TimezoneRules) (after day : ℤ) (mapping : LocalMapping)
    → ltb_ℤ after mapping.utc_seconds ≡ true
    → is_in_force rules mapping ≡ true
    → is_sound rules after (occurrence_of day mapping) ≡ true
unfolding occurrence_of
occurrence_of_sound rules after day mapping l f = elim (Option-cases (civil_from_days day)) [
  | inl e ↦ rw (occurrence_of, e)
  | inr (local_date, e) ↦
      rw (occurrence_of, e)
        (and_both (ltb_ℤ after mapping.utc_seconds) (is_in_force rules mapping) l f)
]

resolve_on_day_sound :
    (schedule : WeeklyAlarmSchedule) (rules : TimezoneRules) (after day : ℤ)
    → all_sound rules after (resolve_on_day schedule rules after day) ≡ true
unfolding resolve_on_day
resolve_on_day_sound schedule rules after day =
    elim (Bool-cases (has_weekday schedule.iso_weekday_mask (weekday_from_days day))) [
      | inr w ↦ rw (resolve_on_day, w)
      | inl w ↦ elim (Option-cases (local_on_day schedule day)) [
        | inl e ↦ rw (resolve_on_day, w, e)
        | inr (local, e) ↦ elim (Option-cases (map_local rules local)) [
          | inl f ↦ rw (resolve_on_day, w, e, f)
          | inr (mapping, f) ↦
              let mapped = map_local_in_force rules local in
              let in_force = rw f at mapped in
              elim (Bool-cases (leb_ℤ mapping.utc_seconds after)) [
                | inl l ↦ rw (resolve_on_day, w, e, f, l)
                | inr l ↦
                    elim (Bool-cases (
                      mapping.shifted_for_gap
                      && not
                          (eqb_ℤ (floor_div mapping.resolved_local_seconds seconds_per_day) day))) [
                            | inl g ↦ rw (resolve_on_day, w, e, f, l, g)
                            | inr g ↦
                                rw (resolve_on_day, w, e, f, l, g)
                                  (occurrence_of_sound rules after day mapping
                                    (later_of after mapping.utc_seconds l) in_force)
                          ]
              ]
        ]
      ]
    ]

resolve_days_sound :
    (left : ℕ) (schedule : WeeklyAlarmSchedule) (rules : TimezoneRules) (after day : ℤ)
    → is_sound rules after (resolve_days left schedule rules after day) ≡ true
unfolding resolve_days
resolve_days_sound zero schedule rules after day = refl
resolve_days_sound (suc left) schedule rules after day =
    let sound = resolve_on_day_sound schedule rules after day in
    elim (Option-cases (resolve_on_day schedule rules after day)) [
      | inl e ↦ rw (resolve_days, e) (resolve_days_sound left schedule rules after (day +ℤ pos 1))
      | inr (result, e) ↦ rw (resolve_days, e) (rw e at sound)
    ]

sound-resolved :
    (rules : TimezoneRules) (after : ℤ) (result : ResolvedOccurrence)
    → is_sound rules after result ≡ true
    → result.status ≡ OccurrenceResolutionStatus.resolved
    → (ltb_ℤ after result.scheduled_utc_seconds
        && (result.shifted_for_gap
            || eqb_ℤ (offset_at_utc rules result.scheduled_utc_seconds) result.utc_offset_seconds))
      ≡ true
sound-resolved rules after result h e = rw e at h

resolve_next_occurrence_sound :
    (schedule : WeeklyAlarmSchedule) (rules : TimezoneRules) (after : ℤ)
    → is_sound rules after (resolve_next_occurrence schedule rules after) ≡ true
unfolding resolve_next_occurrence
resolve_next_occurrence_sound schedule rules after = ground (
  arith,
  resolve_days_sound 15 schedule rules after
      (floor_div (after +ℤ offset_at_utc rules after) seconds_per_day),
)

-- A resolved occurrence lies strictly after the instant that was asked from, and, unless it was
-- shifted out of a gap, the offset that it reports is the one that the rules have in force at its
-- instant.
pub resolve_next_occurrence-resolved :
    (schedule : WeeklyAlarmSchedule) (rules : TimezoneRules) (after : ℤ)
    → (resolve_next_occurrence schedule rules after).status ≡ OccurrenceResolutionStatus.resolved
    → let result = resolve_next_occurrence schedule rules after in
      (ltb_ℤ after result.scheduled_utc_seconds ≡ true)
      × ((result.shifted_for_gap
            || eqb_ℤ (offset_at_utc rules result.scheduled_utc_seconds) result.utc_offset_seconds)
          ≡ true)
resolve_next_occurrence-resolved schedule rules after h =
    let result = resolve_next_occurrence schedule rules after in
    and_parts (ltb_ℤ after result.scheduled_utc_seconds)
      (result.shifted_for_gap
        || eqb_ℤ (offset_at_utc rules result.scheduled_utc_seconds) result.utc_offset_seconds)
      (sound-resolved rules after result (resolve_next_occurrence_sound schedule rules after) h)
