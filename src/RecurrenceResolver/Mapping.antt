-- ===== src/RecurrenceResolver/Mapping.antt =====
-- The rules of a timezone in recurrence_resolver.cpp: `offset_at_utc`, `has_valid_transition_chain` and
-- `map_local`.
use dawn_dock.Common.{
  ℕ, ◌+◌, ℤ, pos, ◌+ℤ◌, ◌-ℤ◌, ltb_ℤ, leb_ℤ, eqb_ℤ, ltb, Bool, true, false, not, ◌&&◌, ◌||◌, List,
  [], ◌∷◌, ◌++◌, Option, none, some, if◌then◌else◌, any,
}
use dawn_dock.RecurrenceResolver.Types.{
  UtcOffsetTransition, TimezoneRules, valid_utc_offset, can_add,
}

-- The loop of `offset_at_utc`, from the offset before the transitions that are left.
unfoldable pub offset_after : ℤ → List UtcOffsetTransition → ℤ → ℤ
offset_after offset [] utc = offset
offset_after offset (transition ∷ rest) utc =
    let later = offset_after transition.offset_after_seconds rest utc in
    if ltb_ℤ utc transition.at_utc_seconds then offset else later

unfoldable pub offset_at_utc : TimezoneRules → ℤ → ℤ
unfolding offset_after
offset_at_utc rules utc = offset_after rules.initial_utc_offset_seconds rules.transitions utc

-- The transition is not behind the one before it.
abbrev pub is_unordered : Option ℤ → UtcOffsetTransition → Bool
is_unordered none transition = false
is_unordered (some previous) transition = leb_ℤ transition.at_utc_seconds previous

-- The loop of `has_valid_transition_chain`.
unfoldable pub valid_chain : ℤ → Option ℤ → List UtcOffsetTransition → Bool
unfolding valid_utc_offset can_add
valid_chain active previous [] = true
valid_chain active previous (transition ∷ rest) =
    let at_utc = transition.at_utc_seconds in
    let before = transition.offset_before_seconds in
    let after = transition.offset_after_seconds in
    let later = valid_chain after (some at_utc) rest in
    if (is_unordered previous transition || not (eqb_ℤ before active))
      || ((not (valid_utc_offset before) || not (valid_utc_offset after))
          || ((not (can_add at_utc before) || not (can_add at_utc after)) || eqb_ℤ before after))
    then false
    else later

unfoldable pub has_valid_transition_chain : TimezoneRules → Bool
unfolding valid_chain
has_valid_transition_chain rules =
    valid_utc_offset rules.initial_utc_offset_seconds
    && valid_chain rules.initial_utc_offset_seconds none rules.transitions

pub record LocalMapping : Type 0 where
  pub utc_seconds : ℤ
  pub resolved_local_seconds : ℤ
  pub offset_seconds : ℤ
  pub shifted_for_gap : Bool
  pub ambiguous_fold : Bool

-- The first loop of `map_local`.
unfoldable pub find_gap : List UtcOffsetTransition → ℤ → Option LocalMapping
find_gap [] local = none
find_gap (transition ∷ rest) local =
    let later = find_gap rest local in
    let gap_start = transition.at_utc_seconds +ℤ transition.offset_before_seconds in
    let gap_end = transition.at_utc_seconds +ℤ transition.offset_after_seconds in
    if leb_ℤ transition.offset_after_seconds transition.offset_before_seconds
    then later
    else if leb_ℤ gap_start local && ltb_ℤ local gap_end
    then some (record {
      utc_seconds = transition.at_utc_seconds;
      resolved_local_seconds = gap_end;
      offset_seconds = transition.offset_after_seconds;
      shifted_for_gap = true;
      ambiguous_fold = false;
    })
    else later

abbrev pub add_offset : List ℤ → ℤ → List ℤ
add_offset offsets offset =
    if any (λ other. eqb_ℤ other offset) offsets then offsets else offsets ++ (offset ∷ [])

unfoldable pub collect_offsets : List ℤ → List UtcOffsetTransition → List ℤ
collect_offsets offsets [] = offsets
collect_offsets offsets (transition ∷ rest) =
    collect_offsets (add_offset offsets transition.offset_after_seconds) rest

-- `earliest` and `valid_mapping_count`.
pub record Candidates : Type 0 where
  pub earliest : Option LocalMapping
  pub valid_mapping_count : ℕ

abbrev pub is_earliest : Option LocalMapping → ℤ → Bool
is_earliest none candidate_utc = true
is_earliest (some earliest) candidate_utc = ltb_ℤ candidate_utc earliest.utc_seconds

-- One turn of the last loop.
unfoldable pub consider : TimezoneRules → ℤ → Candidates → ℤ → Candidates
unfolding offset_at_utc
consider rules local candidates offset =
    let inverse_offset = pos 0 -ℤ offset in
    let candidate_utc = local +ℤ inverse_offset in
    if not (can_add local inverse_offset)
    then candidates
    else if not (eqb_ℤ (offset_at_utc rules candidate_utc) offset)
    then candidates
    else record {
      earliest =
          if is_earliest candidates.earliest candidate_utc
          then some (record {
            utc_seconds = candidate_utc;
            resolved_local_seconds = local;
            offset_seconds = offset;
            shifted_for_gap = false;
            ambiguous_fold = false;
          })
          else candidates.earliest;
      valid_mapping_count = candidates.valid_mapping_count + 1;
    }

unfoldable pub consider_all : TimezoneRules → ℤ → Candidates → List ℤ → Candidates
unfolding consider
consider_all rules local candidates [] = candidates
consider_all rules local candidates (offset ∷ rest) =
    consider_all rules local (consider rules local candidates offset) rest

-- The end of `map_local`.
abbrev pub mark_fold : Candidates → Option LocalMapping
mark_fold candidates = elim candidates.earliest [
  | none ↦ none
  | some earliest ↦ some (record earliest { ambiguous_fold = ltb 1 candidates.valid_mapping_count })
]

unfoldable pub map_local : TimezoneRules → ℤ → Option LocalMapping
unfolding find_gap collect_offsets consider_all
map_local rules local = elim (find_gap rules.transitions local) [
  | some mapping ↦ some mapping
  | none ↦ mark_fold (
      consider_all rules local (record { earliest = none; valid_mapping_count = 0 })
        (collect_offsets (add_offset [] rules.initial_utc_offset_seconds) rules.transitions))
]
