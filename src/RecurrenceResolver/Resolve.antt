-- ===== src/RecurrenceResolver/Resolve.antt =====
-- `resolve_next_occurrence` of recurrence_resolver.cpp.
use dawn_dock.Common.{
  ℕ, zero, suc, ◌+◌, ◌*◌, ◌/◌, ◌%◌, ◌^◌, ◌==◌, ltb, ℤ, pos, ◌+ℤ◌, ◌-ℤ◌, ltb_ℤ, leb_ℤ, eqb_ℤ,
  int64_max, int64_min, Bool, not, ◌&&◌, ◌||◌, Option, none, some, if◌then◌else◌, length, bytes_eq,
}
use dawn_dock.RecurrenceResolver.Types.{
  TimezoneRules, WeeklyAlarmSchedule, OccurrenceResolutionStatus, ResolvedOccurrence, status_result,
  seconds_per_day, natural, product, floor_div, weekday_from_days, civil_from_days,
  start_of_day_seconds,
}
use dawn_dock.RecurrenceResolver.Mapping.{
  LocalMapping, offset_at_utc, has_valid_transition_chain, map_local,
}

abbrev pub is_valid_schedule : WeeklyAlarmSchedule → Bool
is_valid_schedule schedule = not (
    (ltb 23 schedule.local_hour || ltb 59 schedule.local_minute)
    || (schedule.iso_weekday_mask == 0 || not (schedule.iso_weekday_mask / 128 == 0)))

abbrev pub is_valid_rules : WeeklyAlarmSchedule → TimezoneRules → Bool
is_valid_rules schedule rules = not (
    ((length schedule.timezone_name == 0 || length schedule.timezone_rules_version == 0)
      || (length rules.name == 0 || length rules.version == 0))
    || ((not (bytes_eq schedule.timezone_name rules.name)
          || not (bytes_eq schedule.timezone_rules_version rules.version))
        || not (has_valid_transition_chain rules)))

-- The test of the anchor against the limits of `std::int64_t`.
abbrev pub is_out_of_range : ℤ → ℤ → Bool
is_out_of_range after offset =
    (ltb_ℤ (pos 0) offset && ltb_ℤ (int64_max -ℤ offset) after)
    || (ltb_ℤ offset (pos 0) && ltb_ℤ after (int64_min -ℤ offset))

-- `mask & weekday_bit(weekday)`.
abbrev pub has_weekday : ℕ → ℕ → Bool
has_weekday mask weekday = mask / 2 ^ weekday % 2 == 1

-- The local instant of the candidate day; `none` is out of range.
unfoldable pub local_on_day : WeeklyAlarmSchedule → ℤ → Option ℤ
unfolding start_of_day_seconds
local_on_day schedule day =
    let seconds_in_requested_day =
      pos (schedule.local_hour * 60 * 60 + schedule.local_minute * 60) in
    elim (start_of_day_seconds day) [
      | none ↦ none
      | some day_start ↦
          if ltb_ℤ (int64_max -ℤ seconds_in_requested_day) day_start
          then none
          else some (day_start +ℤ seconds_in_requested_day)
    ]

-- The result on the day of a mapping that is taken.
unfoldable pub occurrence_of : ℤ → LocalMapping → ResolvedOccurrence
unfolding product floor_div civil_from_days
occurrence_of day mapping =
    let resolved_day = floor_div mapping.resolved_local_seconds seconds_per_day in
    let seconds_in_day =
      natural (mapping.resolved_local_seconds -ℤ product resolved_day seconds_per_day) in
    elim (civil_from_days day) [
      | none ↦ status_result OccurrenceResolutionStatus.out_of_range
      | some local_date ↦ record {
        status = OccurrenceResolutionStatus.resolved;
        scheduled_utc_seconds = mapping.utc_seconds;
        local_date = local_date;
        resolved_local_hour = seconds_in_day / (60 * 60);
        resolved_local_minute = seconds_in_day / 60 % 60;
        utc_offset_seconds = mapping.offset_seconds;
        shifted_for_gap = mapping.shifted_for_gap;
        ambiguous_fold = mapping.ambiguous_fold;
      }
    ]

-- One turn of the loop over the days; `none` goes on to the next one.
unfoldable pub resolve_on_day :
    WeeklyAlarmSchedule → TimezoneRules → ℤ → ℤ → Option ResolvedOccurrence
unfolding local_on_day map_local occurrence_of weekday_from_days
resolve_on_day schedule rules after day =
    if not (has_weekday schedule.iso_weekday_mask (weekday_from_days day))
    then none
    else elim (local_on_day schedule day) [
      | none ↦ some (status_result OccurrenceResolutionStatus.out_of_range)
      | some local ↦ elim (map_local rules local) [
        | none ↦ none
        | some mapping ↦
            if leb_ℤ mapping.utc_seconds after
            then none
            else if mapping.shifted_for_gap
                && not (eqb_ℤ (floor_div mapping.resolved_local_seconds seconds_per_day) day)
            then none
            else some (occurrence_of day mapping)
      ]
    ]

-- The loop, for the days that are left.
unfoldable pub resolve_days : ℕ → WeeklyAlarmSchedule → TimezoneRules → ℤ → ℤ → ResolvedOccurrence
unfolding resolve_on_day
resolve_days zero schedule rules after day = status_result OccurrenceResolutionStatus.no_occurrence
resolve_days (suc left) schedule rules after day =
    let later = resolve_days left schedule rules after (day +ℤ pos 1) in
    elim (resolve_on_day schedule rules after day) [ some result ↦ result | none ↦ later ]

unfoldable pub resolve_next_occurrence :
    WeeklyAlarmSchedule → TimezoneRules → ℤ → ResolvedOccurrence
unfolding resolve_days offset_at_utc
resolve_next_occurrence schedule rules after =
    let anchor_offset = offset_at_utc rules after in
    if not (is_valid_schedule schedule)
    then status_result OccurrenceResolutionStatus.invalid_schedule
    else if not (is_valid_rules schedule rules)
    then status_result OccurrenceResolutionStatus.invalid_rules
    else if eqb_ℤ after int64_max
    then status_result OccurrenceResolutionStatus.out_of_range
    else if is_out_of_range after anchor_offset
    then status_result OccurrenceResolutionStatus.out_of_range
    else resolve_days 15 schedule rules after (floor_div (after +ℤ anchor_offset) seconds_per_day)
