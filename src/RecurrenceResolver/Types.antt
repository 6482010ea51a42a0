-- ===== src/RecurrenceResolver/Types.antt =====
-- The types of firmware/components/alarm_core/include/dawn/recurrence_resolver.hpp, and the arithmetic
-- of recurrence_resolver.cpp: `/` and `%` of C++ round towards zero.
use dawn_dock.Common.{
  ℕ, suc, ◌+◌, ◌-◌, ◌*◌, ◌/◌, ◌%◌, ◌^◌, leb, ltb, ℤ, pos, negsuc, sub_ℕ, ◌+ℤ◌, ◌-ℤ◌, ltb_ℤ, leb_ℤ,
  int64_max, int64_min, Bool, false, ◌&&◌, ◌||◌, List, Option, none, some, if◌then◌else◌, Bytes,
}

pub record CivilDate : Type 0 where
  pub year : ℤ
  pub month : ℕ
  pub day : ℕ

pub record UtcOffsetTransition : Type 0 where
  pub at_utc_seconds : ℤ
  pub offset_before_seconds : ℤ
  pub offset_after_seconds : ℤ

pub record TimezoneRules : Type 0 where
  pub name : Bytes
  pub version : Bytes
  pub initial_utc_offset_seconds : ℤ
  pub transitions : List UtcOffsetTransition

pub record WeeklyAlarmSchedule : Type 0 where
  pub local_hour : ℕ
  pub local_minute : ℕ
  pub iso_weekday_mask : ℕ
  pub timezone_name : Bytes
  pub timezone_rules_version : Bytes

pub data OccurrenceResolutionStatus : Type 0 where
  resolved no_occurrence invalid_schedule invalid_rules out_of_range : OccurrenceResolutionStatus

pub record ResolvedOccurrence : Type 0 where
  pub status : OccurrenceResolutionStatus
  pub scheduled_utc_seconds : ℤ
  pub local_date : CivilDate
  pub resolved_local_hour : ℕ
  pub resolved_local_minute : ℕ
  pub utc_offset_seconds : ℤ
  pub shifted_for_gap : Bool
  pub ambiguous_fold : Bool

-- A default-constructed result, but for its status.
abbrev pub status_result : OccurrenceResolutionStatus → ResolvedOccurrence
status_result status = record {
  status = status;
  scheduled_utc_seconds = pos 0;
  local_date = record { year = pos 0; month = 0; day = 0 };
  resolved_local_hour = 0;
  resolved_local_minute = 0;
  utc_offset_seconds = pos 0;
  shifted_for_gap = false;
  ambiguous_fold = false;
}

abbrev pub seconds_per_day : ℕ
seconds_per_day = 24 * 60 * 60

-- A quotient, a remainder and a product of an integer and a positive number.
unfoldable pub quotient : ℤ → ℕ → ℤ
quotient (pos n) d = pos (n / d)
quotient (negsuc n) d = sub_ℕ 0 (suc n / d)

unfoldable pub remainder : ℤ → ℕ → ℤ
remainder (pos n) d = pos (n % d)
remainder (negsuc n) d = sub_ℕ 0 (suc n % d)

unfoldable pub product : ℤ → ℕ → ℤ
product (pos n) k = pos (n * k)
product (negsuc n) k = sub_ℕ 0 (suc n * k)

abbrev pub natural : ℤ → ℕ
natural (pos n) = n
natural (negsuc n) = 0

unfoldable pub floor_div : ℤ → ℕ → ℤ
unfolding quotient remainder
floor_div numerator denominator =
    if ltb_ℤ (remainder numerator denominator) (pos 0)
    then quotient numerator denominator -ℤ pos 1
    else quotient numerator denominator

-- The index of the weekday, from Monday.
unfoldable pub weekday_from_days : ℤ → ℕ
unfolding remainder
weekday_from_days days =
    let index = remainder (days +ℤ pos 3) 7 in
    natural (if ltb_ℤ index (pos 0) then index +ℤ pos 7 else index)

-- `civil_from_days`; the range of `int` is -2^31 to 2^31 - 1.
unfoldable pub civil_from_days : ℤ → Option CivilDate
unfolding quotient product
civil_from_days given =
    let days = given +ℤ pos 719468 in
    let era = quotient (if leb_ℤ (pos 0) days then days else days -ℤ pos 146096) 146097 in
    let day_of_era = natural (days -ℤ product era 146097) in
    let year_of_era =
      (day_of_era - day_of_era / 1460 + day_of_era / 36524 - day_of_era / 146096) / 365 in
    let day_of_year = day_of_era - (365 * year_of_era + year_of_era / 4 - year_of_era / 100) in
    let month_prime = (5 * day_of_year + 2) / 153 in
    let day = day_of_year - (153 * month_prime + 2) / 5 + 1 in
    let month = if ltb month_prime 10 then month_prime + 3 else month_prime - 9 in
    let year = (pos year_of_era +ℤ product era 400) +ℤ pos (if leb month 2 then 1 else 0) in
    if ltb_ℤ year (negsuc (2 ^ 31 - 1)) || ltb_ℤ (pos (2 ^ 31 - 1)) year
    then none
    else some (record { year = year; month = month; day = day })

unfoldable pub start_of_day_seconds : ℤ → Option ℤ
unfolding quotient product
start_of_day_seconds day =
    if ltb_ℤ (quotient int64_max seconds_per_day) day
      || ltb_ℤ day (quotient int64_min seconds_per_day)
    then none
    else some (product day seconds_per_day)

unfoldable pub valid_utc_offset : ℤ → Bool
valid_utc_offset offset =
    leb_ℤ (negsuc (seconds_per_day - 1)) offset && leb_ℤ offset (pos seconds_per_day)

unfoldable pub can_add : ℤ → ℤ → Bool
can_add value offset =
    (leb_ℤ (pos 0) offset && leb_ℤ value (int64_max -ℤ offset))
    || (ltb_ℤ offset (pos 0) && leb_ℤ (int64_min -ℤ offset) value)
