-- ===== src/RecurrenceResolver/Tests.antt =====
-- A weekly alarm under rules with one transition, which skips an hour.
use dawn_dock.Common.{
  ◌≡◌, refl, pos, ltb_ℤ, eqb_ℤ, true, false, ◌||◌, [], ◌∷◌, codes, bytes_eq, ◌+ℤ◌, ◌-ℤ◌,
}
use dawn_dock.RecurrenceResolver.Types.{
  TimezoneRules, WeeklyAlarmSchedule, OccurrenceResolutionStatus,
}
use dawn_dock.RecurrenceResolver.Mapping.{offset_at_utc, has_valid_transition_chain}
use dawn_dock.RecurrenceResolver.Resolve.{resolve_next_occurrence}
use dawn_dock.RecurrenceResolver.Resolved.{resolve_next_occurrence-resolved}

-- The local clock goes from two to three on the second day.
abbrev rules : TimezoneRules
rules = record {
  name = codes "T";
  version = codes "1";
  initial_utc_offset_seconds = pos 3600;
  transitions =
      record {
        at_utc_seconds = pos 90000;
        offset_before_seconds = pos 3600;
        offset_after_seconds = pos 7200;
      }
      ∷ [];
}

abbrev daily : WeeklyAlarmSchedule
daily = record {
  local_hour = 2;
  local_minute = 30;
  iso_weekday_mask = 127;
  timezone_name = codes "T";
  timezone_rules_version = codes "1";
}

resolver : Unit {0}
unfolding resolve_next_occurrence has_valid_transition_chain ◌+ℤ◌ ◌-ℤ◌ bytes_eq
resolver = tt

first_day : resolve_next_occurrence daily rules (pos 0) ≡ record {
  status = OccurrenceResolutionStatus.resolved;
  scheduled_utc_seconds = pos 5400;
  local_date = record { year = pos 1970; month = 1; day = 1 };
  resolved_local_hour = 2;
  resolved_local_minute = 30;
  utc_offset_seconds = pos 3600;
  shifted_for_gap = false;
  ambiguous_fold = false;
}
unfolding resolver
first_day = refl

-- On the second day the alarm stands in the gap, and is shifted to its end.
second_day : resolve_next_occurrence daily rules (pos 5400) ≡ record {
  status = OccurrenceResolutionStatus.resolved;
  scheduled_utc_seconds = pos 90000;
  local_date = record { year = pos 1970; month = 1; day = 2 };
  resolved_local_hour = 3;
  resolved_local_minute = 0;
  utc_offset_seconds = pos 7200;
  shifted_for_gap = true;
  ambiguous_fold = false;
}
unfolding resolver
second_day = refl

resolves :
    (resolve_next_occurrence daily rules (pos 0)).status ≡ OccurrenceResolutionStatus.resolved
unfolding resolver
resolves = refl

resolve_next_occurrence-resolved_example :
    (ltb_ℤ (pos 0) (resolve_next_occurrence daily rules (pos 0)).scheduled_utc_seconds ≡ true)
    × (((resolve_next_occurrence daily rules (pos 0)).shifted_for_gap
          || eqb_ℤ
              (offset_at_utc rules
                (resolve_next_occurrence daily rules (pos 0)).scheduled_utc_seconds)
              (resolve_next_occurrence daily rules (pos 0)).utc_offset_seconds)
        ≡ true)
resolve_next_occurrence-resolved_example =
    resolve_next_occurrence-resolved daily rules (pos 0) resolves
