-- ===== src/InvalidTimeRecovery/Batch.antt =====
-- What the batch of invalid_time_recovery.cpp does to the journal, and which alarms its collecting
-- loop leaves out.
use dawn_dock.Common.{
  ◌≡◌, refl, ap, ◌∙◌, arith, inl, inr, ℤ, leb_ℤ, ltb_ℤ, not, and_parts, and_both, or_right, Bool,
  true, false, ◌&&◌, ◌||◌, List, [], ◌∷◌, ◌++◌, some, Option-cases, Bool-cases, bytes_eq,
  bytes_eq_refl, all, all-append, all_mono,
}
use dawn_dock.AlarmEngine.{
  PersistentAlarmState, TerminalReason, active_is, at_or_below, find_high_watermark,
  journal_terminal, finish, append_terminal, record_terminal_high_watermark, begin_recovered_ring,
  make_occurrence_id, has_terminal,
}
use dawn_dock.AlarmEngine.Watermarks.{at_or_below-raise}
use dawn_dock.ScheduleStore.Types.{StoredAlarmDefinition}
use dawn_dock.InvalidTimeRecovery.{
  CrossedCandidate, insert_candidate, split_newest, journal_missed, journal_ring, journal_batch,
  collect_crossed, sort_candidates, is_crossed, definition_of,
}

-- The occurrence lies at or below the watermark of its alarm.
abbrev pub is_past : PersistentAlarmState → CrossedCandidate → Bool
is_past state candidate =
    at_or_below (find_high_watermark state.terminal_high_watermarks candidate.alarm_id)
      candidate.scheduled_utc_seconds

-- The occurrence is past, or it is the active one.
abbrev pub is_settled : PersistentAlarmState → CrossedCandidate → Bool
is_settled state candidate =
    is_past state candidate || active_is state.active candidate.occurrence_id

journal_terminal-past :
    (state : PersistentAlarmState) (candidate other : CrossedCandidate)
    → let answer =
        journal_terminal state candidate.alarm_id candidate.occurrence_id
          candidate.scheduled_utc_seconds TerminalReason.invalid_time in
      answer.1 ≡ true
      → is_past answer.0 other ≡ (
          is_past state other
          || (bytes_eq candidate.alarm_id other.alarm_id
              && leb_ℤ other.scheduled_utc_seconds candidate.scheduled_utc_seconds))
unfolding journal_terminal finish append_terminal record_terminal_high_watermark
journal_terminal-past state candidate other h = ground (
  arith,
  at_or_below-raise state.terminal_high_watermarks candidate.alarm_id other.alarm_id
      candidate.scheduled_utc_seconds other.scheduled_utc_seconds,
)

journal_missed-keeps :
    (state next : PersistentAlarmState) (missed : List CrossedCandidate) (other : CrossedCandidate)
    → journal_missed state missed ≡ some next
    → is_past state other ≡ true
    → is_past next other ≡ true
unfolding journal_missed
journal_missed-keeps state next [] other h p = ground arith
journal_missed-keeps state next (candidate ∷ rest) other h p =
    let (later, accepted) =
      journal_terminal state candidate.alarm_id candidate.occurrence_id
        candidate.scheduled_utc_seconds TerminalReason.invalid_time in
    elim (Bool-cases accepted) [
      | inr a ↦ ground arith
      | inl a ↦
          journal_missed-keeps later next rest other (ground arith)
            (ground (arith, journal_terminal-past state candidate other a))
    ]

journal_missed-past :
    (state next : PersistentAlarmState) (missed : List CrossedCandidate)
    → journal_missed state missed ≡ some next
    → all (is_past next) missed ≡ true
unfolding journal_missed
journal_missed-past state next [] h = refl
journal_missed-past state next (candidate ∷ rest) h =
    let (later, accepted) =
      journal_terminal state candidate.alarm_id candidate.occurrence_id
        candidate.scheduled_utc_seconds TerminalReason.invalid_time in
    elim (Bool-cases accepted) [
      | inr a ↦ ground arith
      | inl a ↦
          let tail : journal_missed later rest ≡ some next = ground arith in
          let marked : is_past later candidate ≡ true = ground (
            arith,
            journal_terminal-past state candidate candidate a,
            bytes_eq_refl candidate.alarm_id,
          ) in
          ground (
            arith,
            journal_missed-keeps later next rest candidate tail marked,
            journal_missed-past later next rest tail,
          )
    ]

journal_ring-settled :
    (newest : CrossedCandidate) (wall monotonic : ℤ) (journal next : PersistentAlarmState)
    → journal_ring newest wall monotonic journal ≡ some next
    → (is_settled next newest ≡ true)
      × (next.terminal_high_watermarks ≡ journal.terminal_high_watermarks)
unfolding journal_ring begin_recovered_ring
journal_ring-settled newest wall monotonic journal next h =
    (ground (arith, bytes_eq_refl newest.occurrence_id), ground arith)

-- The whole batch settles its candidates.
pub journal_batch-settled :
    (state next : PersistentAlarmState) (older : List CrossedCandidate) (newest : CrossedCandidate)
    (rings : Bool) (wall monotonic : ℤ)
    → journal_batch state older newest rings wall monotonic ≡ some next
    → all (is_settled next) (older ++ (newest ∷ [])) ≡ true
unfolding journal_batch
journal_batch-settled state next older newest rings wall monotonic h =
    elim (Option-cases (journal_missed state older)) [
      | inl e ↦ ground arith
      | inr (journal, e) ↦
          let past = journal_missed-past state journal older e in
          elim (Bool-cases rings) [
            | inl r ↦
                let rung : journal_ring newest wall monotonic journal ≡ some next = ground arith in
                let (settled, same) =
                  journal_ring-settled newest wall monotonic journal next rung in
                rw all-append (
                  ground (
                    arith,
                    settled,
                    all_mono (is_past journal) (is_settled next) (λ x p. rw same (ground arith))
                        older past,
                  ))
            | inr r ↦
                let missed : journal_missed journal (newest ∷ []) ≡ some next = ground arith in
                rw all-append (
                  ground (
                    arith,
                    journal_missed-past journal next (newest ∷ []) missed,
                    all_mono (is_past journal) (is_settled next)
                        (λ x p.
                          ground
                            (arith, journal_missed-keeps journal next (newest ∷ []) x missed p))
                        older past,
                  ))
          ]
    ]

-- What was past stays past.
abbrev pub KeepsPast : PersistentAlarmState → PersistentAlarmState → Type 0
KeepsPast state next =
    (other : CrossedCandidate) → is_past state other ≡ true → is_past next other ≡ true

pub journal_batch-KeepsPast :
    (state next : PersistentAlarmState) (older : List CrossedCandidate) (newest : CrossedCandidate)
    (rings : Bool) (wall monotonic : ℤ)
    → journal_batch state older newest rings wall monotonic ≡ some next
    → KeepsPast state next
unfolding journal_batch
journal_batch-KeepsPast state next older newest rings wall monotonic h other p =
    elim (Option-cases (journal_missed state older)) [
      | inl e ↦ ground arith
      | inr (journal, e) ↦
          let past = journal_missed-keeps state journal older other e p in
          elim (Bool-cases rings) [
            | inl r ↦
                let rung : journal_ring newest wall monotonic journal ≡ some next = ground arith in
                let (settled, same) =
                  journal_ring-settled newest wall monotonic journal next rung in
                rw same past
            | inr r ↦
                let missed : journal_missed journal (newest ∷ []) ≡ some next = ground arith in
                journal_missed-keeps journal next (newest ∷ []) other missed past
          ]
    ]

-- The candidates are settled, and what was past still is.
abbrev pub Settles : PersistentAlarmState → List CrossedCandidate → PersistentAlarmState → Type 0
Settles state candidates next = (all (is_settled next) candidates ≡ true) × KeepsPast state next

pub split_newest-whole :
    (first : CrossedCandidate) (rest : List CrossedCandidate)
    → (split_newest first rest).0 ++ ((split_newest first rest).1 ∷ []) ≡ first ∷ rest
unfolding split_newest
split_newest-whole first [] = refl
split_newest-whole first (second ∷ rest) = ap (λ xs. first ∷ xs) (split_newest-whole second rest)

all-insert_candidate :
    (p : CrossedCandidate → Bool) (candidate : CrossedCandidate)
    (candidates : List CrossedCandidate)
    → all p (insert_candidate candidate candidates) ≡ (p candidate && all p candidates)
unfolding insert_candidate
all-insert_candidate p candidate [] = refl
all-insert_candidate p candidate (first ∷ rest) =
    ground (arith, all-insert_candidate p candidate rest)

pub all-sort_candidates :
    (p : CrossedCandidate → Bool) (candidates : List CrossedCandidate)
    → all p (sort_candidates candidates) ≡ all p candidates
unfolding sort_candidates
all-sort_candidates p [] = refl
all-sort_candidates p (first ∷ rest) =
    all-insert_candidate p first (sort_candidates rest)
    ∙ ap (λ b. p first && b) (all-sort_candidates p rest)

-- An alarm of which no occurrence is owed at a wall time: it is off, or not due yet; or its
-- occurrence had a terminal record before, or is at or below its watermark or active after.
abbrev pub is_answered :
    PersistentAlarmState → PersistentAlarmState → ℤ → StoredAlarmDefinition → Bool
is_answered before after wall alarm =
    let occurrence_id = make_occurrence_id (definition_of alarm) in
    not alarm.enabled
    || (ltb_ℤ wall alarm.scheduled_utc_seconds
        || (has_terminal before.terminal occurrence_id
            || (at_or_below (find_high_watermark after.terminal_high_watermarks alarm.id)
                  alarm.scheduled_utc_seconds
                || active_is after.active occurrence_id)))

answered_of :
    (enabled future terminal before after active : Bool)
    → (not (not enabled || future) && not (terminal || before)) ≡ false
    → (before ≡ true → after ≡ true)
    → (not enabled || (future || (terminal || (after || active)))) ≡ true
answered_of enabled future terminal before after active h k = ground arith

-- The collecting loop leaves out no alarm that is owed.
pub collected_answered :
    (before after : PersistentAlarmState) (wall : ℤ) (alarms : List StoredAlarmDefinition)
    → Settles before (collect_crossed before wall alarms) after
    → all (is_answered before after wall) alarms ≡ true
unfolding collect_crossed
collected_answered before after wall [] s = refl
collected_answered before after wall (alarm ∷ rest) s =
    let candidate : CrossedCandidate = record {
      alarm_id = alarm.id;
      occurrence_id = make_occurrence_id (definition_of alarm);
      scheduled_utc_seconds = alarm.scheduled_utc_seconds;
    } in
    let kept = s.1 candidate in
    elim (Bool-cases (is_crossed before wall alarm)) [
      | inl c ↦
          let (here, later) =
            and_parts (is_settled after candidate)
              (all (is_settled after) (collect_crossed before wall rest))
              (rw (collect_crossed, c) at s.0) in
          let answered = collected_answered before after wall rest (later, s.1) in
          and_both (is_answered before after wall alarm) _
            (or_right (not alarm.enabled) _ (
              or_right (ltb_ℤ wall alarm.scheduled_utc_seconds) _
                (or_right (has_terminal before.terminal candidate.occurrence_id) _ here)))
            answered
      | inr c ↦
          let answered =
            collected_answered before after wall rest (rw (collect_crossed, c) at s.0, s.1) in
          and_both (is_answered before after wall alarm) _
            (answered_of alarm.enabled (ltb_ℤ wall alarm.scheduled_utc_seconds)
              (has_terminal before.terminal candidate.occurrence_id) (is_past before candidate)
              (is_past after candidate) (active_is after.active candidate.occurrence_id) c kept)
            answered
    ]
