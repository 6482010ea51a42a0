-- ===== src/ControlDebounce.antt =====
-- One debounced push input, firmware/components/alarm_core/control_debounce.cpp.
mod Press
mod Tests
use dawn_dock.Common.{
  ℕ, ◌+◌, ltb, ℤ, pos, ltb_ℤ, Bool, true, false, not, ◌&&◌, ◌||◌, Option, none, some, is_some,
  if◌then◌else◌, bool_eq, word64, sub64, List, [], ◌∷◌,
}

abbrev pub debounce_stable_milliseconds : ℕ
debounce_stable_milliseconds = 20

pub record ControlDebounce : Type 0 where
  pub stable_pressed : Option Bool
  pub candidate_pressed : Option Bool
  pub candidate_started_ms : ℤ

-- A default-constructed line.
abbrev pub fresh : ControlDebounce
fresh = record { stable_pressed = none; candidate_pressed = none; candidate_started_ms = pos 0 }

abbrev pub holds : Option Bool → Bool → Bool
holds none pressed = false
holds (some level) pressed = bool_eq level pressed

-- The new state of the line, and whether a press became stable.
pub sample : ControlDebounce → Bool → ℤ → ControlDebounce × Bool
sample d pressed now =
    if holds d.stable_pressed pressed
    then (record d { candidate_pressed = none }, false)
    else if not (is_some d.candidate_pressed)
        || (not (holds d.candidate_pressed pressed) || ltb_ℤ now d.candidate_started_ms)
    then (record d { candidate_pressed = some pressed; candidate_started_ms = now }, false)
    else if ltb (sub64 (word64 now) (word64 d.candidate_started_ms)) debounce_stable_milliseconds
    then (d, false)
    else (
      record d { stable_pressed = some pressed; candidate_pressed = none },
      is_some d.stable_pressed && pressed,
    )

-- The line after a history of samples, the latest first.
pub after : List (Bool × ℤ) → ControlDebounce
unfolding sample
after [] = fresh
after ((pressed, now) ∷ history) = (sample (after history) pressed now).0

-- How many presses a line reports over samples at the same level, the first sample first.
pub presses : ControlDebounce → Bool → List ℤ → ℕ
unfolding sample
presses d pressed [] = 0
presses d pressed (now ∷ later) =
    (if (sample d pressed now).1 then 1 else 0) + presses (sample d pressed now).0 pressed later
