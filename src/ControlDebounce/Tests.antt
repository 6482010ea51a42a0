-- ===== src/ControlDebounce/Tests.antt =====
-- Runs of the debouncer, and its theorems at concrete inputs.
use dawn_dock.Common.{
  ◌≤◌, ◌≡◌, ◌↔◌, refl, arith, ℤ, pos, negsuc, ◌-ℤ◌, ◌≤ℤ◌, true, false, some, [], ◌∷◌, Bool, List,
}
use dawn_dock.ControlDebounce.{ControlDebounce, sample, after, presses}
use dawn_dock.ControlDebounce.Press.{Held, press-Held, sample-press, presses-held}

-- Released for 20 ms, then pressed; the latest sample first.
abbrev before_press : List (Bool × ℤ)
before_press = (true, pos 45) ∷ (true, pos 30) ∷ (false, pos 20) ∷ (false, pos 0) ∷ []

reports_press : (sample (after before_press) true (pos 50)).1 ≡ true
unfolding sample after
reports_press = refl

press-Held_example :
    (since : ℤ) × Held true since ((true, pos 50) ∷ before_press)
    × (pos 20 ≤ℤ pos 50 -ℤ since)
    × ((after before_press).stable_pressed ≡ some false)
press-Held_example = press-Held before_press true (pos 50) (omega arith) reports_press

abbrev ready : ControlDebounce
ready = record {
  stable_pressed = some false;
  candidate_pressed = some true;
  candidate_started_ms = negsuc 9;
}

sample-press_example : ((sample ready true (pos 10)).1 ≡ true) ↔ (
    (true ≡ true)
    × (some false ≡ some false)
    × (some true ≡ some true)
    × (pos 20 ≤ℤ pos 10 -ℤ negsuc 9))
sample-press_example = sample-press ready true (pos 10) (omega arith) (omega arith)

presses-held_example : presses ready true (pos 5 ∷ pos 10 ∷ pos 40 ∷ pos 80 ∷ []) ≤ 1
presses-held_example = presses-held ready (pos 5 ∷ pos 10 ∷ pos 40 ∷ pos 80 ∷ [])
