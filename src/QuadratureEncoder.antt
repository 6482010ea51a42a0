-- ===== src/QuadratureEncoder.antt =====
-- The rotary knob's decoder, firmware/components/alarm_core/quadrature_encoder.cpp.
mod Rotation
mod Cycles
mod Tests
use Prim.Native.Nat.{bit_or}
use dawn_dock.Common.{
  ℕ, zero, suc, ℤ, pos, negsuc, ◌+ℤ◌, eqb_ℤ, Bool, true, false, ◌||◌, Option, none, some, List, [],
  ◌∷◌, if◌then◌else◌,
}

-- `kStep[from][to]`, in the Gray order 00, 01, 11, 10.
pub quadrature_step : ℕ → ℕ → ℤ
quadrature_step zero zero = pos 0
quadrature_step zero (suc zero) = pos 1
quadrature_step zero (suc (suc zero)) = negsuc 0
quadrature_step zero to = pos 2
quadrature_step (suc zero) zero = negsuc 0
quadrature_step (suc zero) (suc zero) = pos 0
quadrature_step (suc zero) (suc (suc zero)) = pos 2
quadrature_step (suc zero) to = pos 1
quadrature_step (suc (suc zero)) zero = pos 1
quadrature_step (suc (suc zero)) (suc zero) = pos 2
quadrature_step (suc (suc zero)) (suc (suc zero)) = pos 0
quadrature_step (suc (suc zero)) to = negsuc 0
quadrature_step from zero = pos 2
quadrature_step from (suc zero) = negsuc 0
quadrature_step from (suc (suc zero)) = pos 1
quadrature_step from to = pos 0

pub record QuadratureEncoder : Type 0 where
  pub phase : Option ℕ
  pub progress : ℤ
  pub was_pressed : Bool

-- A default-constructed decoder.
abbrev pub fresh : QuadratureEncoder
fresh = record { phase = none; progress = pos 0; was_pressed = false }

abbrev pub phase_of : Bool → Bool → ℕ
phase_of a_high b_high = bit_or (if a_high then 2 else 0) (if b_high then 1 else 0)

-- The progress that a single-bit step makes, and the cycle that it may complete.
pub advance_progress : QuadratureEncoder → ℕ → ℤ → QuadratureEncoder × Option ℤ
advance_progress e phase progress =
    if eqb_ℤ progress (pos 4)
    then (record e { phase = some phase; progress = pos 0 }, some (pos 1))
    else if eqb_ℤ progress (negsuc 3)
    then (record e { phase = some phase; progress = pos 0 }, some (negsuc 0))
    else (record e { phase = some phase; progress = progress }, none)

-- `sample` behind its first test: the decoder has a phase to start from.
pub sample_from : QuadratureEncoder → ℕ → ℕ → Bool → QuadratureEncoder × Option ℤ
sample_from e from to pressed =
    if pressed
    then (record e { phase = some to; progress = pos 0; was_pressed = true }, none)
    else if e.was_pressed
    then (record e { phase = some to; progress = pos 0; was_pressed = false }, none)
    else if eqb_ℤ (quadrature_step from to) (pos 0)
    then (e, none)
    else if eqb_ℤ (quadrature_step from to) (pos 2) || eqb_ℤ (quadrature_step from to) (negsuc 1)
    then (record e { progress = pos 0; phase = some to }, none)
    else advance_progress e to (e.progress +ℤ quadrature_step from to)

pub sample : QuadratureEncoder → Bool → Bool → Bool → QuadratureEncoder × Option ℤ
unfolding sample_from
sample e a_high b_high pressed = elim e.phase [
  | none ↦ (record e { phase = some (phase_of a_high b_high); was_pressed = pressed }, none)
  | some from ↦ sample_from e from (phase_of a_high b_high) pressed
]

-- The turns that a sample reports, and their sum over a row of samples with the button up.
abbrev pub turns : Option ℤ → ℤ
turns none = pos 0
turns (some n) = n

pub after : QuadratureEncoder → List (Bool × Bool) → QuadratureEncoder
after e [] = e
after e ((a, b) ∷ later) = after (sample e a b false).0 later

pub total_turns : QuadratureEncoder → List (Bool × Bool) → ℤ
total_turns e [] = pos 0
total_turns e ((a, b) ∷ later) =
    turns (sample e a b false).1 +ℤ total_turns (sample e a b false).0 later
