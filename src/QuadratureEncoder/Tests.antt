-- ===== src/QuadratureEncoder/Tests.antt =====
-- Runs of the decoder, and its theorems at concrete inputs.
use dawn_dock.Common.{◌≡◌, refl, arith, pos, ◌+ℤ◌, true, false, some, [], ◌∷◌}
use dawn_dock.QuadratureEncoder.{
  QuadratureEncoder, quadrature_step, sample_from, advance_progress, sample, after, total_turns,
}
use dawn_dock.QuadratureEncoder.Rotation.{
  IsValid, OneTurn, net, quad, sample-IsValid, total_turns-conserved,
}
use dawn_dock.QuadratureEncoder.Cycles.{forward, backward, minus, total_turns-cycles}

abbrev resting : QuadratureEncoder
resting = record { phase = some 0; progress = pos 0; was_pressed = false }

abbrev turning : QuadratureEncoder
turning = record { phase = some 3; progress = pos 3; was_pressed = false }

resting-IsValid : IsValid resting
resting-IsValid = record {
  above = omega arith;
  below = omega arith;
  phase_in = omega arith;
  unknown = λ e. refl;
}

turning-IsValid : IsValid turning
turning-IsValid = record {
  above = omega arith;
  below = omega arith;
  phase_in = omega arith;
  unknown = λ e. cc;
}

one_turn : total_turns resting (forward 1 false false) ≡ pos 1
unfolding total_turns sample sample_from quadrature_step advance_progress forward ◌+ℤ◌
one_turn = refl

sample-IsValid_example :
    IsValid (sample turning true false false).0 × OneTurn (sample turning true false false).1
sample-IsValid_example = sample-IsValid turning true false false turning-IsValid

total_turns-conserved_example :
    quad (total_turns resting ((false, true) ∷ (false, false) ∷ []))
      +ℤ (after resting ((false, true) ∷ (false, false) ∷ [])).progress
    ≡ pos 0 +ℤ net false false ((false, true) ∷ (false, false) ∷ [])
unfolding quadrature_step
total_turns-conserved_example =
    total_turns-conserved resting false false ((false, true) ∷ (false, false) ∷ []) (refl, refl)
      ((λ e. cc), ((λ e. cc), tt))

total_turns-cycles_example :
    (total_turns resting (forward 2 false false) ≡ pos 2)
    × (total_turns resting (backward 2 false false) ≡ minus 2)
total_turns-cycles_example =
    total_turns-cycles resting false false 2 resting-IsValid (refl, refl) refl
