-- ===== src/QuadratureEncoder/Rotation.antt =====
-- What the decoder reports of a rotation.
use dawn_dock.Common.{
  ℕ, ◌<◌, ◌≡◌, ◌≢◌, refl, arith, ℤ, pos, negsuc, ◌+ℤ◌, ◌≤ℤ◌, int_laws, Bool, true, false, Option,
  none, some, List, [], ◌∷◌, ◌⊎◌, inl, inr, eqb_ℤ_iff, ap, pos_part, neg_part, Option-cases,
}
use dawn_dock.QuadratureEncoder.{
  QuadratureEncoder, phase_of, quadrature_step, advance_progress, sample_from, sample, turns, after,
  total_turns,
}

abbrev pub PhaseIn : Option ℕ → Type 0
PhaseIn none = Unit
PhaseIn (some p) = p < 4

-- The phase is one of the four, less than a whole cycle is in progress, and none before the first
-- phase is known.
pub record IsValid (e : QuadratureEncoder) : Type 0 where
  pub above : negsuc 2 ≤ℤ e.progress
  pub below : e.progress ≤ℤ pos 3
  pub phase_in : PhaseIn e.phase
  pub unknown : e.phase ≡ none → e.progress ≡ pos 0

phase_of-lt : (a b : Bool) → phase_of a b < 4
phase_of-lt true true = omega arith
phase_of-lt true false = omega arith
phase_of-lt false true = omega arith
phase_of-lt false false = omega arith

quadrature_step_range :
    (from to : ℕ)
    → (quadrature_step from to ≡ pos 0)
      ⊎ (quadrature_step from to ≡ pos 1)
      ⊎ (quadrature_step from to ≡ negsuc 0)
      ⊎ (quadrature_step from to ≡ pos 2)
unfolding quadrature_step
quadrature_step_range from to = ground arith

-- No step between two of the four phases is one between a phase and itself, and only that.
quadrature_step_same :
    (from to : ℕ) → from < 4 → to < 4 → quadrature_step from to ≡ pos 0 → from ≡ to
unfolding quadrature_step
quadrature_step_same from to hf ht h = ground arith

abbrev pub OneTurn : Option ℤ → Type 0
OneTurn r = (r ≡ none) ⊎ (r ≡ some (pos 1)) ⊎ (r ≡ some (negsuc 0))

sample_from-IsValid :
    (e : QuadratureEncoder) (from to : ℕ) (pressed : Bool)
    → IsValid e
    → e.phase ≡ some from
    → to < 4
    → IsValid (sample_from e from to pressed).0 × OneTurn (sample_from e from to pressed).1
unfolding sample_from advance_progress ◌+ℤ◌
sample_from-IsValid e from to pressed v known h = elim (quadrature_step_range from to) [
  | inl s ↦ ground arith
  | inr (inl s) ↦ ground arith
  | inr (inr (inl s)) ↦ ground arith
  | inr (inr (inr s)) ↦ ground arith
]

-- A valid decoder stays valid through every sample, and each sample reports at most one turn.
pub sample-IsValid :
    (e : QuadratureEncoder) (a b pressed : Bool)
    → IsValid e
    → IsValid (sample e a b pressed).0 × OneTurn (sample e a b pressed).1
unfolding sample
sample-IsValid e a b pressed v = elim (Option-cases e.phase) [
  | inl unknown ↦
      rw (unknown, sample)
        (
          record {
            above = ground arith;
            below = ground arith;
            phase_in = phase_of-lt a b;
            unknown = λ p. cc;
          },
          inl refl,
        )
  | inr (from, known) ↦
      rw (known, sample)
        (sample_from-IsValid e from (phase_of a b) pressed v known (phase_of-lt a b))
]

-- From whatever state, a sample with the button down reports nothing, and so does the first sample
-- with the button up again, which drops all progress and takes its phase as the reference.
pub sample-pressed :
    (e : QuadratureEncoder) (a b a' b' : Bool)
    → ((sample e a b true).1 ≡ none)
      × ((sample (sample e a b true).0 a' b' false).1 ≡ none)
      × ((sample (sample e a b true).0 a' b' false).0.phase ≡ some (phase_of a' b'))
      × ((sample (sample e a b true).0 a' b' false).0.was_pressed ≡ false)
      × (e.phase ≢ none → (sample (sample e a b true).0 a' b' false).0.progress ≡ pos 0)
unfolding sample sample_from
sample-pressed e a b a' b' = ground arith

-- The decoder rests with the button up at the phase of these two levels.
abbrev pub AtPhase : QuadratureEncoder → Bool → Bool → Type 0
AtPhase e a b = (e.phase ≡ some (phase_of a b)) × (e.was_pressed ≡ false)

abbrev pub quad : ℤ → ℤ
quad z = (z +ℤ z) +ℤ (z +ℤ z)

zero-+ℤ : (z : ℤ) → pos 0 +ℤ z ≡ z
unfolding ◌+ℤ◌
zero-+ℤ z = ground arith

+ℤ-zero : (z : ℤ) → z +ℤ pos 0 ≡ z
unfolding ◌+ℤ◌
+ℤ-zero z = ground arith

advance_conserved :
    (e : QuadratureEncoder) (to : ℕ) (p : ℤ)
    → ((advance_progress e to p).0.phase ≡ some to)
      × ((advance_progress e to p).0.was_pressed ≡ e.was_pressed)
      × (quad (turns (advance_progress e to p).1) +ℤ (advance_progress e to p).0.progress ≡ p)
unfolding advance_progress ◌+ℤ◌
advance_conserved e to p = ground (arith, eqb_ℤ_iff p (pos 4), eqb_ℤ_iff p (negsuc 3))

-- A step of one bit or none, from a known phase with the button up.
step_conserved :
    (e : QuadratureEncoder) (from to : ℕ)
    → from < 4
    → to < 4
    → e.phase ≡ some from
    → e.was_pressed ≡ false
    → quadrature_step from to ≢ pos 2
    → ((sample_from e from to false).0.phase ≡ some to)
      × ((sample_from e from to false).0.was_pressed ≡ false)
      × (quad (turns (sample_from e from to false).1) +ℤ (sample_from e from to false).0.progress
          ≡ e.progress +ℤ quadrature_step from to)
unfolding sample_from
step_conserved e from to hf ht known up smooth =
    let same = quadrature_step_same from to hf ht in
    let adv = advance_conserved e to (e.progress +ℤ quadrature_step from to) in
    elim (quadrature_step_range from to) [
      | inl s ↦ ground (arith, same, zero-+ℤ (pos 0), zero-+ℤ e.progress, +ℤ-zero e.progress)
      | inr (inl s) ↦ ground (arith, adv)
      | inr (inr (inl s)) ↦ ground (arith, adv)
      | inr (inr (inr s)) ↦ absurd (smooth s)
    ]

-- No sample of the row jumps over a phase.
abbrev pub Smooth : Bool → Bool → List (Bool × Bool) → Type 0
Smooth a b [] = Unit
Smooth a b ((c, d) ∷ later) =
    (quadrature_step (phase_of a b) (phase_of c d) ≢ pos 2) × Smooth c d later

-- The steps of a row, added up.
unfoldable pub net : Bool → Bool → List (Bool × Bool) → ℤ
net a b [] = pos 0
net a b ((c, d) ∷ later) = quadrature_step (phase_of a b) (phase_of c d) +ℤ net c d later

sample-known :
    (e : QuadratureEncoder) (from : ℕ) (a b : Bool)
    → e.phase ≡ some from
    → sample e a b false ≡ sample_from e from (phase_of a b) false
unfolding sample
sample-known e from a b h = ground arith

sample_conserved :
    (e : QuadratureEncoder) (a b c d : Bool)
    → AtPhase e a b
    → quadrature_step (phase_of a b) (phase_of c d) ≢ pos 2
    → AtPhase (sample e c d false).0 c d
      × (quad (turns (sample e c d false).1) +ℤ (sample e c d false).0.progress
          ≡ e.progress +ℤ quadrature_step (phase_of a b) (phase_of c d))
sample_conserved e a b c d at s =
    let (phase, up, kept) =
      step_conserved e (phase_of a b) (phase_of c d) (phase_of-lt a b) (phase_of-lt c d) at.0 at.1
        s in
    rw (sample-known e (phase_of a b) c d at.0) ((phase, up), kept)

conserved_chain :
    (turn rest mid last first step more : ℤ)
    → quad turn +ℤ mid ≡ first +ℤ step
    → quad rest +ℤ last ≡ mid +ℤ more
    → quad (turn +ℤ rest) +ℤ last ≡ first +ℤ (step +ℤ more)
conserved_chain turn rest mid last first step more h k =
    omega (int_laws, ap pos_part h, ap neg_part h, ap pos_part k, ap neg_part k)

-- Over a row of samples that jumps over no phase, four times the turns that are reported and the
-- progress that is left make up the steps of the row and the progress before it: no step is lost
-- and none is made up, whatever the bounces.
pub total_turns-conserved :
    (e : QuadratureEncoder) (a b : Bool) (l : List (Bool × Bool))
    → AtPhase e a b
    → Smooth a b l
    → quad (total_turns e l) +ℤ (after e l).progress ≡ e.progress +ℤ net a b l
unfolding total_turns after net
total_turns-conserved e a b [] at s = omega int_laws
total_turns-conserved e a b ((c, d) ∷ later) at s =
    let (there, kept) = sample_conserved e a b c d at s.0 in
    conserved_chain _ _ _ _ _ _ _ kept
      (total_turns-conserved (sample e c d false).0 c d later there s.1)
