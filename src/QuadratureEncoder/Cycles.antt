-- ===== src/QuadratureEncoder/Cycles.antt =====
-- Whole turns of the knob.
use dawn_dock.Common.{
  ℕ, zero, suc, ◌≡◌, refl, arith, ℤ, pos, negsuc, ◌+ℤ◌, ◌≤ℤ◌, int_laws, Bool, true, false, not,
  List, [], ◌∷◌, ap, ap₂, ◌∙◌, pos_part, neg_part,
}
use dawn_dock.QuadratureEncoder.{QuadratureEncoder, quadrature_step, sample, after, total_turns}
use dawn_dock.QuadratureEncoder.Rotation.{
  IsValid, AtPhase, quad, Smooth, net, sample-IsValid, total_turns-conserved,
}

-- `n` cycles in the Gray order 00, 01, 11, 10, from the phase `a b`.
unfoldable pub forward : ℕ → Bool → Bool → List (Bool × Bool)
forward zero a b = []
forward (suc n) a b = (b, not a) ∷ (not a, not b) ∷ (not b, a) ∷ (a, b) ∷ forward n a b

-- And in the reverse order.
unfoldable pub backward : ℕ → Bool → Bool → List (Bool × Bool)
backward zero a b = []
backward (suc n) a b = (not b, a) ∷ (not a, not b) ∷ (b, not a) ∷ (a, b) ∷ backward n a b

forward-Smooth : (n : ℕ) (a b : Bool) → Smooth a b (forward n a b)
unfolding forward quadrature_step
forward-Smooth zero a b = tt
forward-Smooth (suc n) true true = ground (arith, forward-Smooth n true true)
forward-Smooth (suc n) true false = ground (arith, forward-Smooth n true false)
forward-Smooth (suc n) false true = ground (arith, forward-Smooth n false true)
forward-Smooth (suc n) false false = ground (arith, forward-Smooth n false false)

after-IsValid : (e : QuadratureEncoder) (l : List (Bool × Bool)) → IsValid e → IsValid (after e l)
unfolding after
after-IsValid e [] v = v
after-IsValid e ((a, b) ∷ l) v =
    after-IsValid (sample e a b false).0 l (sample-IsValid e a b false v).0

backward-Smooth : (n : ℕ) (a b : Bool) → Smooth a b (backward n a b)
unfolding backward quadrature_step
backward-Smooth zero a b = tt
backward-Smooth (suc n) true true = ground (arith, backward-Smooth n true true)
backward-Smooth (suc n) true false = ground (arith, backward-Smooth n true false)
backward-Smooth (suc n) false true = ground (arith, backward-Smooth n false true)
backward-Smooth (suc n) false false = ground (arith, backward-Smooth n false false)

-- Four equal steps before the rest of a row.
abbrev four : ℤ → ℤ → ℤ
four step rest = step +ℤ (step +ℤ (step +ℤ (step +ℤ rest)))

net-forward-suc :
    (n : ℕ) (a b : Bool) → net a b (forward (suc n) a b) ≡ four (pos 1) (net a b (forward n a b))
unfolding forward net quadrature_step
net-forward-suc n true true = refl
net-forward-suc n true false = refl
net-forward-suc n false true = refl
net-forward-suc n false false = refl

net-backward-suc :
    (n : ℕ) (a b : Bool)
    → net a b (backward (suc n) a b) ≡ four (negsuc 0) (net a b (backward n a b))
unfolding backward net quadrature_step
net-backward-suc n true true = refl
net-backward-suc n true false = refl
net-backward-suc n false true = refl
net-backward-suc n false false = refl

abbrev pub minus : ℕ → ℤ
minus zero = pos 0
minus (suc n) = negsuc n

quad_zero : pos 0 ≡ quad (pos 0)
unfolding ◌+ℤ◌
quad_zero = refl

four-pos : (n : ℕ) → four (pos 1) (quad (pos n)) ≡ quad (pos (suc n))
four-pos n = omega int_laws

four-minus : (n : ℕ) → four (negsuc 0) (quad (minus n)) ≡ quad (minus (suc n))
four-minus zero = omega int_laws
four-minus (suc n) = omega int_laws

net-forward : (n : ℕ) (a b : Bool) → net a b (forward n a b) ≡ quad (pos n)
unfolding forward net
net-forward zero a b = quad_zero
net-forward (suc n) a b =
    net-forward-suc n a b ∙ (ap (four (pos 1)) (net-forward n a b) ∙ four-pos n)

net-backward : (n : ℕ) (a b : Bool) → net a b (backward n a b) ≡ quad (minus n)
unfolding backward net
net-backward zero a b = quad_zero
net-backward (suc n) a b =
    net-backward-suc n a b ∙ (ap (four (negsuc 0)) (net-backward n a b) ∙ four-minus n)

whole_turns : (t p z : ℤ) → negsuc 2 ≤ℤ p → p ≤ℤ pos 3 → quad t +ℤ p ≡ pos 0 +ℤ quad z → t ≡ z
whole_turns t p z lo hi h = omega (int_laws, ap pos_part h, ap neg_part h)

-- From a valid decoder that rests at a phase with no progress, `n` whole cycles in the Gray order
-- report `n` turns in all, and `n` whole cycles in the reverse order `n` turns back.
pub total_turns-cycles :
    (e : QuadratureEncoder) (a b : Bool) (n : ℕ)
    → IsValid e
    → AtPhase e a b
    → e.progress ≡ pos 0
    → (total_turns e (forward n a b) ≡ pos n) × (total_turns e (backward n a b) ≡ minus n)
total_turns-cycles e a b n v at rest =
    let f = after-IsValid e (forward n a b) v in
    let g = after-IsValid e (backward n a b) v in
    let p = total_turns-conserved e a b (forward n a b) at (forward-Smooth n a b) in
    let q = total_turns-conserved e a b (backward n a b) at (backward-Smooth n a b) in
    (
      whole_turns _ _ _ f.above f.below (p ∙ ap₂ ◌+ℤ◌ rest (net-forward n a b)),
      whole_turns _ _ _ g.above g.below (q ∙ ap₂ ◌+ℤ◌ rest (net-backward n a b)),
    )
