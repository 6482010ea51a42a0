-- ===== src/Common/Decimal.antt =====
-- `std::to_string` can be read back, and its digits are digits.
use Prim.Native.Nat.{ℕ, zero, suc, ◌+◌, ◌-◌, ◌*◌, ◌/◌, ◌^◌, ◌<◌}
use native.Mathlib.Nat.{pow-suc}
use mathlib.Core.Path.{◌≡◌, refl, ap, sym, ◌∙◌}
use mathlib.Core.Logic.{◌⊎◌, inl, inr}
use mathlib.Core.Bool.{Bool, true, false}
use mathlib.Core.List.{[], ◌∷◌, ◌++◌}
use native.Mathlib.Omega.{arith}
use dawn_dock.Common.Tests.{ltb, ◌==◌, Bool-cases}
use dawn_dock.Common.Int.{ℤ, pos, negsuc}
use dawn_dock.Common.Lists.{any, any-append}
use dawn_dock.Common.Strings.{Bytes, decimal, to_string, to_string_ℤ}

abbrev pub has_byte : ℕ → Bytes → Bool
has_byte c = any (λ b. b == c)

-- The number that a row of digits stands for.
value : ℕ → Bytes → ℕ
value acc [] = acc
value acc (d ∷ ds) = value (acc * 10 + (d - 48)) ds

value-append : (acc : ℕ) (xs ys : Bytes) → value acc (xs ++ ys) ≡ value (value acc xs) ys
unfolding value
value-append acc [] ys = refl
value-append acc (x ∷ xs) ys = value-append (acc * 10 + (x - 48)) xs ys

value-decimal : (fuel n : ℕ) → n < 10 ^ fuel → value 0 (decimal fuel n) ≡ n
unfolding decimal value
value-decimal zero n h = omega arith
value-decimal (suc fuel) n h = elim (Bool-cases (ltb n 10)) [
  | inl small ↦ rw small (ground arith)
  | inr large ↦
      rw
        (
          large,
          value-append 0 (decimal fuel (n / 10)),
          value-decimal fuel (n / 10) (omega (arith, pow-suc 10 fuel)),
        )
        (omega arith)
]

-- No byte that is not a digit.
pub has_byte-decimal : (c fuel n : ℕ) → (c < 48) ⊎ (57 < c) → has_byte c (decimal fuel n) ≡ false
unfolding decimal
has_byte-decimal c zero n h = refl
has_byte-decimal c (suc fuel) n h = elim (Bool-cases (ltb n 10)) [
  | inl small ↦ rw small (ground arith)
  | inr large ↦
      rw
        (
          large,
          any-append (λ b. b == c) (decimal fuel (n / 10)),
          has_byte-decimal c fuel (n / 10) h,
        )
        (ground arith)
]

pub to_string_inj : (m n : ℕ) → m < 10 ^ 20 → n < 10 ^ 20 → to_string m ≡ to_string n → m ≡ n
unfolding to_string
to_string_inj m n hm hn e = sym (value-decimal 20 m hm) ∙ (ap (value 0) e ∙ value-decimal 20 n hn)

minus_apart : (m n : ℕ) → ¬ (to_string m ≡ 45 ∷ to_string n)
unfolding to_string
minus_apart m n e = ground (arith, ap (has_byte 45) e, has_byte-decimal 45 20 m)

tail_inj : (c : ℕ) (xs ys : Bytes) → ◌≡◌ {A = Bytes} (c ∷ xs) (c ∷ ys) → xs ≡ ys
tail_inj c xs ys e = cc

-- The magnitude of an integer.
abbrev pub magnitude : ℤ → ℕ
magnitude (pos n) = n
magnitude (negsuc n) = suc n

pub to_string_ℤ_inj :
    (a b : ℤ)
    → magnitude a < 10 ^ 20
    → magnitude b < 10 ^ 20
    → to_string_ℤ a ≡ to_string_ℤ b
    → a ≡ b
unfolding to_string_ℤ
to_string_ℤ_inj (pos m) (pos n) hm hn e = ap pos (to_string_inj m n hm hn e)
to_string_ℤ_inj (pos m) (negsuc n) hm hn e = absurd (minus_apart m (suc n) e)
to_string_ℤ_inj (negsuc m) (pos n) hm hn e = absurd (minus_apart n (suc m) (sym e))
to_string_ℤ_inj (negsuc m) (negsuc n) hm hn e =
    let p = to_string_inj (suc m) (suc n) hm hn (tail_inj 45 _ _ e) in ground arith

pub has_byte-to_string : (c n : ℕ) → (c < 48) ⊎ (57 < c) → has_byte c (to_string n) ≡ false
unfolding to_string
has_byte-to_string c n h = has_byte-decimal c 20 n h

pub has_byte-to_string_ℤ :
    (c : ℕ) (z : ℤ) → (c < 45) ⊎ (57 < c) → has_byte c (to_string_ℤ z) ≡ false
unfolding to_string_ℤ
has_byte-to_string_ℤ c (pos n) h = has_byte-to_string c n (omega arith)
has_byte-to_string_ℤ c (negsuc n) h = ground (arith, has_byte-to_string c (suc n) (omega arith))

tails : (a b : ℕ) (xs ys : Bytes) → ◌≡◌ {A = Bytes} (a ∷ xs) (b ∷ ys) → (a ≡ b) × (xs ≡ ys)
tails a b xs ys e = ground arith

not_inside : (c : ℕ) (xs ys : Bytes) → has_byte c (xs ++ (c ∷ ys)) ≡ true
not_inside c xs ys = ground (arith, any-append (λ b. b == c) xs (c ∷ ys))

-- Two texts that are split at the last of a byte have the same parts.
pub split_inj :
    (c : ℕ) (xs xs' ys ys' : Bytes)
    → has_byte c ys ≡ false
    → has_byte c ys' ≡ false
    → xs ++ (c ∷ ys) ≡ xs' ++ (c ∷ ys')
    → (xs ≡ xs') × (ys ≡ ys')
split_inj c [] [] ys ys' h h' e = (refl, tail_inj c ys ys' e)
split_inj c [] (x ∷ xs') ys ys' h h' e =
    absurd (ground (arith, not_inside c xs' ys', tails c x ys (xs' ++ (c ∷ ys')) e))
split_inj c (x ∷ xs) [] ys ys' h h' e =
    absurd (ground (arith, not_inside c xs ys, tails x c (xs ++ (c ∷ ys)) ys' e))
split_inj c (x ∷ xs) (x' ∷ xs') ys ys' h h' e =
    let (p, q) = tails x x' (xs ++ (c ∷ ys)) (xs' ++ (c ∷ ys')) e in
    let (r, s) = split_inj c xs xs' ys ys' h h' q in (cc, s)
