-- ===== src/Common/Keys.antt =====
-- Lists whose entries have different keys.
use Prim.Native.Nat.{ℕ, zero, suc}
use mathlib.Core.Path.{◌≡◌}
use mathlib.Core.Bool.{false}
use mathlib.Core.List.{List, [], ◌∷◌, ◌++◌}
use native.Mathlib.Omega.{arith}
use dawn_dock.Common.Lists.{drop, any, any-append}
use dawn_dock.Common.Strings.{Bytes, bytes_eq, bytes_eq_iff}

module _ {ℓ} {A : Type ℓ} (key : A → Bytes) where
  -- No later entry has the key of an earlier one.
  abbrev pub DistinctBy : List A → Type 0
  DistinctBy [] = Unit
  DistinctBy (x ∷ xs) = (any (λ y. bytes_eq (key y) (key x)) xs ≡ false) × DistinctBy xs

  pub DistinctBy-drop : (n : ℕ) (xs : List A) → DistinctBy xs → DistinctBy (drop n xs)
  DistinctBy-drop zero xs d = d
  DistinctBy-drop (suc n) [] d = d
  DistinctBy-drop (suc n) (x ∷ xs) d = DistinctBy-drop n xs d.1

  pub DistinctBy-append :
      (xs : List A) (x : A)
      → DistinctBy xs
      → any (λ y. bytes_eq (key y) (key x)) xs ≡ false
      → DistinctBy (xs ++ (x ∷ []))
  DistinctBy-append [] x d h = ground arith
  DistinctBy-append (y ∷ ys) x d h = ground (
    arith,
    any-append (λ z. bytes_eq (key z) (key y)) ys (x ∷ []),
    bytes_eq_iff (key x) (key y),
    bytes_eq_iff (key y) (key x),
    DistinctBy-append ys x d.1,
  )
