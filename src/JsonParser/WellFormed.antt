-- ===== src/JsonParser/WellFormed.antt =====
-- `is_valid_utf8` of json_parser.cpp accepts what the table of well-formed byte sequences allows.
use dawn_dock.Common.{
  ℕ, suc, ◌+◌, ◌*◌, ◌%◌, ◌≡◌, ◌==◌, refl, arith, inl, inr, Bool, true, false, not, ltb, leb, ◌&&◌,
  some, if◌then◌else◌, List, [], ◌∷◌, Bytes, Bool-cases, Option-cases, and_parts, and_both, length,
}
use dawn_dock.JsonParser.Scalars.{
  is_between, lead_byte, is_valid_sequence, utf8_from, is_valid_utf8,
}
use dawn_dock.JsonParser.Utf8.{continuation, following_ranges, follows, is_utf8, is_valid_utf8-utf8}

-- The range of the second byte of three, and of four.
abbrev second_of_three : ℕ → ℕ × ℕ
second_of_three a = (if a == 224 then 160 else 128, if a == 237 then 159 else 191)

abbrev second_of_four : ℕ → ℕ × ℕ
second_of_four a = (if a == 240 then 144 else 128, if a == 244 then 143 else 191)

three_pass :
    (a b c : ℕ)
    → is_between 224 239 a ≡ true
    → is_between (second_of_three a).0 (second_of_three a).1 b ≡ true
    → is_between 128 191 c ≡ true
    → (is_between 128 191 b ≡ true)
      × (ltb ((a % 16 * 64 + b % 64) * 64 + c % 64) 2048 ≡ false)
      × (leb ((a % 16 * 64 + b % 64) * 64 + c % 64) 1114111 ≡ true)
      × (is_between 55296 57343 ((a % 16 * 64 + b % 64) * 64 + c % 64) ≡ false)
three_pass a b c h k l = (ground arith, ground arith, ground arith, ground arith)

four_pass :
    (a b c d : ℕ)
    → is_between 240 244 a ≡ true
    → is_between (second_of_four a).0 (second_of_four a).1 b ≡ true
    → is_between 128 191 c ≡ true
    → is_between 128 191 d ≡ true
    → (is_between 128 191 b ≡ true)
      × (ltb (((a % 8 * 64 + b % 64) * 64 + c % 64) * 64 + d % 64) 65536 ≡ false)
      × (leb (((a % 8 * 64 + b % 64) * 64 + c % 64) * 64 + d % 64) 1114111 ≡ true)
      × (is_between 55296 57343 (((a % 8 * 64 + b % 64) * 64 + c % 64) * 64 + d % 64) ≡ false)
four_pass a b c d h k l m = (ground arith, ground arith, ground arith, ground arith)

three_tests_pass :
    (b c low high surrogate : Bool)
    → b ≡ true
    → c ≡ true
    → low ≡ false
    → high ≡ true
    → surrogate ≡ false
    → ((b && (c && true)) && (not low && (high && not surrogate))) ≡ true
three_tests_pass b c low high surrogate p q r s t = ground arith

four_tests_pass :
    (b c d low high surrogate : Bool)
    → b ≡ true
    → c ≡ true
    → d ≡ true
    → low ≡ false
    → high ≡ true
    → surrogate ≡ false
    → ((b && (c && (d && true))) && (not low && (high && not surrogate))) ≡ true
four_tests_pass b c d low high surrogate p q u r s t = ground arith

sequence_two_pass :
    (a : ℕ) (rest : Bytes)
    → is_between 194 223 a ≡ true
    → follows (continuation ∷ []) rest ≡ true
    → is_valid_sequence 1 (a % 32) rest ≡ true
unfolding follows
sequence_two_pass a [] h r = ground arith
sequence_two_pass a (b ∷ rest) h r =
    let (k, later) = and_parts (is_between 128 191 b) (follows [] rest) r in ground arith

sequence_three_pass :
    (a : ℕ) (rest : Bytes)
    → is_between 224 239 a ≡ true
    → follows (second_of_three a ∷ continuation ∷ []) rest ≡ true
    → is_valid_sequence 2 (a % 16) rest ≡ true
unfolding follows
sequence_three_pass a [] h r = ground arith
sequence_three_pass a (b ∷ []) h r = ground arith
sequence_three_pass a (b ∷ c ∷ rest) h r =
    let (k, more) = and_parts (is_between (second_of_three a).0 (second_of_three a).1 b) _ r in
    let (l, later) = and_parts (is_between 128 191 c) (follows [] rest) more in
    let (p, low, high, surrogate) = three_pass a b c h k l in
    and_both (not (ltb (suc (suc (length rest))) 2)) _ (ground arith)
      (three_tests_pass _ (is_between 128 191 c) _ _ _ p l low high surrogate)

sequence_four_pass :
    (a : ℕ) (rest : Bytes)
    → is_between 240 244 a ≡ true
    → follows (second_of_four a ∷ continuation ∷ continuation ∷ []) rest ≡ true
    → is_valid_sequence 3 (a % 8) rest ≡ true
unfolding follows
sequence_four_pass a [] h r = ground arith
sequence_four_pass a (b ∷ []) h r = ground arith
sequence_four_pass a (b ∷ c ∷ []) h r = ground arith
sequence_four_pass a (b ∷ c ∷ d ∷ rest) h r =
    let (k, more) = and_parts (is_between (second_of_four a).0 (second_of_four a).1 b) _ r in
    let (l, most) = and_parts (is_between 128 191 c) _ more in
    let (m, later) = and_parts (is_between 128 191 d) (follows [] rest) most in
    let (p, low, high, surrogate) = four_pass a b c d h k l m in
    and_both (not (ltb (suc (suc (suc (length rest)))) 3)) _ (ground arith) (
      four_tests_pass _ (is_between 128 191 c) (is_between 128 191 d) _ _ _ p l m low high
        surrogate)

-- The rows of the table.
data Row (a : ℕ) (ranges : List (ℕ × ℕ)) : Type 0 where
  row_one : ltb a 128 ≡ true → ranges ≡ [] → Row a ranges
  row_two : is_between 194 223 a ≡ true → ranges ≡ continuation ∷ [] → Row a ranges
  row_three :
      is_between 224 239 a ≡ true → ranges ≡ second_of_three a ∷ continuation ∷ [] → Row a ranges
  row_four :
      is_between 240 244 a ≡ true
      → ranges ≡ second_of_four a ∷ continuation ∷ continuation ∷ []
      → Row a ranges

following_ranges-Row :
    (a : ℕ) (ranges : List (ℕ × ℕ)) → following_ranges a ≡ some ranges → Row a ranges
unfolding following_ranges
following_ranges-Row a ranges h = elim (Bool-cases (ltb a 128)) [
  | inl e ↦ row_one e (ground arith)
  | inr e ↦ elim (Bool-cases (is_between 194 223 a)) [
    | inl f ↦ row_two f (ground arith)
    | inr f ↦ elim (Bool-cases (is_between 224 239 a)) [
      | inl g ↦ row_three g (ground arith)
      | inr g ↦ row_four (ground arith) (ground arith)
    ]
  ]
]

sequence_passes :
    (a extra lead : ℕ) (rest : Bytes)
    → ltb a 128 ≡ false
    → lead_byte a ≡ some (extra, lead)
    → is_valid_sequence extra lead rest ≡ true
    → utf8_from extra rest ≡ true
    → utf8_from 0 (a ∷ rest) ≡ true
unfolding utf8_from
sequence_passes a extra lead rest e f v u =
    rw (utf8_from, e, f) (and_both (is_valid_sequence extra lead rest) _ v u)

-- One character, and what comes after it.
character_passes :
    (a : ℕ) (ranges : List (ℕ × ℕ)) (rest : Bytes)
    → Row a ranges
    → follows ranges rest ≡ true
    → utf8_from (length ranges) rest ≡ true
    → utf8_from 0 (a ∷ rest) ≡ true
unfolding utf8_from
character_passes a ranges rest (row_one h e) f u = rw (utf8_from, h) (rw e at u)
character_passes a ranges rest (row_two h e) f u =
    sequence_passes a 1 (a % 32) rest (ground arith) (rw h refl)
      (sequence_two_pass a rest h (rw e at f)) (rw e at u)
character_passes a ranges rest (row_three h e) f u =
    sequence_passes a 2 (a % 16) rest (ground arith) (ground arith)
      (sequence_three_pass a rest h (rw e at f)) (rw e at u)
character_passes a ranges rest (row_four h e) f u =
    sequence_passes a 3 (a % 8) rest (ground arith) (ground arith)
      (sequence_four_pass a rest h (rw e at f)) (rw e at u)

table_passes :
    (ranges : List (ℕ × ℕ)) (text : Bytes)
    → follows ranges text ≡ true
    → utf8_from (length ranges) text ≡ true
unfolding follows utf8_from
table_passes [] [] h = refl
table_passes (range ∷ ranges) [] h = refl
table_passes (range ∷ ranges) (b ∷ rest) h =
    table_passes ranges rest (and_parts (is_between range.0 range.1 b) (follows ranges rest) h).1
table_passes [] (a ∷ rest) h = elim (Option-cases (following_ranges a)) [
  | inl e ↦ ground arith
  | inr (ranges, e) ↦
      let found : follows ranges rest ≡ true = rw (follows, e) at h in
      character_passes a ranges rest (following_ranges-Row a ranges e) found
        (table_passes ranges rest found)
]

same_truth : (b c : Bool) → (b ≡ true → c ≡ true) → (c ≡ true → b ≡ true) → b ≡ c
same_truth true c h k = ground (arith, h refl)
same_truth false true h k = ground (arith, k refl)
same_truth false false h k = refl

-- `is_valid_utf8` accepts exactly the strings that are well-formed UTF-8 by the table of RFC 3629:
-- characters whose second byte leaves out the overlong forms, the surrogates and all above U+10FFFF.
pub is_valid_utf8-is_utf8 : (text : Bytes) → is_valid_utf8 text ≡ is_utf8 text
unfolding is_valid_utf8
is_valid_utf8-is_utf8 text =
    same_truth (is_valid_utf8 text) (is_utf8 text) (is_valid_utf8-utf8 text) (table_passes [] text)
