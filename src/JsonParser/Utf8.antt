-- ===== src/JsonParser/Utf8.antt =====
-- `is_valid_utf8` of json_parser.cpp against the table of well-formed byte sequences.
use dawn_dock.Common.{
  ℕ, zero, suc, ◌+◌, ◌*◌, ◌%◌, ◌≡◌, ◌==◌, refl, arith, inl, inr, Bool, true, false, not, ltb, leb,
  ◌&&◌, Option, none, some, if◌then◌else◌, List, [], ◌∷◌, Bytes, Bool-cases, Option-cases,
  and_parts, and_both, drop,
}
use dawn_dock.JsonParser.Scalars.{
  is_between, lead_byte, is_valid_sequence, utf8_from, is_valid_utf8,
}

-- The ranges of the bytes that follow a lead byte (RFC 3629, section 4).
abbrev pub continuation : ℕ × ℕ
continuation = (128, 191)

unfoldable pub following_ranges : ℕ → Option (List (ℕ × ℕ))
following_ranges a =
    if leb a 127
    then some []
    else if is_between 194 223 a
    then some (continuation ∷ [])
    else if a == 224
    then some ((160, 191) ∷ continuation ∷ [])
    else if a == 237
    then some ((128, 159) ∷ continuation ∷ [])
    else if is_between 225 239 a
    then some (continuation ∷ continuation ∷ [])
    else if a == 240
    then some ((144, 191) ∷ continuation ∷ continuation ∷ [])
    else if is_between 241 243 a
    then some (continuation ∷ continuation ∷ continuation ∷ [])
    else if a == 244
    then some ((128, 143) ∷ continuation ∷ continuation ∷ [])
    else none

-- The text starts with bytes in those ranges, and goes on with well-formed characters.
unfoldable pub follows : List (ℕ × ℕ) → Bytes → Bool
unfolding following_ranges
follows [] [] = true
follows (range ∷ ranges) [] = false
follows (range ∷ ranges) (b ∷ rest) = is_between range.0 range.1 b && follows ranges rest
follows [] (a ∷ rest) = elim (following_ranges a) [
  | none ↦ false
  | some ranges ↦ follows ranges rest
]

abbrev pub is_utf8 : Bytes → Bool
is_utf8 text = follows [] text

two_follow :
    (a b : ℕ) (rest : Bytes)
    → is_between 194 223 a ≡ true
    → is_between 128 191 b ≡ true
    → follows [] rest ≡ true
    → follows [] (a ∷ b ∷ rest) ≡ true
unfolding follows following_ranges
two_follow a b rest h k r = ground arith

-- A second byte that is too low makes an overlong form, and one that is too high a surrogate or a
-- code point above the last one.
overlong_three :
    (b c : ℕ)
    → is_between 128 191 b ≡ true
    → is_between 128 191 c ≡ true
    → ltb ((224 % 16 * 64 + b % 64) * 64 + c % 64) 2048 ≡ false
    → is_between 160 191 b ≡ true
overlong_three b c k l o = ground arith

surrogate_three :
    (b c : ℕ)
    → is_between 128 191 b ≡ true
    → is_between 128 191 c ≡ true
    → is_between 55296 57343 ((237 % 16 * 64 + b % 64) * 64 + c % 64) ≡ false
    → is_between 128 159 b ≡ true
surrogate_three b c k l s = ground arith

overlong_four :
    (b c d : ℕ)
    → is_between 128 191 b ≡ true
    → is_between 128 191 c ≡ true
    → is_between 128 191 d ≡ true
    → ltb (((240 % 8 * 64 + b % 64) * 64 + c % 64) * 64 + d % 64) 65536 ≡ false
    → is_between 144 191 b ≡ true
overlong_four b c d k l m o = ground arith

too_high_four :
    (b c d : ℕ)
    → is_between 128 191 b ≡ true
    → is_between 128 191 c ≡ true
    → is_between 128 191 d ≡ true
    → leb (((244 % 8 * 64 + b % 64) * 64 + c % 64) * 64 + d % 64) 1114111 ≡ true
    → is_between 128 143 b ≡ true
too_high_four b c d k l m s = ground arith

following_three :
    (a : ℕ)
    → is_between 224 239 a ≡ true
    → (a == 224) ≡ false
    → (a == 237) ≡ false
    → following_ranges a ≡ some (continuation ∷ continuation ∷ [])
unfolding following_ranges
following_three a h e f = ground arith

following_four :
    (a : ℕ)
    → is_between 240 244 a ≡ true
    → (a == 240) ≡ false
    → (a == 244) ≡ false
    → following_ranges a ≡ some (continuation ∷ continuation ∷ continuation ∷ [])
unfolding following_ranges
following_four a h e f = ground arith

other_three :
    (a b c : ℕ) (rest : Bytes)
    → is_between 224 239 a ≡ true
    → (a == 224) ≡ false
    → (a == 237) ≡ false
    → is_between 128 191 b ≡ true
    → is_between 128 191 c ≡ true
    → follows [] rest ≡ true
    → follows [] (a ∷ b ∷ c ∷ rest) ≡ true
unfolding follows following_ranges
other_three a b c rest h e f k l r =
    rw (follows, following_three a h e f)
      (and_both (is_between 128 191 b) _ k (and_both (is_between 128 191 c) _ l r))

other_four :
    (a b c d : ℕ) (rest : Bytes)
    → is_between 240 244 a ≡ true
    → (a == 240) ≡ false
    → (a == 244) ≡ false
    → is_between 128 191 b ≡ true
    → is_between 128 191 c ≡ true
    → is_between 128 191 d ≡ true
    → follows [] rest ≡ true
    → follows [] (a ∷ b ∷ c ∷ d ∷ rest) ≡ true
unfolding follows following_ranges
other_four a b c d rest h e f k l m r =
    rw (follows, following_four a h e f)
      (and_both (is_between 128 191 b) _ k
        (and_both (is_between 128 191 c) _ l (and_both (is_between 128 191 d) _ m r)))

three_follow :
    (a b c : ℕ) (rest : Bytes)
    → is_between 224 239 a ≡ true
    → is_between 128 191 b ≡ true
    → is_between 128 191 c ≡ true
    → ltb ((a % 16 * 64 + b % 64) * 64 + c % 64) 2048 ≡ false
    → is_between 55296 57343 ((a % 16 * 64 + b % 64) * 64 + c % 64) ≡ false
    → follows [] rest ≡ true
    → follows [] (a ∷ b ∷ c ∷ rest) ≡ true
unfolding follows following_ranges
three_follow a b c rest h k l o s r = elim (Bool-cases (a == 224)) [
  | inl e ↦
      let is : a ≡ 224 = ground arith in
      rw is (
        and_both (is_between 160 191 b) _ (overlong_three b c k l (rw is at o))
          (and_both (is_between 128 191 c) _ l r))
  | inr e ↦ elim (Bool-cases (a == 237)) [
    | inl f ↦
        let is : a ≡ 237 = ground arith in
        rw is (
          and_both (is_between 128 159 b) _ (surrogate_three b c k l (rw is at s))
            (and_both (is_between 128 191 c) _ l r))
    | inr f ↦ other_three a b c rest h e f k l r
  ]
]

four_follow :
    (a b c d : ℕ) (rest : Bytes)
    → is_between 240 244 a ≡ true
    → is_between 128 191 b ≡ true
    → is_between 128 191 c ≡ true
    → is_between 128 191 d ≡ true
    → ltb (((a % 8 * 64 + b % 64) * 64 + c % 64) * 64 + d % 64) 65536 ≡ false
    → leb (((a % 8 * 64 + b % 64) * 64 + c % 64) * 64 + d % 64) 1114111 ≡ true
    → follows [] rest ≡ true
    → follows [] (a ∷ b ∷ c ∷ d ∷ rest) ≡ true
unfolding follows following_ranges
four_follow a b c d rest h k l m o s r = elim (Bool-cases (a == 240)) [
  | inl e ↦
      let is : a ≡ 240 = ground arith in
      rw is (
        and_both (is_between 144 191 b) _ (overlong_four b c d k l m (rw is at o))
          (and_both (is_between 128 191 c) _ l (and_both (is_between 128 191 d) _ m r)))
  | inr e ↦ elim (Bool-cases (a == 244)) [
    | inl f ↦
        let is : a ≡ 244 = ground arith in
        rw is (
          and_both (is_between 128 143 b) _ (too_high_four b c d k l m (rw is at s))
            (and_both (is_between 128 191 c) _ l (and_both (is_between 128 191 d) _ m r)))
    | inr f ↦ other_four a b c d rest h e f k l m r
  ]
]

three_tests :
    (short b c low high surrogate : Bool)
    → (not short && ((b && (c && true)) && (not low && (high && not surrogate)))) ≡ true
    → (b ≡ true) × (c ≡ true) × (low ≡ false) × (surrogate ≡ false)
three_tests short b c low high surrogate h = ground arith

four_tests :
    (short b c d low high surrogate : Bool)
    → (not short && ((b && (c && (d && true))) && (not low && (high && not surrogate)))) ≡ true
    → (b ≡ true) × (c ≡ true) × (d ≡ true) × (low ≡ false) × (high ≡ true)
four_tests short b c d low high surrogate h = ground arith

sequence_two :
    (a lead : ℕ) (rest : Bytes)
    → is_between 194 223 a ≡ true
    → is_valid_sequence 1 lead rest ≡ true
    → follows [] (drop 1 rest) ≡ true
    → follows [] (a ∷ rest) ≡ true
sequence_two a lead [] h v r = ground arith
sequence_two a lead (b ∷ rest) h v r = two_follow a b rest h (ground arith) r

sequence_three :
    (a : ℕ) (rest : Bytes)
    → is_between 224 239 a ≡ true
    → is_valid_sequence 2 (a % 16) rest ≡ true
    → follows [] (drop 2 rest) ≡ true
    → follows [] (a ∷ rest) ≡ true
sequence_three a [] h v r = ground arith
sequence_three a (b ∷ []) h v r = ground arith
sequence_three a (b ∷ c ∷ rest) h v r =
    let (k, l, o, s) = three_tests _ (is_between 128 191 b) (is_between 128 191 c) _ _ _ v in
    three_follow a b c rest h k l o s r

sequence_four :
    (a : ℕ) (rest : Bytes)
    → is_between 240 244 a ≡ true
    → is_valid_sequence 3 (a % 8) rest ≡ true
    → follows [] (drop 3 rest) ≡ true
    → follows [] (a ∷ rest) ≡ true
sequence_four a [] h v r = ground arith
sequence_four a (b ∷ []) h v r = ground arith
sequence_four a (b ∷ c ∷ []) h v r = ground arith
sequence_four a (b ∷ c ∷ d ∷ rest) h v r =
    let (k, l, m, o, s) =
      four_tests _ (is_between 128 191 b) (is_between 128 191 c) (is_between 128 191 d) _ _ _ v in
    four_follow a b c d rest h k l m o s r

-- The three kinds of lead byte.
data Leads (a extra lead : ℕ) : Type 0 where
  leads_two : is_between 194 223 a ≡ true → extra ≡ 1 → Leads a extra lead
  leads_three : is_between 224 239 a ≡ true → extra ≡ 2 → lead ≡ a % 16 → Leads a extra lead
  leads_four : is_between 240 244 a ≡ true → extra ≡ 3 → lead ≡ a % 8 → Leads a extra lead

lead_byte-Leads : (a extra lead : ℕ) → lead_byte a ≡ some (extra, lead) → Leads a extra lead
lead_byte-Leads a extra lead f = elim (Bool-cases (is_between 194 223 a)) [
  | inl e ↦ leads_two e (ground arith)
  | inr e ↦ elim (Bool-cases (is_between 224 239 a)) [
    | inl g ↦ leads_three g (ground arith) (ground arith)
    | inr g ↦ elim (Bool-cases (is_between 240 244 a)) [
      | inl k ↦ leads_four k (ground arith) (ground arith)
      | inr k ↦ ground arith
    ]
  ]
]

sequence_follows :
    (a extra lead : ℕ) (rest : Bytes)
    → Leads a extra lead
    → is_valid_sequence extra lead rest ≡ true
    → follows [] (drop extra rest) ≡ true
    → follows [] (a ∷ rest) ≡ true
sequence_follows a extra lead rest (leads_two e n) v r =
    sequence_two a lead rest e (rw n at v) (rw n at r)
sequence_follows a extra lead rest (leads_three e n l) v r =
    sequence_three a rest e (rw (n, l) at v) (rw n at r)
sequence_follows a extra lead rest (leads_four e n l) v r =
    sequence_four a rest e (rw (n, l) at v) (rw n at r)

skipped_follows :
    (skipped : ℕ) (text : Bytes)
    → utf8_from skipped text ≡ true
    → follows [] (drop skipped text) ≡ true
unfolding utf8_from follows
skipped_follows zero [] h = refl
skipped_follows (suc skipped) [] h = refl
skipped_follows (suc skipped) (b ∷ rest) h = skipped_follows skipped rest h
skipped_follows zero (a ∷ rest) h = elim (Bool-cases (ltb a 128)) [
  | inl e ↦ ground (arith, skipped_follows zero rest)
  | inr e ↦ elim (Option-cases (lead_byte a)) [
    | inl f ↦ ground arith
    | inr ((extra, lead), f) ↦
        let (valid, later) =
          and_parts (is_valid_sequence extra lead rest) (utf8_from extra rest)
            (rw (utf8_from, e, f) at h) in
        sequence_follows a extra lead rest (lead_byte-Leads a extra lead f) valid
          (skipped_follows extra rest later)
  ]
]

pub is_valid_utf8-utf8 : (text : Bytes) → is_valid_utf8 text ≡ true → is_utf8 text ≡ true
unfolding is_valid_utf8
is_valid_utf8-utf8 text h = skipped_follows 0 text h
