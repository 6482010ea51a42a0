-- ===== src/JsonParser/Limits.antt =====
-- The limits that an accepted value of json_parser.cpp keeps: on its scalars.
use dawn_dock.Common.{
  ℕ, zero, suc, ◌+◌, ◌-◌, ◌*◌, ◌≡◌, inl, inr, refl, arith, ◌==◌, leb, ℤ, leb_ℤ, int64_min,
  int64_max, Bool, true, false, not, ◌&&◌, [], ◌∷◌, ◌++◌, some, Option-cases, Bool-cases,
  if◌then◌else◌, length, drop, Bytes,
}
use dawn_dock.JsonParser.Types.{
  JsonParseCode, Outcome, done, failed, exhausted, and_then, json_maximum_string_bytes,
}
use dawn_dock.JsonParser.Scalars.{
  hex4, is_between, code_point_bytes, within_limit, parse_low_digits, parse_low_surrogate,
  parse_unicode, simple_escape, parse_escape, parse_piece, parse_raw, parse_raw_string, from_chars,
  finish_number, parse_unsigned, parse_number, span_digits,
}
use dawn_dock.JsonParser.Utf8.{is_utf8, is_valid_utf8-utf8}

-- Whatever the outcome returns passes the test.
abbrev pub yields {ℓ} : {A : Type ℓ} → (A → Bool) → Outcome A → Bool
yields p (done x rest) = p x
yields p (failed code path) = true
yields p exhausted = true

abbrev pub any_value {ℓ} : {A : Type ℓ} → A → Bool
any_value x = true

pub any-yields {ℓ} : {A : Type ℓ} (o : Outcome A) → yields any_value o ≡ true
any-yields (done x rest) = refl
any-yields (failed code path) = refl
any-yields exhausted = refl

pub and_then-yields {ℓ} :
    {A B : Type ℓ} (p : A → Bool) (q : B → Bool) (o : Outcome A) (f : A → Bytes → Outcome B)
    → yields p o ≡ true
    → ((x : A) (rest : Bytes) → p x ≡ true → yields q (f x rest) ≡ true)
    → yields q (and_then o f) ≡ true
and_then-yields p q (done x rest) f h k = k x rest h
and_then-yields p q (failed code path) f h k = refl
and_then-yields p q exhausted f h k = refl

pub if-yields {ℓ} :
    {A : Type ℓ} (p : A → Bool) (b : Bool) (x y : Outcome A)
    → yields p x ≡ true
    → yields p y ≡ true
    → yields p (if b then x else y) ≡ true
if-yields p true x y h k = h
if-yields p false x y h k = k

abbrev pub is_short : Bytes → Bool
is_short text = leb (length text) json_maximum_string_bytes

-- A string that the parser accepts.
abbrev pub is_string : Bytes → Bool
is_string text = is_short text && is_utf8 text

abbrev pub is_int64 : ℤ → Bool
is_int64 n = leb_ℤ int64_min n && leb_ℤ n int64_max

within_limit-short : (path out rest : Bytes) → yields is_short (within_limit path out rest) ≡ true
within_limit-short path out rest = ground arith

parse_low_digits-short :
    (path out : Bytes) (high : ℕ) (text : Bytes)
    → yields is_short (parse_low_digits path out high text) ≡ true
unfolding parse_low_digits
parse_low_digits-short path out high text = elim (Option-cases (hex4 text)) [
  | inl e ↦ ground arith
  | inr ((low, rest), e) ↦
      let pushed = out ++ code_point_bytes (65536 + (high - 55296) * 1024 + (low - 56320)) in
      rw (parse_low_digits, e)
        (if-yields is_short (not (is_between 56320 57343 low))
          (failed JsonParseCode.invalid_json path) (within_limit path pushed rest) refl
          (within_limit-short path pushed rest))
]

parse_unicode-short : (path out text : Bytes) → yields is_short (parse_unicode path out text) ≡ true
unfolding parse_unicode parse_low_surrogate
parse_unicode-short path out text = elim (Option-cases (hex4 text)) [
  | inl e ↦ ground arith
  | inr ((cp, rest), e) ↦
      let pushed = out ++ code_point_bytes cp in
      ground (
        arith,
        parse_low_digits-short path out cp (drop 2 rest),
        within_limit-short path pushed rest,
      )
]

parse_piece-short :
    (path out : Bytes) (c : ℕ) (rest : Bytes) → yields is_short (parse_piece path out c rest) ≡ true
unfolding parse_piece parse_escape
parse_piece-short path out c [] = ground arith
parse_piece-short path out c (e ∷ rest) = elim (Option-cases (simple_escape e)) [
  | inl f ↦ ground (arith, parse_unicode-short path out rest)
  | inr (letter, f) ↦ ground (arith, parse_unicode-short path out rest)
]

parse_raw-string :
    (fuel : ℕ) (path out text : Bytes)
    → is_short out ≡ true
    → yields is_string (parse_raw fuel path out text) ≡ true
unfolding parse_raw
parse_raw-string zero path out text h = refl
parse_raw-string (suc fuel) path out [] h = refl
parse_raw-string (suc fuel) path out (c ∷ rest) h =
    let later =
      and_then-yields is_short is_string (parse_piece path out c rest)
        (λ next text. parse_raw fuel path next text) (parse_piece-short path out c rest)
        (λ next text l. parse_raw-string fuel path next text l) in
    elim (Bool-cases (c == 34)) [
      | inr e ↦ rw e later
      | inl e ↦ ground (arith, e, h, is_valid_utf8-utf8 out)
    ]

pub parse_raw_string-string :
    (path text : Bytes) → yields is_string (parse_raw_string path text) ≡ true
unfolding parse_raw_string
parse_raw_string-string path text = parse_raw-string (length text + 1) path [] text refl

from_chars-int64 :
    (negative : Bool) (digits : Bytes) (n : ℤ)
    → from_chars negative digits ≡ some n
    → is_int64 n ≡ true
unfolding from_chars
from_chars-int64 negative digits n h = ground arith

finish_number-int64 :
    (path : Bytes) (negative : Bool) (digits rest : Bytes)
    → yields is_int64 (finish_number path negative digits rest) ≡ true
unfolding finish_number
finish_number-int64 path negative digits rest = elim (Option-cases (from_chars negative digits)) [
  | inl e ↦ ground arith
  | inr (n, e) ↦ ground (arith, from_chars-int64 negative digits n e)
]

parse_unsigned-int64 :
    (path : Bytes) (negative : Bool) (text : Bytes)
    → yields is_int64 (parse_unsigned path negative text) ≡ true
unfolding parse_unsigned
parse_unsigned-int64 path negative text =
    let (digits, rest) = span_digits text in
    ground (
      arith,
      finish_number-int64 path negative digits rest,
      finish_number-int64 path negative (48 ∷ []) (drop 1 text),
    )

pub parse_number-int64 : (path text : Bytes) → yields is_int64 (parse_number path text) ≡ true
unfolding parse_number
parse_number-int64 path text =
    ground
      (arith, parse_unsigned-int64 path true (drop 1 text), parse_unsigned-int64 path false text)
