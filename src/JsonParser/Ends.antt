-- ===== src/JsonParser/Ends.antt =====
-- How much text the strings and numbers of json_parser.cpp leave, and that their loops end.
use dawn_dock.Common.{
  ℕ, zero, suc, ◌+◌, ◌-◌, ◌*◌, inl, inr, ◌≡◌, refl, arith, ltb, leb, Bool, true, false, not, ◌||◌,
  [], ◌∷◌, ◌++◌, Option, none, some, Option-cases, if◌then◌else◌, length, drop, length-drop, Bytes,
}
use dawn_dock.JsonParser.Types.{
  JsonParseCode, Outcome, done, failed, exhausted, and_then, json_maximum_string_bytes,
}
use dawn_dock.JsonParser.Scalars.{
  starts_with, skip_ws, hex_digit, hex_digits, hex4, code_point_bytes, parse_low_digits,
  parse_low_surrogate, parse_unicode, simple_escape, parse_escape, parse_piece, parse_raw,
  parse_raw_string, span_digits, finish_number, within_limit, parse_unsigned, parse_number,
  is_between, from_chars,
}

-- The outcome is no exhausted loop, and leaves at most `n` bytes.
abbrev pub ends_within {ℓ} : {A : Type ℓ} → ℕ → Outcome A → Bool
ends_within n (done x rest) = leb (length rest) n
ends_within n (failed code path) = true
ends_within n exhausted = false

pub and_then-within {ℓ} :
    {A B : Type ℓ} (m n : ℕ) (o : Outcome A) (f : A → Bytes → Outcome B)
    → ends_within m o ≡ true
    → ((x : A) (rest : Bytes) → leb (length rest) m ≡ true → ends_within n (f x rest) ≡ true)
    → ends_within n (and_then o f) ≡ true
and_then-within m n (done x rest) f h k = k x rest h
and_then-within m n (failed code path) f h k = refl
and_then-within m n exhausted f h k = ground arith

pub within_more {ℓ} :
    {A : Type ℓ} (m n : ℕ) (o : Outcome A)
    → ends_within m o ≡ true
    → leb m n ≡ true
    → ends_within n o ≡ true
within_more m n (done x rest) h k = ground arith
within_more m n (failed code path) h k = refl
within_more m n exhausted h k = ground arith

pub length-skip_ws : (text : Bytes) → leb (length (skip_ws text)) (length text) ≡ true
unfolding skip_ws
length-skip_ws [] = refl
length-skip_ws (c ∷ rest) = ground (arith, length-skip_ws rest)

length-hex_digits :
    (n value read : ℕ) (text rest : Bytes)
    → hex_digits n value text ≡ some (read, rest)
    → leb (length rest) (length text) ≡ true
unfolding hex_digits
length-hex_digits zero value read text rest h = ground arith
length-hex_digits (suc n) value read [] rest h = ground arith
length-hex_digits (suc n) value read (c ∷ text) rest h = elim (Option-cases (hex_digit c)) [
  | inl e ↦ ground arith
  | inr (digit, e) ↦ ground (arith, length-hex_digits n (value * 16 + digit) read text rest)
]

pub length-drop_le : (k : ℕ) (text : Bytes) → leb (length (drop k text)) (length text) ≡ true
length-drop_le k text = let e = length-drop k text in ground arith

length-hex4 :
    (text rest : Bytes) (value : ℕ)
    → hex4 text ≡ some (value, rest)
    → leb (length rest) (length text) ≡ true
unfolding hex4
length-hex4 text rest value h = length-hex_digits 4 0 value text rest h

pub if-within {ℓ} :
    {A : Type ℓ} (n : ℕ) (b : Bool) (x y : Outcome A)
    → ends_within n x ≡ true
    → ends_within n y ≡ true
    → ends_within n (if b then x else y) ≡ true
if-within n true x y h k = h
if-within n false x y h k = k

within_limit-within :
    (n : ℕ) (path out rest : Bytes)
    → leb (length rest) n ≡ true
    → ends_within n (within_limit path out rest) ≡ true
within_limit-within n path out rest h =
    if-within n (ltb json_maximum_string_bytes (length out))
      (failed JsonParseCode.string_limit path) (done out rest) refl h

parse_low_digits-within :
    (path out : Bytes) (high : ℕ) (text : Bytes)
    → ends_within (length text) (parse_low_digits path out high text) ≡ true
unfolding parse_low_digits
parse_low_digits-within path out high text = read (hex4 text) refl
  where
    read :
        (o : Option (ℕ × Bytes))
        → hex4 text ≡ o
        → ends_within (length text) (elim o [
          | none ↦ failed JsonParseCode.invalid_json path
          | some (low, rest) ↦
              if not (is_between 56320 57343 low)
              then failed JsonParseCode.invalid_json path
              else within_limit path
                  (out ++ code_point_bytes (65536 + (high - 55296) * 1024 + (low - 56320)))
                  rest
        ])
          ≡ true
    read none e = refl
    read (some (low, rest)) e =
        let pushed = out ++ code_point_bytes (65536 + (high - 55296) * 1024 + (low - 56320)) in
        if-within (length text) (not (is_between 56320 57343 low))
          (failed JsonParseCode.invalid_json path) (within_limit path pushed rest) refl
          (within_limit-within (length text) path pushed rest (length-hex4 text rest low e))

parse_low_surrogate-within :
    (path out : Bytes) (high : ℕ) (text : Bytes)
    → ends_within (length text) (parse_low_surrogate path out high text) ≡ true
unfolding parse_low_surrogate
parse_low_surrogate-within path out high text =
    let digits = drop 2 text in
    if-within (length text)
      ((ltb (length text) 6 || not (starts_with 92 text)) || not (starts_with 117 (drop 1 text)))
      (failed JsonParseCode.invalid_json path) (parse_low_digits path out high digits) refl
      (within_more (length digits) (length text) (parse_low_digits path out high digits)
        (parse_low_digits-within path out high digits) (length-drop_le 2 text))

parse_unicode-within :
    (path out text : Bytes) → ends_within (length text) (parse_unicode path out text) ≡ true
unfolding parse_unicode
parse_unicode-within path out text = read (hex4 text) refl
  where
    read :
        (o : Option (ℕ × Bytes))
        → hex4 text ≡ o
        → ends_within (length text) (elim o [
          | none ↦ failed JsonParseCode.invalid_json path
          | some (cp, rest) ↦
              if is_between 55296 56319 cp
              then parse_low_surrogate path out cp rest
              else if is_between 56320 57343 cp
              then failed JsonParseCode.invalid_json path
              else within_limit path (out ++ code_point_bytes cp) rest
        ])
          ≡ true
    read none e = refl
    read (some (cp, rest)) e =
        let shorter = length-hex4 text rest cp e in
        let pushed = out ++ code_point_bytes cp in
        let low = parse_low_surrogate path out cp rest in
        let plain = within_limit path pushed rest in
        let refused : Outcome Bytes = failed JsonParseCode.invalid_json path in
        if-within (length text) (is_between 55296 56319 cp) low
          (if is_between 56320 57343 cp then refused else plain)
          (within_more (length rest) (length text) low (parse_low_surrogate-within path out cp rest)
            shorter)
          (if-within (length text) (is_between 56320 57343 cp) refused plain refl
            (within_limit-within (length text) path pushed rest shorter))

parse_escape-within :
    (path out text : Bytes) → ends_within (length text) (parse_escape path out text) ≡ true
unfolding parse_escape
parse_escape-within path out [] = refl
parse_escape-within path out (e ∷ rest) =
    let u =
      within_more (length rest) (length (e ∷ rest)) (parse_unicode path out rest)
        (parse_unicode-within path out rest) (ground arith) in
    elim (Option-cases (simple_escape e)) [
      | inl f ↦ ground (arith, u)
      | inr (c, f) ↦ ground (arith, u)
    ]

parse_piece-within :
    (path out : Bytes) (c : ℕ) (rest : Bytes)
    → ends_within (length rest) (parse_piece path out c rest) ≡ true
unfolding parse_piece
parse_piece-within path out c rest = ground (arith, parse_escape-within path out rest)

parse_raw-within :
    (fuel : ℕ) (path out text : Bytes)
    → ltb (length text) fuel ≡ true
    → ends_within (length text) (parse_raw fuel path out text) ≡ true
unfolding parse_raw
parse_raw-within zero path out text h = ground arith
parse_raw-within (suc fuel) path out [] h = refl
parse_raw-within (suc fuel) path out (c ∷ rest) h =
    let later =
      and_then-within (length rest) (suc (length rest)) (parse_piece path out c rest)
        (λ next text. parse_raw fuel path next text) (parse_piece-within path out c rest)
        (λ next text l.
          within_more (length text) (suc (length rest)) (parse_raw fuel path next text)
            (parse_raw-within fuel path next text (ground arith)) (ground arith)) in
    ground (arith, later)

pub parse_raw_string-within :
    (path text : Bytes) → ends_within (length text) (parse_raw_string path text) ≡ true
unfolding parse_raw_string
parse_raw_string-within path text = parse_raw-within (length text + 1) path [] text (ground arith)

length-span_digits : (text : Bytes) → leb (length (span_digits text).1) (length text) ≡ true
unfolding span_digits
length-span_digits [] = refl
length-span_digits (c ∷ rest) = ground (arith, length-span_digits rest)

finish_number-within :
    (path : Bytes) (negative : Bool) (digits rest : Bytes)
    → ends_within (length rest) (finish_number path negative digits rest) ≡ true
unfolding finish_number
finish_number-within path negative digits rest = elim (Option-cases (from_chars negative digits)) [
  | inl e ↦ ground arith
  | inr (parsed, e) ↦ ground arith
]

parse_unsigned-within :
    (path : Bytes) (negative : Bool) (text : Bytes)
    → ends_within (length text) (parse_unsigned path negative text) ≡ true
unfolding parse_unsigned
parse_unsigned-within path negative text =
    let (digits, rest) = span_digits text in
    let behind =
      within_more (length rest) (length text) (finish_number path negative digits rest)
        (finish_number-within path negative digits rest) (length-span_digits text) in
    let zeroed =
      within_more (length (drop 1 text)) (length text)
        (finish_number path negative (48 ∷ []) (drop 1 text))
        (finish_number-within path negative (48 ∷ []) (drop 1 text))
        (ground (arith, length-drop 1 text)) in
    ground (arith, behind, zeroed)

pub parse_number-within :
    (path text : Bytes) → ends_within (length text) (parse_number path text) ≡ true
unfolding parse_number
parse_number-within path text =
    let signed =
      within_more (length (drop 1 text)) (length text) (parse_unsigned path true (drop 1 text))
        (parse_unsigned-within path true (drop 1 text)) (ground (arith, length-drop 1 text)) in
    ground (arith, signed, parse_unsigned-within path false text)
