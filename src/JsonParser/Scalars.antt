-- ===== src/JsonParser/Scalars.antt =====
-- The strings and numbers of json_parser.cpp. Bytes are written as their codes: 34 is the quote, 92
-- the backslash, 45 the minus sign, 48 to 57 the digits.
use dawn_dock.Common.{
  ℕ, zero, suc, ◌+◌, ◌-◌, ◌*◌, ◌/◌, ◌%◌, ◌^◌, ◌==◌, ltb, leb, ℤ, pos, negsuc, Bool, true, false,
  not, ◌&&◌, ◌||◌, [], ◌∷◌, ◌++◌, Option, none, some, if◌then◌else◌, length, drop, take, all, Bytes,
}
use dawn_dock.JsonParser.Types.{
  JsonParseCode, Outcome, done, failed, exhausted, and_then, json_maximum_string_bytes,
}

abbrev pub starts_with : ℕ → Bytes → Bool
starts_with c [] = false
starts_with c (first ∷ rest) = first == c

-- Blank, tabulator, line feed and carriage return.
abbrev pub is_ws : ℕ → Bool
is_ws c = (c == 32 || c == 9) || (c == 10 || c == 13)

unfoldable pub skip_ws : Bytes → Bytes
skip_ws [] = []
skip_ws (c ∷ rest) = let skipped = skip_ws rest in if is_ws c then skipped else c ∷ rest

abbrev pub is_between : ℕ → ℕ → ℕ → Bool
is_between low high c = leb low c && leb c high

abbrev pub hex_digit : ℕ → Option ℕ
hex_digit c =
    if is_between 48 57 c
    then some (c - 48)
    else if is_between 97 102 c
    then some (c - 97 + 10)
    else if is_between 65 70 c
    then some (c - 65 + 10)
    else none

-- The loop of `hex4`, for the digits that are left to read.
unfoldable pub hex_digits : ℕ → ℕ → Bytes → Option (ℕ × Bytes)
hex_digits zero value text = some (value, text)
hex_digits (suc n) value [] = none
hex_digits (suc n) value (c ∷ rest) = elim (hex_digit c) [
  | none ↦ none
  | some digit ↦ hex_digits n (value * 16 + digit) rest
]

unfoldable pub hex4 : Bytes → Option (ℕ × Bytes)
unfolding hex_digits
hex4 text = hex_digits 4 0 text

-- The bytes that `append_code_point` pushes.
unfoldable pub code_point_bytes : ℕ → Bytes
code_point_bytes cp =
    if ltb cp 128
    then cp ∷ []
    else if ltb cp 2048
    then (192 + cp / 64) ∷ (128 + cp % 64) ∷ []
    else if ltb cp 65536
    then (224 + cp / 4096) ∷ (128 + cp / 64 % 64) ∷ (128 + cp % 64) ∷ []
    else (240 + cp / 262144) ∷ (128 + cp / 4096 % 64) ∷ (128 + cp / 64 % 64) ∷ (128 + cp % 64) ∷ []

-- The test at the end of `parse_escape`.
abbrev pub within_limit : Bytes → Bytes → Bytes → Outcome Bytes
within_limit path out rest =
    if ltb json_maximum_string_bytes (length out)
    then failed JsonParseCode.string_limit path
    else done out rest

-- The digits of a low surrogate, behind the high one.
unfoldable pub parse_low_digits : Bytes → Bytes → ℕ → Bytes → Outcome Bytes
unfolding hex4 code_point_bytes
parse_low_digits path out high text = elim (hex4 text) [
  | none ↦ failed JsonParseCode.invalid_json path
  | some (low, rest) ↦
      if not (is_between 56320 57343 low)
      then failed JsonParseCode.invalid_json path
      else within_limit path
          (out ++ code_point_bytes (65536 + (high - 55296) * 1024 + (low - 56320))) rest
]

-- What has to follow a high surrogate.
unfoldable pub parse_low_surrogate : Bytes → Bytes → ℕ → Bytes → Outcome Bytes
unfolding parse_low_digits
parse_low_surrogate path out high text =
    if (ltb (length text) 6 || not (starts_with 92 text)) || not (starts_with 117 (drop 1 text))
    then failed JsonParseCode.invalid_json path
    else parse_low_digits path out high (drop 2 text)

-- The case `u` of `parse_escape`.
unfoldable pub parse_unicode : Bytes → Bytes → Bytes → Outcome Bytes
unfolding parse_low_surrogate
parse_unicode path out text = elim (hex4 text) [
  | none ↦ failed JsonParseCode.invalid_json path
  | some (cp, rest) ↦
      if is_between 55296 56319 cp
      then parse_low_surrogate path out cp rest
      else if is_between 56320 57343 cp
      then failed JsonParseCode.invalid_json path
      else within_limit path (out ++ code_point_bytes cp) rest
]

-- The character that a letter after the backslash stands for, but for `u`.
abbrev pub simple_escape : ℕ → Option ℕ
simple_escape e =
    if (e == 34 || e == 92) || e == 47
    then some e
    else if e == 98
    then some 8
    else if e == 102
    then some 12
    else if e == 110
    then some 10
    else if e == 114
    then some 13
    else if e == 116
    then some 9
    else none

-- From the character after the backslash on.
unfoldable pub parse_escape : Bytes → Bytes → Bytes → Outcome Bytes
unfolding parse_unicode
parse_escape path out [] = failed JsonParseCode.invalid_json path
parse_escape path out (e ∷ rest) =
    if e == 117 then parse_unicode path out rest else elim (simple_escape e) [
      | none ↦ failed JsonParseCode.invalid_json path
      | some c ↦ within_limit path (out ++ (c ∷ [])) rest
    ]

-- The number of continuation bytes that a lead byte announces, and its own bits.
abbrev pub lead_byte : ℕ → Option (ℕ × ℕ)
lead_byte b0 =
    if is_between 194 223 b0
    then some (1, b0 % 32)
    else if is_between 224 239 b0
    then some (2, b0 % 16)
    else if is_between 240 244 b0
    then some (3, b0 % 8)
    else none

-- The code point behind the continuation bytes.
abbrev pub continue_code_point : ℕ → Bytes → ℕ
continue_code_point cp [] = cp
continue_code_point cp (b ∷ rest) = continue_code_point (cp * 64 + b % 64) rest

-- The tests on a sequence of several bytes.
abbrev pub is_valid_sequence : ℕ → ℕ → Bytes → Bool
is_valid_sequence extra lead rest =
    let following = take extra rest in
    let cp = continue_code_point lead following in
    not (ltb (length rest) extra)
    && (all (is_between 128 191) following
        && (not (extra == 2 && ltb cp 2048)
            && (not (extra == 3 && ltb cp 65536)
                && (leb cp 1114111 && not (is_between 55296 57343 cp)))))

-- `is_valid_utf8`, with the continuation bytes that are still to be skipped.
unfoldable pub utf8_from : ℕ → Bytes → Bool
utf8_from skipped [] = true
utf8_from (suc skipped) (b ∷ rest) = utf8_from skipped rest
utf8_from zero (b0 ∷ rest) = if ltb b0 128 then utf8_from 0 rest else elim (lead_byte b0) [
  | none ↦ false
  | some (extra, lead) ↦ is_valid_sequence extra lead rest && utf8_from extra rest
]

unfoldable pub is_valid_utf8 : Bytes → Bool
unfolding utf8_from
is_valid_utf8 text = utf8_from 0 text

-- One turn of the loop of `parse_raw_string`, on a character that is not the closing quote.
unfoldable pub parse_piece : Bytes → Bytes → ℕ → Bytes → Outcome Bytes
unfolding parse_escape
parse_piece path out c rest =
    if c == 92
    then parse_escape path out rest
    else if ltb c 32
    then failed JsonParseCode.invalid_json path
    else within_limit path (out ++ (c ∷ [])) rest

-- The loop, and the test after it.
unfoldable pub parse_raw : ℕ → Bytes → Bytes → Bytes → Outcome Bytes
unfolding parse_piece is_valid_utf8
parse_raw zero path out text = exhausted
parse_raw (suc fuel) path out [] = failed JsonParseCode.invalid_json path
parse_raw (suc fuel) path out (c ∷ rest) =
    let later =
      and_then (parse_piece path out c rest) (λ next text. parse_raw fuel path next text) in
    if c == 34
    then (if is_valid_utf8 out then done out rest else failed JsonParseCode.invalid_json path)
    else later

-- From behind the opening quote on.
unfoldable pub parse_raw_string : Bytes → Bytes → Outcome Bytes
unfolding parse_raw
parse_raw_string path text = parse_raw (length text + 1) path [] text

abbrev pub is_digit : ℕ → Bool
is_digit c = is_between 48 57 c

abbrev pub starts_with_digit : Bytes → Bool
starts_with_digit [] = false
starts_with_digit (c ∷ rest) = is_digit c

-- The digits at the front, and the text behind them.
unfoldable pub span_digits : Bytes → Bytes × Bytes
span_digits [] = ([], [])
span_digits (c ∷ rest) =
    let (digits, after) = span_digits rest in
    if is_digit c then (c ∷ digits, after) else ([], c ∷ rest)

abbrev pub digits_value : ℕ → Bytes → ℕ
digits_value value [] = value
digits_value value (c ∷ rest) = digits_value (value * 10 + (c - 48)) rest

-- `std::from_chars` on the sign and the digits; `none` is out of range.
unfoldable pub from_chars : Bool → Bytes → Option ℤ
from_chars negative digits =
    let value = digits_value 0 digits in
    if negative
    then (if value == 0
        then some (pos 0)
        else if leb value (2 ^ 63)
        then some (negsuc (value - 1))
        else none)
    else if ltb value (2 ^ 63)
    then some (pos value)
    else none

-- `parse_number` from behind the digits on.
unfoldable pub finish_number : Bytes → Bool → Bytes → Bytes → Outcome ℤ
unfolding from_chars
finish_number path negative digits rest =
    if (starts_with 46 rest || starts_with 101 rest) || starts_with 69 rest
    then failed JsonParseCode.number_range path
    else elim (from_chars negative digits) [
      | none ↦ failed JsonParseCode.number_range path
      | some parsed ↦ done parsed rest
    ]

-- `parse_number` from behind the sign on.
unfoldable pub parse_unsigned : Bytes → Bool → Bytes → Outcome ℤ
unfolding finish_number span_digits
parse_unsigned path negative text =
    let (digits, rest) = span_digits text in
    if not (starts_with_digit text)
    then failed JsonParseCode.invalid_json path
    else if starts_with 48 text
    then (if starts_with_digit (drop 1 text)
        then failed JsonParseCode.invalid_json path
        else finish_number path negative (48 ∷ []) (drop 1 text))
    else finish_number path negative digits rest

unfoldable pub parse_number : Bytes → Bytes → Outcome ℤ
unfolding parse_unsigned
parse_number path text =
    if starts_with 45 text
    then parse_unsigned path true (drop 1 text)
    else parse_unsigned path false text
