-- ===== src/JsonParser/Returns.antt =====
-- The loops over members and elements of json_parser.cpp end: none of them runs out of the fuel that
-- it is given, since each turn leaves less text.
use dawn_dock.Common.{
  ℕ, zero, suc, ◌+◌, inl, inr, ◌≡◌, refl, arith, ◌==◌, ltb, leb, Bool, true, false, not, [], ◌∷◌,
  ◌++◌, some, is_some, Option-cases, Bool-cases, if◌then◌else◌, length, drop, Bytes, to_string,
  codes,
}
use dawn_dock.JsonParser.Types.{
  JsonValue, JsonMembers, JsonElements, JsonParseCode, Outcome, done, failed, exhausted, and_then,
  json_maximum_depth, json_maximum_nodes, boolean, null_value, no_members, no_elements, object,
  array, string, integer,
}
use dawn_dock.JsonParser.Scalars.{starts_with, skip_ws, parse_raw_string, parse_number}
use dawn_dock.JsonParser.Values.{
  ValueParser, has_member, literal, parse_literal, parse_separator, parse_member_value,
  parse_member, parse_members, parse_object, parse_elements, parse_array, parse_dispatch,
  parse_value, parse, parse_json, result_of, add_element, add_member, Counted,
}
use dawn_dock.JsonParser.Ends.{
  ends_within, and_then-within, within_more, length-skip_ws, length-drop_le, if-within,
  parse_raw_string-within, parse_number-within,
}

length-literal :
    (expected text rest : Bytes)
    → literal expected text ≡ some rest
    → leb (length rest) (length text) ≡ true
unfolding literal
length-literal [] text rest h = ground arith
length-literal (c ∷ expected) [] rest h = ground arith
length-literal (c ∷ expected) (first ∷ text) rest h =
    ground (arith, length-literal expected text rest)

parse_literal-within :
    (expected : Bytes) (value : JsonValue) (nodes : ℕ) (path text : Bytes)
    → ends_within (length text) (parse_literal expected value nodes path text) ≡ true
unfolding parse_literal
parse_literal-within expected value nodes path text = elim (Option-cases (literal expected text)) [
  | inl e ↦ ground arith
  | inr (rest, e) ↦ ground (arith, length-literal expected text rest e)
]

-- Whether or not another value follows, the separator is consumed.
parse_separator-within :
    (n closing : ℕ) (path text : Bytes)
    → leb (length text) (suc n) ≡ true
    → ends_within n (parse_separator closing path text) ≡ true
unfolding parse_separator
parse_separator-within n closing path text h = read (skip_ws text) (length-skip_ws text)
  where
    read :
        (left : Bytes)
        → leb (length left) (length text) ≡ true
        → ends_within n (elim left [
          | [] ↦ failed JsonParseCode.invalid_json path
          | c ∷ rest ↦
              if c == 44
              then done true rest
              else if c == closing
              then done false rest
              else failed JsonParseCode.invalid_json path
        ])
          ≡ true
    read [] l = refl
    read (c ∷ rest) l = ground arith

length-drop_ws : (k : ℕ) (text : Bytes) → leb (length (drop k (skip_ws text))) (length text) ≡ true
length-drop_ws k text =
    let shorter = length-drop_le k (skip_ws text) in
    let skipped = length-skip_ws text in ground arith

empty_text {ℓ} : (text : Bytes) → leb (length text) 0 ≡ true → (P : Bytes → Type ℓ) → P [] → P text
empty_text [] h P p = p
empty_text (c ∷ rest) h P p = ground arith

module _ (child : ValueParser)
    (child-within : (nodes : ℕ) (path text : Bytes)
      → ends_within (length text) (child nodes path text) ≡ true) where
  child_ws :
      (n nodes : ℕ) (path text : Bytes)
      → leb (length text) n ≡ true
      → ends_within n (child nodes path (skip_ws text)) ≡ true
  child_ws n nodes path text h =
      let shorter = length-skip_ws text in
      within_more (length (skip_ws text)) n (child nodes path (skip_ws text))
        (child-within nodes path (skip_ws text)) (ground arith)

  parse_member_value-within :
      (n : ℕ) (path : Bytes) (so_far : JsonMembers) (nodes : ℕ) (key text : Bytes)
      → leb (length text) n ≡ true
      → ends_within n (parse_member_value child path so_far nodes key text) ≡ true
  unfolding parse_member_value
  parse_member_value-within n path so_far nodes key text h =
      let child_path = path ++ (47 ∷ key) in
      and_then-within n n (child nodes child_path (skip_ws text))
        (λ read after.
          if has_member so_far key
          then failed JsonParseCode.duplicate_key child_path
          else done (add_member so_far key read.0, read.1) after)
        (child_ws n nodes child_path text h)
        (λ read after l.
          if-within n (has_member so_far key) (failed JsonParseCode.duplicate_key child_path)
            (done (add_member so_far key read.0, read.1) after) refl l)

  parse_member-within :
      (path : Bytes) (so_far : JsonMembers) (nodes : ℕ) (text : Bytes)
      → ends_within (length text) (parse_member child path so_far nodes text) ≡ true
  unfolding parse_member
  parse_member-within path so_far nodes text =
      let refused : Outcome (JsonMembers × ℕ) = failed JsonParseCode.invalid_json path in
      let quoted = drop 1 (skip_ws text) in
      let n = length text in
      let rest_of : Bytes → Bytes → Outcome (JsonMembers × ℕ) = λ key after.
        if not (starts_with 58 (skip_ws after))
        then refused
        else parse_member_value child path so_far nodes key (drop 1 (skip_ws after)) in
      if-within n (not (starts_with 34 (skip_ws text))) refused
        (and_then (parse_raw_string path quoted) rest_of) refl
        (and_then-within n n (parse_raw_string path quoted) rest_of
          (within_more (length quoted) n (parse_raw_string path quoted)
            (parse_raw_string-within path quoted) (length-drop_ws 1 text))
          (λ key after l.
            let value_text = drop 1 (skip_ws after) in
            let shorter = length-drop_ws 1 after in
            if-within n (not (starts_with 58 (skip_ws after))) refused
              (parse_member_value child path so_far nodes key value_text) refl
              (parse_member_value-within n path so_far nodes key value_text (ground arith))))

  parse_members-within :
      (fuel : ℕ) (path : Bytes) (so_far : JsonMembers) (nodes : ℕ) (text : Bytes)
      → ltb (length text) fuel ≡ true
      → ends_within (length text) (parse_members child fuel path so_far nodes text) ≡ true
  unfolding parse_members parse_member skip_ws
  parse_members-within zero path so_far nodes text h = ground arith
  parse_members-within (suc fuel) path so_far nodes [] h = refl
  parse_members-within (suc fuel) path so_far nodes (c ∷ text) h =
      let n = suc (length text) in
      let turn : JsonMembers × ℕ → Bool → Bytes → Outcome Counted = λ read goes_on rest.
        if goes_on
        then parse_members child fuel path read.0 read.1 rest
        else done (object read.0, read.1) rest in
      and_then-within n n (parse_member child path so_far nodes (c ∷ text))
        (λ read after. and_then (parse_separator 125 path after) (turn read))
        (parse_member-within path so_far nodes (c ∷ text))
        (λ read after l.
          and_then-within (length text) n (parse_separator 125 path after) (turn read)
            (parse_separator-within (length text) 125 path after l)
            (λ goes_on rest k.
              if-within n goes_on (parse_members child fuel path read.0 read.1 rest)
                (done (object read.0, read.1) rest)
                (within_more (length rest) n (parse_members child fuel path read.0 read.1 rest)
                  (parse_members-within fuel path read.0 read.1 rest (ground arith)) (ground arith))
                (ground arith)))

  parse_object-within :
      (nodes : ℕ) (path text : Bytes)
      → ends_within (length text) (parse_object child nodes path text) ≡ true
  unfolding parse_object
  parse_object-within nodes path text =
      let left = skip_ws text in
      let shorter = length-skip_ws text in
      let loop = parse_members child (length text + 1) path no_members nodes left in
      if-within (length text) (starts_with 125 left) (done (object no_members, nodes) (drop 1 left))
        loop (length-drop_ws 1 text)
        (within_more (length left) (length text) loop
          (parse_members-within (length text + 1) path no_members nodes left (ground arith))
          shorter)

  -- A loop over elements that is given no text fails at its first separator.
  parse_elements-within :
      (fuel : ℕ) (path : Bytes) (index : ℕ) (so_far : JsonElements) (nodes : ℕ) (text : Bytes)
      → ltb (length text) fuel ≡ true
      → ends_within (length text) (parse_elements child fuel path index so_far nodes text) ≡ true
  unfolding parse_elements parse_separator skip_ws
  parse_elements-within zero path index so_far nodes text h = ground arith
  parse_elements-within (suc fuel) path index so_far nodes [] h =
      let child_path = path ++ (47 ∷ to_string index) in
      and_then-within 0 0 (child nodes child_path [])
        (λ read after. and_then (parse_separator 93 path after) (λ goes_on rest.
          if goes_on
          then parse_elements child fuel path (index + 1) (add_element so_far read.0) read.1 rest
          else done (array (add_element so_far read.0), read.1) rest))
        (child-within nodes child_path [])
        (λ read after l.
          empty_text after l
            (λ left.
              ends_within 0 (
                and_then (parse_separator 93 path left) (λ goes_on rest.
                  if goes_on
                  then parse_elements child fuel path (index + 1) (add_element so_far read.0) read.1
                      rest
                  else done (array (add_element so_far read.0), read.1) rest))
              ≡ true)
            refl)
  parse_elements-within (suc fuel) path index so_far nodes (c ∷ text) h =
      let n = suc (length text) in
      let child_path = path ++ (47 ∷ to_string index) in
      let turn : Counted → Bool → Bytes → Outcome Counted = λ read goes_on rest.
        if goes_on
        then parse_elements child fuel path (index + 1) (add_element so_far read.0) read.1 rest
        else done (array (add_element so_far read.0), read.1) rest in
      and_then-within n n (child nodes child_path (skip_ws (c ∷ text)))
        (λ read after. and_then (parse_separator 93 path after) (turn read))
        (child_ws n nodes child_path (c ∷ text) (ground arith))
        (λ read after l.
          and_then-within (length text) n (parse_separator 93 path after) (turn read)
            (parse_separator-within (length text) 93 path after l)
            (λ goes_on rest k.
              let next = add_element so_far read.0 in
              let later = parse_elements child fuel path (index + 1) next read.1 rest in
              if-within n goes_on later (done (array next, read.1) rest)
                (within_more (length rest) n later
                  (parse_elements-within fuel path (index + 1) next read.1 rest (ground arith))
                  (ground arith))
                (ground arith)))

  parse_array-within :
      (nodes : ℕ) (path text : Bytes)
      → ends_within (length text) (parse_array child nodes path text) ≡ true
  unfolding parse_array
  parse_array-within nodes path text =
      let left = skip_ws text in
      let shorter = length-skip_ws text in
      let loop = parse_elements child (length text + 1) path 0 no_elements nodes left in
      if-within (length text) (starts_with 93 left) (done (array no_elements, nodes) (drop 1 left))
        loop (length-drop_ws 1 text)
        (within_more (length left) (length text) loop
          (parse_elements-within (length text + 1) path 0 no_elements nodes left (ground arith))
          shorter)

  parse_dispatch-within :
      (nodes : ℕ) (path : Bytes) (c : ℕ) (rest : Bytes)
      → ends_within (suc (length rest)) (parse_dispatch child nodes path c rest) ≡ true
  unfolding parse_dispatch
  parse_dispatch-within nodes path c rest =
      let n = length rest in
      let an_object =
        within_more n (suc n) (parse_object child nodes path rest)
          (parse_object-within nodes path rest) (ground arith) in
      let an_array =
        within_more n (suc n) (parse_array child nodes path rest)
          (parse_array-within nodes path rest) (ground arith) in
      let a_string =
        and_then-within n (suc n) (parse_raw_string path rest)
          (λ text after. done (string text, nodes) after) (parse_raw_string-within path rest)
          (λ text after l. ground arith) in
      let a_number =
        and_then-within (suc n) (suc n) (parse_number path (c ∷ rest))
          (λ number after. done (integer number, nodes) after) (parse_number-within path (c ∷ rest))
          (λ number after l. l) in
      let a_true = parse_literal-within (codes "true") (boolean true) nodes path (c ∷ rest) in
      let a_false = parse_literal-within (codes "false") (boolean false) nodes path (c ∷ rest) in
      let a_null = parse_literal-within (codes "null") null_value nodes path (c ∷ rest) in
      elim (Bool-cases (c == 123)) [
        | inl e ↦ rw e an_object
        | inr e ↦ elim (Bool-cases (c == 91)) [
          | inl f ↦ rw (e, f) an_array
          | inr f ↦ elim (Bool-cases (c == 34)) [
            | inl g ↦ rw (e, f, g) a_string
            | inr g ↦ elim (Bool-cases (c == 116)) [
              | inl h ↦ rw (e, f, g, h) a_true
              | inr h ↦ elim (Bool-cases (c == 102)) [
                | inl i ↦ rw (e, f, g, h, i) a_false
                | inr i ↦ elim (Bool-cases (c == 110)) [
                  | inl j ↦ rw (e, f, g, h, i, j) a_null
                  | inr j ↦ rw (e, f, g, h, i, j) a_number
                ]
              ]
            ]
          ]
        ]
      ]

parse_value-within :
    (depth nodes : ℕ) (path text : Bytes)
    → ends_within (length text) (parse_value depth nodes path text) ≡ true
unfolding parse_value
parse_value-within zero nodes path text = refl
parse_value-within (suc depth) nodes path [] =
    if-within 0 (leb json_maximum_nodes nodes) (failed JsonParseCode.node_limit path)
      (failed JsonParseCode.invalid_json path) refl refl
parse_value-within (suc depth) nodes path (c ∷ rest) =
    if-within (suc (length rest)) (leb json_maximum_nodes nodes)
      (failed JsonParseCode.node_limit path)
      (parse_dispatch (parse_value depth) (nodes + 1) path c rest) refl
      (parse_dispatch-within (parse_value depth) (parse_value-within depth) (nodes + 1) path c rest)

result_of-within :
    (n : ℕ) (o : Outcome Counted) → ends_within n o ≡ true → is_some (result_of o) ≡ true
result_of-within n (done read rest) h = refl
result_of-within n (failed code path) h = refl
result_of-within n exhausted h = ground arith

parse-within : (text : Bytes) → ends_within (length text) (parse text) ≡ true
unfolding parse
parse-within text =
    and_then-within (length (skip_ws text)) (length text)
      (parse_value json_maximum_depth 0 [] (skip_ws text))
      (λ read after.
        if length (skip_ws after) == 0
        then done read []
        else failed JsonParseCode.trailing_content [])
      (parse_value-within json_maximum_depth 0 [] (skip_ws text))
      (λ read after l.
        if-within (length text) (length (skip_ws after) == 0) (done read [])
          (failed JsonParseCode.trailing_content []) (ground arith) refl)

-- `parse_json` returns a result on every text: none of its loops runs out of fuel, which is one more
-- than the bytes that the loop is given.
pub parse_json-returns : (text : Bytes) → is_some (parse_json text) ≡ true
unfolding parse_json
parse_json-returns text =
    ground (arith, result_of-within (length text) (parse text) (parse-within text))
