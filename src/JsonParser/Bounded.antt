-- ===== src/JsonParser/Bounded.antt =====
-- The limits that an accepted value of json_parser.cpp keeps: on the whole value.
use dawn_dock.Common.{
  ℕ, zero, suc, ◌+◌, ◌≡◌, inl, inr, refl, arith, ◌==◌, ltb, leb, Bool, true, false, not, ◌&&◌, ◌||◌,
  [], ◌∷◌, ◌++◌, some, Option-cases, Bool-cases, if◌then◌else◌, length, drop, Bytes, bytes_eq,
  bytes_eq_iff, and_parts, and_both, to_string, codes,
}
use dawn_dock.JsonParser.Types.{
  JsonValue, JsonMembers, JsonElements, object, array, string, integer, boolean, null_value,
  no_members, a_member, no_elements, an_element, JsonParseCode, JsonParseResult, Outcome, done,
  failed, exhausted, and_then, json_maximum_depth, json_maximum_nodes, maximum_input_bytes,
}
use dawn_dock.JsonParser.Scalars.{starts_with, skip_ws, parse_raw_string, parse_number}
use dawn_dock.JsonParser.Values.{
  Counted, ValueParser, add_member, add_element, has_member, literal, parse_literal,
  parse_separator, parse_member_value, parse_member, parse_members, parse_object, parse_elements,
  parse_array, parse_dispatch, parse_value, parse, parse_json, result_of,
}
use dawn_dock.JsonParser.Limits.{
  yields, any_value, any-yields, and_then-yields, if-yields, is_string, is_int64,
  parse_raw_string-string, parse_number-int64,
}
use dawn_dock.JsonParser.Nodes.{node_count, is_counted, parse-counted}

-- The value is at most so deep, its strings and keys are short and in UTF-8, its numbers are of 64
-- bits, and no object has a key twice.
abbrev mutual
  pub is_bounded : ℕ → JsonValue → Bool
  is_bounded zero value = false
  is_bounded (suc depth) (object members) = members_bounded depth members
  is_bounded (suc depth) (array elements) = elements_bounded depth elements
  is_bounded (suc depth) (string text) = is_string text
  is_bounded (suc depth) (integer number) = is_int64 number
  is_bounded (suc depth) (boolean value) = true
  is_bounded (suc depth) null_value = true

  pub members_bounded : ℕ → JsonMembers → Bool
  members_bounded depth no_members = true
  members_bounded depth (a_member key value rest) =
      not (has_member rest key)
      && (is_string key && (is_bounded depth value && members_bounded depth rest))

  pub elements_bounded : ℕ → JsonElements → Bool
  elements_bounded depth no_elements = true
  elements_bounded depth (an_element value rest) =
      is_bounded depth value && elements_bounded depth rest

has_member-add_member :
    (so_far : JsonMembers) (key : Bytes) (value : JsonValue) (other : Bytes)
    → has_member (add_member so_far key value) other
      ≡ (has_member so_far other || bytes_eq key other)
unfolding has_member
has_member-add_member no_members key value other = ground arith
has_member-add_member (a_member first_key first rest) key value other =
    ground (arith, has_member-add_member rest key value other)

differs_first :
    (first_key key : Bytes) (b : Bool)
    → (bytes_eq first_key key || b) ≡ false
    → (bytes_eq key first_key ≡ false) × (b ≡ false)
differs_first first_key key b h =
    (ground (arith, bytes_eq_iff key first_key, bytes_eq_iff first_key key), ground arith)

absent_still : (b : Bool) → not b ≡ true → not (b || false) ≡ true
absent_still true h = h
absent_still false h = refl

members_bounded-add_member :
    (depth : ℕ) (so_far : JsonMembers) (key : Bytes) (value : JsonValue)
    → has_member so_far key ≡ false
    → is_string key ≡ true
    → is_bounded depth value ≡ true
    → members_bounded depth so_far ≡ true
    → members_bounded depth (add_member so_far key value) ≡ true
unfolding has_member
members_bounded-add_member depth no_members key value n k v h = ground (arith, k, v)
members_bounded-add_member depth (a_member first_key first rest) key value n k v h =
    let (fresh, kept) =
      and_parts (not (has_member rest first_key))
        (is_string first_key && (is_bounded depth first && members_bounded depth rest)) h in
    let (first_string, bounded) =
      and_parts (is_string first_key) (is_bounded depth first && members_bounded depth rest) kept in
    let (first_bounded, rest_bounded) =
      and_parts (is_bounded depth first) (members_bounded depth rest) bounded in
    let (differs, absent) = differs_first first_key key (has_member rest key) n in
    let added = members_bounded-add_member depth rest key value absent k v rest_bounded in
    let still : not (has_member (add_member rest key value) first_key) ≡ true =
      rw (has_member-add_member, differs) (absent_still (has_member rest first_key) fresh) in
    and_both (not (has_member (add_member rest key value) first_key)) _ still (
      and_both (is_string first_key) _ first_string
        (and_both (is_bounded depth first) _ first_bounded added))

elements_bounded-add_element :
    (depth : ℕ) (so_far : JsonElements) (value : JsonValue)
    → is_bounded depth value ≡ true
    → elements_bounded depth so_far ≡ true
    → elements_bounded depth (add_element so_far value) ≡ true
elements_bounded-add_element depth no_elements value v h = ground (arith, v)
elements_bounded-add_element depth (an_element first rest) value v h =
    ground (arith, elements_bounded-add_element depth rest value v)

abbrev is_member_bounded : ℕ → JsonMembers × ℕ → Bool
is_member_bounded depth read = members_bounded depth read.0

abbrev is_read_bounded : ℕ → Counted → Bool
is_read_bounded depth read = is_bounded depth read.0

literal_bounded :
    (depth : ℕ) (expected : Bytes) (value : JsonValue) (nodes : ℕ) (path text : Bytes)
    → is_bounded depth value ≡ true
    → yields (is_read_bounded depth) (parse_literal expected value nodes path text) ≡ true
unfolding parse_literal
literal_bounded depth expected value nodes path text h =
    elim (Option-cases (literal expected text)) [
      | inl e ↦ rw (parse_literal, e)
      | inr (rest, e) ↦ rw (parse_literal, e) h
    ]

module _ (child : ValueParser) (depth : ℕ)
    (child-bounded : (nodes : ℕ) (path text : Bytes)
      → yields (is_read_bounded depth) (child nodes path text) ≡ true) where
  parse_member_value-bounded :
      (path : Bytes) (so_far : JsonMembers) (nodes : ℕ) (key text : Bytes)
      → members_bounded depth so_far ≡ true
      → is_string key ≡ true
      → yields (is_member_bounded depth) (parse_member_value child path so_far nodes key text)
        ≡ true
  unfolding parse_member_value
  parse_member_value-bounded path so_far nodes key text h k =
      let child_path = path ++ (47 ∷ key) in
      let emplaced : Counted → Bytes → Outcome (JsonMembers × ℕ) = λ read after.
        if has_member so_far key
        then failed JsonParseCode.duplicate_key child_path
        else done (add_member so_far key read.0, read.1) after in
      and_then-yields (is_read_bounded depth) (is_member_bounded depth)
        (child nodes child_path (skip_ws text)) emplaced
        (child-bounded nodes child_path (skip_ws text))
        (λ read after v. elim (Bool-cases (has_member so_far key)) [
          | inl e ↦ rw e
          | inr e ↦ rw e (members_bounded-add_member depth so_far key read.0 e k v h)
        ])

  parse_member-bounded :
      (path : Bytes) (so_far : JsonMembers) (nodes : ℕ) (text : Bytes)
      → members_bounded depth so_far ≡ true
      → yields (is_member_bounded depth) (parse_member child path so_far nodes text) ≡ true
  unfolding parse_member
  parse_member-bounded path so_far nodes text h =
      let p = is_member_bounded depth in
      let refused : Outcome (JsonMembers × ℕ) = failed JsonParseCode.invalid_json path in
      let quoted = drop 1 (skip_ws text) in
      let rest_of : Bytes → Bytes → Outcome (JsonMembers × ℕ) = λ key after.
        if not (starts_with 58 (skip_ws after))
        then refused
        else parse_member_value child path so_far nodes key (drop 1 (skip_ws after)) in
      if-yields p (not (starts_with 34 (skip_ws text))) refused
        (and_then (parse_raw_string path quoted) rest_of) refl
        (and_then-yields is_string p (parse_raw_string path quoted) rest_of
          (parse_raw_string-string path quoted)
          (λ key after k.
            let value_text = drop 1 (skip_ws after) in
            if-yields p (not (starts_with 58 (skip_ws after))) refused
              (parse_member_value child path so_far nodes key value_text) refl
              (parse_member_value-bounded path so_far nodes key value_text h k)))

  parse_members-bounded :
      (fuel : ℕ) (path : Bytes) (so_far : JsonMembers) (nodes : ℕ) (text : Bytes)
      → members_bounded depth so_far ≡ true
      → yields (is_read_bounded (suc depth)) (parse_members child fuel path so_far nodes text)
        ≡ true
  unfolding parse_members
  parse_members-bounded zero path so_far nodes text h = refl
  parse_members-bounded (suc fuel) path so_far nodes text h =
      let p = is_read_bounded (suc depth) in
      let turn : JsonMembers × ℕ → Bool → Bytes → Outcome Counted = λ read goes_on rest.
        if goes_on
        then parse_members child fuel path read.0 read.1 rest
        else done (object read.0, read.1) rest in
      and_then-yields (is_member_bounded depth) p (parse_member child path so_far nodes text)
        (λ read after. and_then (parse_separator 125 path after) (turn read))
        (parse_member-bounded path so_far nodes text h)
        (λ read after b.
          and_then-yields any_value p (parse_separator 125 path after) (turn read)
            (any-yields (parse_separator 125 path after))
            (λ goes_on rest k.
              if-yields p goes_on (parse_members child fuel path read.0 read.1 rest)
                (done (object read.0, read.1) rest)
                (parse_members-bounded fuel path read.0 read.1 rest b) b))

  parse_elements-bounded :
      (fuel : ℕ) (path : Bytes) (index : ℕ) (so_far : JsonElements) (nodes : ℕ) (text : Bytes)
      → elements_bounded depth so_far ≡ true
      → yields
          (is_read_bounded (suc depth))
          (parse_elements child fuel path index so_far nodes text)
        ≡ true
  unfolding parse_elements
  parse_elements-bounded zero path index so_far nodes text h = refl
  parse_elements-bounded (suc fuel) path index so_far nodes text h =
      let p = is_read_bounded (suc depth) in
      let child_path = path ++ (47 ∷ to_string index) in
      let turn : Counted → Bool → Bytes → Outcome Counted = λ read goes_on rest.
        if goes_on
        then parse_elements child fuel path (index + 1) (add_element so_far read.0) read.1 rest
        else done (array (add_element so_far read.0), read.1) rest in
      and_then-yields (is_read_bounded depth) p (child nodes child_path (skip_ws text))
        (λ read after. and_then (parse_separator 93 path after) (turn read))
        (child-bounded nodes child_path (skip_ws text))
        (λ read after b.
          and_then-yields any_value p (parse_separator 93 path after) (turn read)
            (any-yields (parse_separator 93 path after))
            (λ goes_on rest k.
              let next = add_element so_far read.0 in
              let more = elements_bounded-add_element depth so_far read.0 b h in
              let later = parse_elements child fuel path (index + 1) next read.1 rest in
              if-yields p goes_on later (done (array next, read.1) rest)
                (parse_elements-bounded fuel path (index + 1) next read.1 rest more) more))

  parse_object-bounded :
      (nodes : ℕ) (path text : Bytes)
      → yields (is_read_bounded (suc depth)) (parse_object child nodes path text) ≡ true
  unfolding parse_object
  parse_object-bounded nodes path text =
      let left = skip_ws text in
      if-yields (is_read_bounded (suc depth)) (starts_with 125 left)
        (done (object no_members, nodes) (drop 1 left))
        (parse_members child (length text + 1) path no_members nodes left) refl
        (parse_members-bounded (length text + 1) path no_members nodes left refl)

  parse_array-bounded :
      (nodes : ℕ) (path text : Bytes)
      → yields (is_read_bounded (suc depth)) (parse_array child nodes path text) ≡ true
  unfolding parse_array
  parse_array-bounded nodes path text =
      let left = skip_ws text in
      if-yields (is_read_bounded (suc depth)) (starts_with 93 left)
        (done (array no_elements, nodes) (drop 1 left))
        (parse_elements child (length text + 1) path 0 no_elements nodes left) refl
        (parse_elements-bounded (length text + 1) path 0 no_elements nodes left refl)

  parse_dispatch-bounded :
      (nodes : ℕ) (path : Bytes) (c : ℕ) (rest : Bytes)
      → yields (is_read_bounded (suc depth)) (parse_dispatch child nodes path c rest) ≡ true
  unfolding parse_dispatch
  parse_dispatch-bounded nodes path c rest =
      let p = is_read_bounded (suc depth) in
      let text = c ∷ rest in
      let a_string =
        and_then-yields is_string p (parse_raw_string path rest)
          (λ read after. done (string read, nodes) after) (parse_raw_string-string path rest)
          (λ read after k. k) in
      let a_number =
        and_then-yields is_int64 p (parse_number path text)
          (λ number after. done (integer number, nodes) after) (parse_number-int64 path text)
          (λ number after k. k) in
      if-yields p (c == 123) (parse_object child nodes path rest) _
        (parse_object-bounded nodes path rest)
        (if-yields p (c == 91) (parse_array child nodes path rest) _
          (parse_array-bounded nodes path rest)
          (if-yields p (c == 34) _ _ a_string (
            if-yields p (c == 116) (parse_literal (codes "true") (boolean true) nodes path text) _
              (literal_bounded (suc depth) (codes "true") (boolean true) nodes path text refl)
              (if-yields p (c == 102)
                (parse_literal (codes "false") (boolean false) nodes path text) _
                (literal_bounded (suc depth) (codes "false") (boolean false) nodes path text refl)
                (if-yields p (c == 110) (parse_literal (codes "null") null_value nodes path text) _
                  (literal_bounded (suc depth) (codes "null") null_value nodes path text refl)
                  a_number)))))

parse_value-bounded :
    (depth nodes : ℕ) (path text : Bytes)
    → yields (is_read_bounded depth) (parse_value depth nodes path text) ≡ true
unfolding parse_value
parse_value-bounded zero nodes path text = refl
parse_value-bounded (suc depth) nodes path [] =
    if-yields (is_read_bounded (suc depth)) (leb json_maximum_nodes nodes)
      (failed JsonParseCode.node_limit path) (failed JsonParseCode.invalid_json path) refl refl
parse_value-bounded (suc depth) nodes path (c ∷ rest) =
    if-yields (is_read_bounded (suc depth)) (leb json_maximum_nodes nodes)
      (failed JsonParseCode.node_limit path)
      (parse_dispatch (parse_value depth) (nodes + 1) path c rest) refl
      (parse_dispatch-bounded (parse_value depth) depth (parse_value-bounded depth) (nodes + 1) path
        c rest)

parse-bounded : (text : Bytes) → yields (is_read_bounded json_maximum_depth) (parse text) ≡ true
unfolding parse
parse-bounded text =
    let p = is_read_bounded json_maximum_depth in
    and_then-yields p p (parse_value json_maximum_depth 0 [] (skip_ws text))
      (λ read after.
        if length (skip_ws after) == 0
        then done read []
        else failed JsonParseCode.trailing_content [])
      (parse_value-bounded json_maximum_depth 0 [] (skip_ws text))
      (λ read after b.
        if-yields p (length (skip_ws after) == 0) (done read [])
          (failed JsonParseCode.trailing_content []) b refl)

result_of-yields :
    (p : JsonValue → Bool) (o : Outcome Counted) (result : JsonParseResult)
    → yields (λ read. p read.0) o ≡ true
    → result_of o ≡ some result
    → result.ok ≡ true
    → p result.value ≡ true
result_of-yields p (done read rest) result y e h = ground (arith, y)
result_of-yields p (failed code path) result y e h = ground arith
result_of-yields p exhausted result y e h = ground arith

abbrev few_values : JsonValue → Bool
few_values value = leb (node_count value) json_maximum_nodes

counted_few :
    (o : Outcome Counted)
    → yields (is_counted 0) o ≡ true
    → yields (λ read. few_values read.0) o ≡ true
counted_few (done read rest) h = ground arith
counted_few (failed code path) h = refl
counted_few exhausted h = refl

-- A value that `parse_json` accepts keeps every limit: it is at most 16 levels deep, it has at most
-- 8192 values in it, itself included, its strings and keys are of at most 2048 bytes and are
-- well-formed UTF-8 by the table of RFC 3629, its numbers are of 64 bits, and no object in it has a
-- key twice.
pub parse_json-bounded :
    (text : Bytes) (result : JsonParseResult)
    → parse_json text ≡ some result
    → result.ok ≡ true
    → (is_bounded json_maximum_depth result.value ≡ true)
      × (leb (node_count result.value) json_maximum_nodes ≡ true)
unfolding parse_json
parse_json-bounded text result e h = elim (Bool-cases (length text == 0)) [
  | inl z ↦ ground arith
  | inr z ↦ elim (Bool-cases (ltb maximum_input_bytes (length text))) [
    | inl l ↦ ground arith
    | inr l ↦
        let from : result_of (parse text) ≡ some result = rw (parse_json, z, l) at e in
        (
          result_of-yields (is_bounded json_maximum_depth) (parse text) result (parse-bounded text)
              from h,
          result_of-yields few_values (parse text) result
              (counted_few (parse text) (parse-counted text)) from h,
        )
  ]
]
