-- ===== src/JsonParser/Nodes.antt =====
-- The count of the values that json_parser.cpp reads, against its limit.
use dawn_dock.Common.{
  ℕ, zero, suc, ◌+◌, ◌≡◌, inl, inr, refl, arith, ◌==◌, leb, Bool, true, false, not, ◌&&◌, [], ◌∷◌,
  ◌++◌, Option-cases, Bool-cases, if◌then◌else◌, length, drop, Bytes, to_string, codes,
}
use dawn_dock.JsonParser.Types.{
  JsonValue, JsonMembers, JsonElements, object, array, string, integer, boolean, null_value,
  no_members, a_member, no_elements, an_element, JsonParseCode, Outcome, done, failed, and_then,
  json_maximum_depth, json_maximum_nodes,
}
use dawn_dock.JsonParser.Scalars.{starts_with, skip_ws, parse_raw_string, parse_number}
use dawn_dock.JsonParser.Values.{
  Counted, ValueParser, add_member, add_element, has_member, literal, parse_literal,
  parse_separator, parse_member_value, parse_member, parse_members, parse_object, parse_elements,
  parse_array, parse_dispatch, parse_value, parse,
}
use dawn_dock.JsonParser.Limits.{yields, any_value, any-yields, and_then-yields, if-yields}

-- The number of values in a value, itself included.
abbrev mutual
  pub node_count : JsonValue → ℕ
  node_count (object members) = suc (members_count members)
  node_count (array elements) = suc (elements_count elements)
  node_count (string text) = 1
  node_count (integer number) = 1
  node_count (boolean value) = 1
  node_count null_value = 1

  pub members_count : JsonMembers → ℕ
  members_count no_members = 0
  members_count (a_member key value rest) = node_count value + members_count rest

  pub elements_count : JsonElements → ℕ
  elements_count no_elements = 0
  elements_count (an_element value rest) = node_count value + elements_count rest

members_count-add_member :
    (so_far : JsonMembers) (key : Bytes) (value : JsonValue)
    → members_count (add_member so_far key value) ≡ members_count so_far + node_count value
members_count-add_member no_members key value = omega arith
members_count-add_member (a_member first_key first rest) key value =
    omega (arith, members_count-add_member rest key value)

elements_count-add_element :
    (so_far : JsonElements) (value : JsonValue)
    → elements_count (add_element so_far value) ≡ elements_count so_far + node_count value
elements_count-add_element no_elements value = omega arith
elements_count-add_element (an_element first rest) value =
    omega (arith, elements_count-add_element rest value)

-- `nodes_` has grown by that count, and is within the limit.
abbrev is_count : ℕ → ℕ → ℕ → Bool
is_count base grown nodes = (nodes == base + grown) && leb nodes json_maximum_nodes

abbrev pub is_counted : ℕ → Counted → Bool
is_counted base read = is_count base (node_count read.0) read.1

abbrev is_member_counted : ℕ → JsonMembers × ℕ → Bool
is_member_counted base read = is_count base (members_count read.0) read.1

is_count-add :
    (base before grown after nodes : ℕ)
    → is_count base before nodes ≡ true
    → is_count nodes grown after ≡ true
    → is_count base (before + grown) after ≡ true
is_count-add base before grown after nodes h k = ground arith

module _ (child : ValueParser)
    (child-counted : (nodes : ℕ) (path text : Bytes)
      → yields (is_counted nodes) (child nodes path text) ≡ true)
    (base : ℕ) where
  parse_member_value-counted :
      (path : Bytes) (so_far : JsonMembers) (nodes : ℕ) (key text : Bytes)
      → is_count base (members_count so_far) nodes ≡ true
      → yields (is_member_counted base) (parse_member_value child path so_far nodes key text) ≡ true
  unfolding parse_member_value
  parse_member_value-counted path so_far nodes key text h =
      let child_path = path ++ (47 ∷ key) in
      let emplaced : Counted → Bytes → Outcome (JsonMembers × ℕ) = λ read after.
        if has_member so_far key
        then failed JsonParseCode.duplicate_key child_path
        else done (add_member so_far key read.0, read.1) after in
      and_then-yields (is_counted nodes) (is_member_counted base)
        (child nodes child_path (skip_ws text)) emplaced
        (child-counted nodes child_path (skip_ws text))
        (λ read after c.
          if-yields (is_member_counted base) (has_member so_far key)
            (failed JsonParseCode.duplicate_key child_path)
            (done (add_member so_far key read.0, read.1) after) refl
            (rw members_count-add_member
              (is_count-add base (members_count so_far) (node_count read.0) read.1 nodes h c)))

  parse_member-counted :
      (path : Bytes) (so_far : JsonMembers) (nodes : ℕ) (text : Bytes)
      → is_count base (members_count so_far) nodes ≡ true
      → yields (is_member_counted base) (parse_member child path so_far nodes text) ≡ true
  unfolding parse_member
  parse_member-counted path so_far nodes text h =
      let p = is_member_counted base in
      let refused : Outcome (JsonMembers × ℕ) = failed JsonParseCode.invalid_json path in
      let quoted = drop 1 (skip_ws text) in
      let rest_of : Bytes → Bytes → Outcome (JsonMembers × ℕ) = λ key after.
        if not (starts_with 58 (skip_ws after))
        then refused
        else parse_member_value child path so_far nodes key (drop 1 (skip_ws after)) in
      if-yields p (not (starts_with 34 (skip_ws text))) refused
        (and_then (parse_raw_string path quoted) rest_of) refl
        (and_then-yields any_value p (parse_raw_string path quoted) rest_of
          (any-yields (parse_raw_string path quoted))
          (λ key after k.
            let value_text = drop 1 (skip_ws after) in
            if-yields p (not (starts_with 58 (skip_ws after))) refused
              (parse_member_value child path so_far nodes key value_text) refl
              (parse_member_value-counted path so_far nodes key value_text h)))

is_count-suc :
    (base grown nodes : ℕ)
    → is_count (suc base) grown nodes ≡ true
    → is_count base (suc grown) nodes ≡ true
is_count-suc base grown nodes h = ground arith

literal_counted :
    (base : ℕ) (expected : Bytes) (value : JsonValue) (nodes : ℕ) (path text : Bytes)
    → is_count base (node_count value) nodes ≡ true
    → yields (is_counted base) (parse_literal expected value nodes path text) ≡ true
unfolding parse_literal
literal_counted base expected value nodes path text h =
    elim (Option-cases (literal expected text)) [
      | inl e ↦ rw (parse_literal, e) refl
      | inr (rest, e) ↦ rw (parse_literal, e) h
    ]

-- `base` is the count in front of an object or an array, which is a node itself.
module _ (child : ValueParser)
    (child-counted : (nodes : ℕ) (path text : Bytes)
      → yields (is_counted nodes) (child nodes path text) ≡ true)
    (base : ℕ) where
  parse_members-counted :
      (fuel : ℕ) (path : Bytes) (so_far : JsonMembers) (nodes : ℕ) (text : Bytes)
      → is_count (suc base) (members_count so_far) nodes ≡ true
      → yields (is_counted base) (parse_members child fuel path so_far nodes text) ≡ true
  unfolding parse_members
  parse_members-counted zero path so_far nodes text h = refl
  parse_members-counted (suc fuel) path so_far nodes text h =
      let p = is_counted base in
      let turn : JsonMembers × ℕ → Bool → Bytes → Outcome Counted = λ read goes_on rest.
        if goes_on
        then parse_members child fuel path read.0 read.1 rest
        else done (object read.0, read.1) rest in
      and_then-yields (is_member_counted (suc base)) p (parse_member child path so_far nodes text)
        (λ read after. and_then (parse_separator 125 path after) (turn read))
        (parse_member-counted child child-counted (suc base) path so_far nodes text h)
        (λ read after b.
          and_then-yields any_value p (parse_separator 125 path after) (turn read)
            (any-yields (parse_separator 125 path after))
            (λ goes_on rest k.
              if-yields p goes_on (parse_members child fuel path read.0 read.1 rest)
                (done (object read.0, read.1) rest)
                (parse_members-counted fuel path read.0 read.1 rest b)
                (is_count-suc base (members_count read.0) read.1 b)))

  parse_elements-counted :
      (fuel : ℕ) (path : Bytes) (index : ℕ) (so_far : JsonElements) (nodes : ℕ) (text : Bytes)
      → is_count (suc base) (elements_count so_far) nodes ≡ true
      → yields (is_counted base) (parse_elements child fuel path index so_far nodes text) ≡ true
  unfolding parse_elements
  parse_elements-counted zero path index so_far nodes text h = refl
  parse_elements-counted (suc fuel) path index so_far nodes text h =
      let p = is_counted base in
      let child_path = path ++ (47 ∷ to_string index) in
      let turn : Counted → Bool → Bytes → Outcome Counted = λ read goes_on rest.
        if goes_on
        then parse_elements child fuel path (index + 1) (add_element so_far read.0) read.1 rest
        else done (array (add_element so_far read.0), read.1) rest in
      and_then-yields (is_counted nodes) p (child nodes child_path (skip_ws text))
        (λ read after. and_then (parse_separator 93 path after) (turn read))
        (child-counted nodes child_path (skip_ws text))
        (λ read after b.
          and_then-yields any_value p (parse_separator 93 path after) (turn read)
            (any-yields (parse_separator 93 path after))
            (λ goes_on rest k.
              let next = add_element so_far read.0 in
              let more : is_count (suc base) (elements_count next) read.1 ≡ true =
                rw elements_count-add_element (
                  is_count-add (suc base) (elements_count so_far) (node_count read.0) read.1 nodes h
                    b) in
              let later = parse_elements child fuel path (index + 1) next read.1 rest in
              if-yields p goes_on later (done (array next, read.1) rest)
                (parse_elements-counted fuel path (index + 1) next read.1 rest more)
                (is_count-suc base (elements_count next) read.1 more)))

  parse_object-counted :
      (nodes : ℕ) (path text : Bytes)
      → is_count (suc base) 0 nodes ≡ true
      → yields (is_counted base) (parse_object child nodes path text) ≡ true
  unfolding parse_object
  parse_object-counted nodes path text h =
      let left = skip_ws text in
      if-yields (is_counted base) (starts_with 125 left)
        (done (object no_members, nodes) (drop 1 left))
        (parse_members child (length text + 1) path no_members nodes left)
        (is_count-suc base 0 nodes h)
        (parse_members-counted (length text + 1) path no_members nodes left h)

  parse_array-counted :
      (nodes : ℕ) (path text : Bytes)
      → is_count (suc base) 0 nodes ≡ true
      → yields (is_counted base) (parse_array child nodes path text) ≡ true
  unfolding parse_array
  parse_array-counted nodes path text h =
      let left = skip_ws text in
      if-yields (is_counted base) (starts_with 93 left)
        (done (array no_elements, nodes) (drop 1 left))
        (parse_elements child (length text + 1) path 0 no_elements nodes left)
        (is_count-suc base 0 nodes h)
        (parse_elements-counted (length text + 1) path 0 no_elements nodes left h)

  parse_dispatch-counted :
      (nodes : ℕ) (path : Bytes) (c : ℕ) (rest : Bytes)
      → is_count (suc base) 0 nodes ≡ true
      → yields (is_counted base) (parse_dispatch child nodes path c rest) ≡ true
  unfolding parse_dispatch
  parse_dispatch-counted nodes path c rest h =
      let p = is_counted base in
      let text = c ∷ rest in
      let one = is_count-suc base 0 nodes h in
      let a_string =
        and_then-yields any_value p (parse_raw_string path rest)
          (λ read after. done (string read, nodes) after) (any-yields (parse_raw_string path rest))
          (λ read after k. one) in
      let a_number =
        and_then-yields any_value p (parse_number path text)
          (λ number after. done (integer number, nodes) after) (any-yields (parse_number path text))
          (λ number after k. one) in
      if-yields p (c == 123) (parse_object child nodes path rest) _
        (parse_object-counted nodes path rest h)
        (if-yields p (c == 91) (parse_array child nodes path rest) _
          (parse_array-counted nodes path rest h)
          (if-yields p (c == 34) _ _ a_string (
            if-yields p (c == 116) (parse_literal (codes "true") (boolean true) nodes path text) _
              (literal_counted base (codes "true") (boolean true) nodes path text one)
              (if-yields p (c == 102)
                (parse_literal (codes "false") (boolean false) nodes path text) _
                (literal_counted base (codes "false") (boolean false) nodes path text one)
                (if-yields p (c == 110) (parse_literal (codes "null") null_value nodes path text) _
                  (literal_counted base (codes "null") null_value nodes path text one) a_number)))))

is_count-first : (nodes : ℕ) → leb 8192 nodes ≡ false → is_count (suc nodes) 0 (nodes + 1) ≡ true
is_count-first nodes h = ground arith

parse_value-counted :
    (depth nodes : ℕ) (path text : Bytes)
    → yields (is_counted nodes) (parse_value depth nodes path text) ≡ true
unfolding parse_value
parse_value-counted zero nodes path text = refl
parse_value-counted (suc depth) nodes path [] =
    if-yields (is_counted nodes) (leb json_maximum_nodes nodes)
      (failed JsonParseCode.node_limit path) (failed JsonParseCode.invalid_json path) refl refl
parse_value-counted (suc depth) nodes path (c ∷ rest) =
    elim (Bool-cases (leb json_maximum_nodes nodes)) [
      | inl e ↦ rw (parse_value, e) refl
      | inr e ↦
          rw (parse_value, e)
            (parse_dispatch-counted (parse_value depth) (parse_value-counted depth) nodes
              (nodes + 1) path c rest (is_count-first nodes e))
    ]

pub parse-counted : (text : Bytes) → yields (is_counted 0) (parse text) ≡ true
unfolding parse
parse-counted text =
    let p = is_counted 0 in
    and_then-yields p p (parse_value json_maximum_depth 0 [] (skip_ws text))
      (λ read after.
        if length (skip_ws after) == 0
        then done read []
        else failed JsonParseCode.trailing_content [])
      (parse_value-counted json_maximum_depth 0 [] (skip_ws text))
      (λ read after b.
        if-yields p (length (skip_ws after) == 0) (done read [])
          (failed JsonParseCode.trailing_content []) b refl)
