-- ===== src/JsonParser/Values.antt =====
-- The values of json_parser.cpp, and `parse_json`. The recursion is on the depth that is left, which
-- `parse_value` hands down to its members and elements; the loops over these are on fuel. 44 is the
-- comma, 58 the colon, 91 and 93 the square brackets, 123 and 125 the braces.
use dawn_dock.Common.{
  ℕ, zero, suc, ◌+◌, ◌==◌, ltb, leb, Bool, true, false, not, ◌||◌, [], ◌∷◌, ◌++◌, Option, none,
  some, if◌then◌else◌, length, drop, Bytes, bytes_eq, to_string, codes,
}
use dawn_dock.JsonParser.Types.{
  JsonValue, JsonMembers, JsonElements, object, array, string, integer, boolean, null_value,
  no_members, a_member, no_elements, an_element, JsonParseCode, JsonParseResult, Outcome, done,
  failed, exhausted, and_then, json_maximum_depth, json_maximum_nodes, maximum_input_bytes,
}
use dawn_dock.JsonParser.Scalars.{starts_with, skip_ws, parse_raw_string, parse_number}

-- A value, and `nodes_` behind it.
abbrev pub Counted : Type 0
Counted = JsonValue × ℕ

-- `parse_value` below the current depth: from `nodes_`, the path and the text.
abbrev pub ValueParser : Type 0
ValueParser = ℕ → Bytes → Bytes → Outcome Counted

-- What `emplace_back` and `push_back` do to the vectors.
abbrev pub add_member : JsonMembers → Bytes → JsonValue → JsonMembers
add_member no_members key value = a_member key value no_members
add_member (a_member first_key first rest) key value =
    a_member first_key first (add_member rest key value)

abbrev pub add_element : JsonElements → JsonValue → JsonElements
add_element no_elements value = an_element value no_elements
add_element (an_element first rest) value = an_element first (add_element rest value)

-- The search for a key that is there already.
unfoldable pub has_member : JsonMembers → Bytes → Bool
has_member no_members key = false
has_member (a_member existing value rest) key = bytes_eq existing key || has_member rest key

-- The prefix `expected` is consumed.
unfoldable pub literal : Bytes → Bytes → Option Bytes
literal [] text = some text
literal (c ∷ expected) [] = none
literal (c ∷ expected) (first ∷ rest) = if first == c then literal expected rest else none

-- A literal, and the value that it stores.
unfoldable pub parse_literal : Bytes → JsonValue → ℕ → Bytes → Bytes → Outcome Counted
unfolding literal
parse_literal expected value nodes path text = elim (literal expected text) [
  | none ↦ failed JsonParseCode.invalid_json path
  | some rest ↦ done (value, nodes) rest
]

-- What follows a member or an element: whether another one does.
unfoldable pub parse_separator : ℕ → Bytes → Bytes → Outcome Bool
unfolding skip_ws
parse_separator closing path text = elim (skip_ws text) [
  | [] ↦ failed JsonParseCode.invalid_json path
  | c ∷ rest ↦
      if c == 44
      then done true rest
      else if c == closing
      then done false rest
      else failed JsonParseCode.invalid_json path
]

module _ (child : ValueParser) where
  -- The value of a member, behind the colon.
  unfoldable pub parse_member_value :
      Bytes → JsonMembers → ℕ → Bytes → Bytes → Outcome (JsonMembers × ℕ)
  unfolding has_member
  parse_member_value path so_far nodes key text =
      let child_path = path ++ (47 ∷ key) in
      and_then (child nodes child_path (skip_ws text)) (λ read after.
        if has_member so_far key
        then failed JsonParseCode.duplicate_key child_path
        else done (add_member so_far key read.0, read.1) after)

  -- One turn of the loop of `parse_object`, to the member that it appends.
  unfoldable pub parse_member : Bytes → JsonMembers → ℕ → Bytes → Outcome (JsonMembers × ℕ)
  unfolding parse_member_value
  parse_member path so_far nodes text =
      if not (starts_with 34 (skip_ws text))
      then failed JsonParseCode.invalid_json path
      else and_then (parse_raw_string path (drop 1 (skip_ws text))) (λ key after.
        if not (starts_with 58 (skip_ws after))
        then failed JsonParseCode.invalid_json path
        else parse_member_value path so_far nodes key (drop 1 (skip_ws after)))

  unfoldable pub parse_members : ℕ → Bytes → JsonMembers → ℕ → Bytes → Outcome Counted
  unfolding parse_member parse_separator
  parse_members zero path so_far nodes text = exhausted
  parse_members (suc fuel) path so_far nodes text =
      and_then (parse_member path so_far nodes text) (λ read after.
        and_then (parse_separator 125 path after) (λ goes_on rest.
          if goes_on
          then parse_members fuel path read.0 read.1 rest
          else done (object read.0, read.1) rest))

  -- From behind the brace on.
  unfoldable pub parse_object : ℕ → Bytes → Bytes → Outcome Counted
  unfolding parse_members
  parse_object nodes path text =
      if starts_with 125 (skip_ws text)
      then done (object no_members, nodes) (drop 1 (skip_ws text))
      else parse_members (length text + 1) path no_members nodes (skip_ws text)

  unfoldable pub parse_elements : ℕ → Bytes → ℕ → JsonElements → ℕ → Bytes → Outcome Counted
  unfolding parse_separator
  parse_elements zero path index so_far nodes text = exhausted
  parse_elements (suc fuel) path index so_far nodes text =
      and_then (child nodes (path ++ (47 ∷ to_string index)) (skip_ws text)) (λ read after.
        and_then (parse_separator 93 path after) (λ goes_on rest.
          let next = add_element so_far read.0 in
          if goes_on
          then parse_elements fuel path (index + 1) next read.1 rest
          else done (array next, read.1) rest))

  -- From behind the bracket on.
  unfoldable pub parse_array : ℕ → Bytes → Bytes → Outcome Counted
  unfolding parse_elements
  parse_array nodes path text =
      if starts_with 93 (skip_ws text)
      then done (array no_elements, nodes) (drop 1 (skip_ws text))
      else parse_elements (length text + 1) path 0 no_elements nodes (skip_ws text)

  -- The value that starts with `c`; `rest` is the text behind it.
  unfoldable pub parse_dispatch : ℕ → Bytes → ℕ → Bytes → Outcome Counted
  unfolding parse_object parse_array parse_literal
  parse_dispatch nodes path c rest =
      if c == 123
      then parse_object nodes path rest
      else if c == 91
      then parse_array nodes path rest
      else if c == 34
      then and_then (parse_raw_string path rest) (λ text after. done (string text, nodes) after)
      else if c == 116
      then parse_literal (codes "true") (boolean true) nodes path (c ∷ rest)
      else if c == 102
      then parse_literal (codes "false") (boolean false) nodes path (c ∷ rest)
      else if c == 110
      then parse_literal (codes "null") null_value nodes path (c ∷ rest)
      else and_then (parse_number path (c ∷ rest))
          (λ number after. done (integer number, nodes) after)

-- The first argument is how much deeper a value may stand: `kJsonMaximumDepth - depth_`.
unfoldable pub parse_value : ℕ → ValueParser
unfolding parse_dispatch
parse_value zero nodes path text = failed JsonParseCode.depth_limit path
parse_value (suc depth) nodes path [] =
    if leb json_maximum_nodes nodes
    then failed JsonParseCode.node_limit path
    else failed JsonParseCode.invalid_json path
parse_value (suc depth) nodes path (c ∷ rest) =
    if leb json_maximum_nodes nodes
    then failed JsonParseCode.node_limit path
    else parse_dispatch (parse_value depth) (nodes + 1) path c rest

-- `Parser::parse` with `take_root`.
unfoldable pub parse : Bytes → Outcome Counted
unfolding parse_value
parse text = and_then (parse_value json_maximum_depth 0 [] (skip_ws text)) (λ read after.
    if length (skip_ws after) == 0 then done read [] else failed JsonParseCode.trailing_content [])

-- A default-constructed result, but for its error.
abbrev pub error_result : JsonParseCode → Bytes → JsonParseResult
error_result code path = record {
  ok = false;
  value = null_value;
  error = record { code = code; path = path };
}

-- `none` is a loop that ran out of fuel.
abbrev pub result_of : Outcome Counted → Option JsonParseResult
result_of (done read rest) =
    some
      (record { ok = true; value = read.0; error = record { code = JsonParseCode.ok; path = [] } })
result_of (failed code path) = some (error_result code path)
result_of exhausted = none

unfoldable pub parse_json : Bytes → Option JsonParseResult
unfolding parse
parse_json text =
    if length text == 0
    then some (error_result JsonParseCode.invalid_json [])
    else if ltb maximum_input_bytes (length text)
    then some (error_result JsonParseCode.input_too_large [])
    else result_of (parse text)
