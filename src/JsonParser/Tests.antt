-- ===== src/JsonParser/Tests.antt =====
-- Texts that the parser of json_parser.cpp accepts and refuses.
use dawn_dock.Common.{
  ◌≡◌, refl, pos, negsuc, true, false, [], ◌∷◌, some, is_some, leb, bytes_eq, Bytes, codes,
  to_string, ◌++◌,
}
use dawn_dock.JsonParser.Types.{
  JsonParseCode, JsonParseResult, json_maximum_depth, json_maximum_nodes, array, string, integer,
  boolean, no_elements, an_element,
}
use dawn_dock.JsonParser.Scalars.{parse_raw_string, parse_number}
use dawn_dock.JsonParser.Values.{parse_json, error_result}
use dawn_dock.JsonParser.Nodes.{node_count}
use dawn_dock.JsonParser.Bounded.{is_bounded, parse_json-bounded}
use dawn_dock.JsonParser.Scalars.{is_valid_utf8}
use dawn_dock.JsonParser.Utf8.{is_utf8}
use dawn_dock.JsonParser.WellFormed.{is_valid_utf8-is_utf8}
use dawn_dock.JsonParser.Returns.{parse_json-returns}

-- An array with an escaped string: the code point U+00E9 in two bytes.
abbrev accepted_text : Bytes
accepted_text = codes "[1, -20, true, " ++ (34 ∷ 92 ∷ codes "u00e9" ++ (34 ∷ codes "]"))

abbrev accepted : JsonParseResult
accepted = record {
  ok = true;
  value = array (
      an_element (integer (pos 1)) (
        an_element (integer (negsuc 19))
          (an_element (boolean true) (an_element (string (195 ∷ 169 ∷ [])) no_elements))));
  error = record { code = JsonParseCode.ok; path = [] };
}

parses : parse_json accepted_text ≡ some accepted
unfolding parse_json parse_number parse_raw_string
parses = refl

fraction_refused :
    parse_json (codes "[1.5]") ≡ some (error_result JsonParseCode.number_range (codes "/0"))
unfolding parse_json parse_number to_string
fraction_refused = refl

parse_json-returns_example : is_some (parse_json accepted_text) ≡ true
parse_json-returns_example = parse_json-returns accepted_text

-- A key that stands twice is refused at its path.
duplicate_refused :
    parse_json (
      codes "{" ++ (34 ∷ codes "k" ++ (34 ∷ codes ":1," ++ (34 ∷ codes "k" ++ (34 ∷ codes ":2}")))))
    ≡ some (error_result JsonParseCode.duplicate_key (codes "/k"))
unfolding parse_json parse_number parse_raw_string bytes_eq
duplicate_refused = refl

parse_json-bounded_example :
    (is_bounded json_maximum_depth accepted.value ≡ true)
    × (leb (node_count accepted.value) json_maximum_nodes ≡ true)
parse_json-bounded_example = parse_json-bounded accepted_text accepted parses refl

-- The surrogate U+D800 in three bytes.
abbrev surrogate_text : Bytes
surrogate_text = 237 ∷ 160 ∷ 128 ∷ []

surrogate_refused : is_valid_utf8 surrogate_text ≡ false
unfolding is_valid_utf8
surrogate_refused = refl

is_valid_utf8-is_utf8_example : is_valid_utf8 surrogate_text ≡ is_utf8 surrogate_text
is_valid_utf8-is_utf8_example = is_valid_utf8-is_utf8 surrogate_text
