-- ===== src/JsonParser/Types.antt =====
-- The limits and types of firmware/components/alarm_core/include/dawn/json_parser.hpp, and what a
-- step of the parser comes to.
use dawn_dock.Common.{ℕ, ◌*◌, ℤ, Bool, Bytes}

abbrev pub json_maximum_depth : ℕ
json_maximum_depth = 16

abbrev pub json_maximum_nodes : ℕ
json_maximum_nodes = 8192

abbrev pub json_maximum_string_bytes : ℕ
json_maximum_string_bytes = 2048

-- `kMaximumInputBytes`, which is `kProtocolEnvelopeMaximumBytes`.
abbrev pub maximum_input_bytes : ℕ
maximum_input_bytes = 64 * 1024

-- A value with the field that its kind uses. The two vectors are types of their own.
mutual
  pub data JsonValue : Type 0 where
    object : JsonMembers → JsonValue
    array : JsonElements → JsonValue
    string : Bytes → JsonValue
    integer : ℤ → JsonValue
    boolean : Bool → JsonValue
    null_value : JsonValue

  pub data JsonMembers : Type 0 where
    no_members : JsonMembers
    a_member : Bytes → JsonValue → JsonMembers → JsonMembers

  pub data JsonElements : Type 0 where
    no_elements : JsonElements
    an_element : JsonValue → JsonElements → JsonElements

pub data JsonParseCode : Type 0 where
  ok input_too_large invalid_json number_range string_limit : JsonParseCode
  duplicate_key depth_limit node_limit trailing_content : JsonParseCode

pub record JsonParseError : Type 0 where
  pub code : JsonParseCode
  pub path : Bytes

pub record JsonParseResult : Type 0 where
  pub ok : Bool
  pub value : JsonValue
  pub error : JsonParseError

-- What a step comes to: a value and the text that is left, or a failure. `exhausted` is a loop whose
-- fuel ran out, which the source does not have.
pub data Outcome {ℓ} (A : Type ℓ) : Type ℓ where
  done : A → Bytes → Outcome A
  failed : JsonParseCode → Bytes → Outcome A
  exhausted : Outcome A

abbrev pub and_then {ℓ} : {A B : Type ℓ} → Outcome A → (A → Bytes → Outcome B) → Outcome B
and_then (done x rest) f = f x rest
and_then (failed code path) f = failed code path
and_then exhausted f = exhausted
