-- ===== src/Json.antt =====
-- The interface of cJSON, which the firmware links and does not contain, as the code uses it: a
-- parser, and questions to a node. A pointer to a node is an Option.
use esp32_monitor.Base.{
  ℕ, Bool, true, false, Option, none, some, List, [], ◌∷◌, ltb, leb, ◌==◌, ◌||◌, ◌&&◌, not,
  if◌then◌else◌, drop, length,
}

-- valuedouble of a number in a document, which is no NaN: its sign, where it is not 0, its
-- integral part, and whether there is more to it. An infinity is not finite.
pub record Double : Type 0 where
  pub negative : Bool
  pub whole : ℕ
  pub fraction : Bool
  pub finite : Bool

-- What a node is, with its value or its children.
pub data Kind (Node : Type 0) : Type 0 where
  number : (value : Double) → Kind Node
  string : (value : Option (List ℕ)) → Kind Node
  boolean : (value : Bool) → Kind Node
  array object : (children : List Node) → Kind Node
  other : Kind Node

pub record Cjson (Node : Type 0) : Type 0 where
  -- cJSON_ParseWithLengthOpts: the root and the offset of parse_end, or `none` for NULL.
  pub parse : List ℕ → Option (Node × ℕ)
  pub kind : Node → Kind Node
  -- cJSON_GetObjectItemCaseSensitive of a node.
  pub member : Node → List ℕ → Option Node

-- value < 0 and value > limit.
abbrev pub is_below_zero : Double → Bool
is_below_zero value = value.negative

abbrev pub is_above : Double → ℕ → Bool
is_above value limit =
    not value.negative
    && (not value.finite || ltb limit value.whole || value.whole == limit && value.fraction)

-- value < -limit.
abbrev pub is_below_minus : Double → ℕ → Bool
is_below_minus value limit =
    value.negative
    && (not value.finite || ltb limit value.whole || value.whole == limit && value.fraction)

abbrev pub is_blank : ℕ → Bool
is_blank byte = byte == 32 || byte == 9 || byte == 13 || byte == 10

-- The loop over white space from parse_end on: whether it ends at the end of the bytes.
abbrev pub only_blanks : List ℕ → Bool
only_blanks [] = true
only_blanks (byte ∷ bytes) = is_blank byte && only_blanks bytes

module _ {Node : Type 0} (cjson : Cjson Node) where
  abbrev pub get_item : Option Node → List ℕ → Option Node
  get_item none name = none
  get_item (some node) name = cjson.member node name

  abbrev pub number_of_kind : Kind Node → Option Double
  number_of_kind (number value) = some value
  number_of_kind _ = none

  -- cJSON_IsNumber and valuedouble.
  unfoldable pub as_number : Option Node → Option Double
  as_number none = none
  as_number (some node) = number_of_kind (cjson.kind node)

  abbrev pub string_of_kind : Kind Node → Option (List ℕ)
  string_of_kind (string value) = value
  string_of_kind _ = none

  -- cJSON_IsString and a valuestring that is not NULL.
  unfoldable pub as_string : Option Node → Option (List ℕ)
  as_string none = none
  as_string (some node) = string_of_kind (cjson.kind node)

  abbrev pub boolean_of_kind : Kind Node → Option Bool
  boolean_of_kind (boolean value) = some value
  boolean_of_kind _ = none

  -- cJSON_IsBool and cJSON_IsTrue.
  unfoldable pub as_boolean : Option Node → Option Bool
  as_boolean none = none
  as_boolean (some node) = boolean_of_kind (cjson.kind node)

  abbrev pub array_of_kind : Kind Node → Option (List Node)
  array_of_kind (array children) = some children
  array_of_kind _ = none

  -- cJSON_IsArray and the children in their order.
  unfoldable pub as_array : Option Node → Option (List Node)
  as_array none = none
  as_array (some node) = array_of_kind (cjson.kind node)

  abbrev pub is_object_kind : Kind Node → Bool
  is_object_kind (object children) = true
  is_object_kind _ = false

  abbrev pub whole_object : List ℕ → Option (Node × ℕ) → Option Node
  whole_object bytes none = none
  whole_object bytes (some (root, parse_end)) =
      if is_object_kind (cjson.kind root)
        && leb parse_end (length bytes)
        && only_blanks (drop parse_end bytes)
      then some root
      else none
