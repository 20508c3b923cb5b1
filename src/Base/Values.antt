-- ===== src/Base/Values.antt =====
-- Python's dynamically typed values, as they come from JSON: tool arguments, message payloads.
use Prim.Native.Nat.{ℕ, ◌/◌, ◌%◌, ◌^◌}
use mathlib.Core.Bool.{Bool, true, false, not, ◌&&◌, ◌||◌}
use mathlib.Core.Option.{Option, none, some}
use mathlib.Core.List.{List, [], ◌∷◌}
use agentic_ai_tee.Base.Tests.{if◌then◌else◌, ltb, leb, ◌==◌, is_some}
use agentic_ai_tee.Base.Lists.{is_empty, all}
use agentic_ai_tee.Base.Texts.{Text, text_eq}
use agentic_ai_tee.Base.Int.{ℤ, is_zero}

-- A float is its bit pattern: the program only tests floats for zero.
mutual
  pub data Value : Type 0 where
    none_value : Value
    bool : Bool → Value
    int : ℤ → Value
    float : ℕ → Value
    str : Text → Value
    list : Items → Value
    dict : Fields → Value

  pub data Items : Type 0 where
    nil : Items
    cons : Value → Items → Items

  pub data Fields : Type 0 where
    end : Fields
    field : Text → Value → Fields → Fields

-- `d.get(k)`
unfoldable pub get_field : Fields → Text → Option Value
get_field end k = none
get_field (field j v d) k = if text_eq j k then some v else get_field d k

-- `d.get(k, default)`
abbrev pub get_field_or : Fields → Text → Value → Value
get_field_or d k v = elim (get_field d k) [ none ↦ v | some w ↦ w ]

abbrev pub has_field : Fields → Text → Bool
has_field d k = is_some (get_field d k)

abbrev pub items : Items → List Value
items nil = []
items (cons v vs) = v ∷ items vs

-- `bool(v)`: the two zeros of a float are the patterns 0 and 2^63.
abbrev pub truthy : Value → Bool
truthy none_value = false
truthy (bool b) = b
truthy (int n) = not (is_zero n)
truthy (float b) = not ((b == 0) || (b == 2 ^ 63))
truthy (str t) = not (is_empty t)
truthy (list nil) = false
truthy (list (cons v vs)) = true
truthy (dict end) = false
truthy (dict (field k v d)) = true

abbrev pub is_str : Value → Bool
is_str (str t) = true
is_str _ = false

-- `isinstance(v, int)`: a `bool` is an `int` too.
abbrev pub is_int : Value → Bool
is_int (int n) = true
is_int (bool b) = true
is_int _ = false

abbrev pub is_list : Value → Bool
is_list (list vs) = true
is_list _ = false

abbrev pub is_dict : Value → Bool
is_dict (dict d) = true
is_dict _ = false

-- A code point that is no surrogate.
abbrev pub is_scalar : ℕ → Bool
is_scalar c = ltb c 0xd800 || (leb 0xe000 c && ltb c 0x110000)

-- What JSON carries faithfully: finite floats, texts without surrogates, each key once.
unfoldable mutual
  pub is_json : Value → Bool
  is_json none_value = true
  is_json (bool b) = true
  is_json (int n) = true
  is_json (float b) = not (b / 2 ^ 52 % 2048 == 2047)
  is_json (str t) = all is_scalar t
  is_json (list vs) = is_json_items vs
  is_json (dict d) = is_json_fields d

  pub is_json_items : Items → Bool
  is_json_items nil = true
  is_json_items (cons v vs) = is_json v && is_json_items vs

  pub is_json_fields : Fields → Bool
  is_json_fields end = true
  is_json_fields (field k v d) =
      all is_scalar k && (not (has_field d k) && (is_json v && is_json_fields d))
