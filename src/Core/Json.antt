-- ===== src/Core/Json.antt =====
-- What the program relies on of `serde_json`, which is not part of the repository: the type
-- `Value`, its constructors `Null` and `String`, printing and parsing.
use perry_hermes.Prelude.{ℕ, Text, Bool, true, false, Option, none, some, Result, ◌≡◌}

pub record Json : Type 1 where
  pub Value : Type 0
  pub null : Value
  pub string : Text → Value
  -- `Value::is_null` and `Value::as_str`.
  pub is_null : Value → Bool
  pub as_str : Value → Option Text
  -- `Value::to_string` and `serde_json::from_str`.
  pub to_string : Value → Text
  pub from_str : Text → Option Value
  pub is_null-null : is_null null ≡ true
  pub is_null-string : (s : Text) → is_null (string s) ≡ false
  pub as_str-null : as_str null ≡ none
  pub as_str-string : (s : Text) → as_str (string s) ≡ some s

-- Reading a `Value`: `serde_json::from_str` with the text of its error, `Value::get` by key and
-- by index, `as_str`, `as_u64`.
pub record JsonReader : Type 1 where
  pub Value : Type 0
  pub from_str : Text → Result Value Text
  pub get : Value → Text → Option Value
  pub get_index : Value → ℕ → Option Value
  pub as_str : Value → Option Text
  pub as_u64 : Value → Option ℕ
