-- ===== src/Core/Message.antt =====
-- crates/hermes-core/src/message.rs: messages, their content and tool calls. `V` is the type of
-- JSON values (`serde_json::Value`).
pub mod Lengths
use perry_hermes.Prelude.{
  ℕ, ◌+◌, ◌≡◌, refl, Bool, true, false, Option, none, some, List, [], ◌∷◌, ◌++◌, map, Text, codes,
  length, join,
}

pub data Role : Type 0 where
  system user assistant tool : Role

abbrev pub role_as_str : Role → Text
role_as_str system = codes "system"
role_as_str user = codes "user"
role_as_str assistant = codes "assistant"
role_as_str tool = codes "tool"

-- The derived `==` of `Role`.
abbrev pub role_eq : Role → Role → Bool
role_eq system system = true
role_eq user user = true
role_eq assistant assistant = true
role_eq tool tool = true
role_eq _ _ = false

pub data ContentPart : Type 0 where
  text : Text → ContentPart
  image_url : Text → ContentPart

pub data Content : Type 0 where
  plain : Text → Content
  parts : List ContentPart → Content

unfoldable pub part_chars : ContentPart → ℕ
part_chars (text s) = length s
part_chars (image_url url) = length url

unfoldable pub parts_chars : List ContentPart → ℕ
unfolding part_chars
parts_chars [] = 0
parts_chars (p ∷ ps) = part_chars p + parts_chars ps

unfoldable pub content_chars : Content → ℕ
unfolding parts_chars
content_chars (plain s) = length s
content_chars (parts ps) = parts_chars ps

unfoldable pub is_text : Content → Bool
is_text (plain s) = true
is_text (parts ps) = false

-- The closure of `as_text`.
unfoldable pub part_text : ContentPart → Text
part_text (text s) = s
part_text (image_url url) = codes "[image: " ++ (url ++ codes "]")

unfoldable pub as_text : Content → Text
unfolding part_text
as_text (plain s) = s
as_text (parts ps) = join (codes "\n") (map part_text ps)

pub record ToolCall (V : Type 0) : Type 0 where
  pub id : Text
  pub name : Text
  pub arguments : V

pub record Message (V : Type 0) : Type 0 where
  pub role : Role
  pub content : Content
  pub reasoning : Option Text
  pub tool_call_id : Option Text
  pub tool_calls : Option (List (ToolCall V))

module _ {V : Type 0} where
  -- `Message::user`
  abbrev pub user_message : Text → Message V
  user_message s = record {
    role = user;
    content = plain s;
    reasoning = none;
    tool_call_id = none;
    tool_calls = none;
  }

  -- `Message::assistant`
  abbrev pub assistant_message : Text → Message V
  assistant_message s = record {
    role = assistant;
    content = plain s;
    reasoning = none;
    tool_call_id = none;
    tool_calls = none;
  }

  -- `Message::system`
  abbrev pub system_message : Text → Message V
  system_message s = record {
    role = system;
    content = plain s;
    reasoning = none;
    tool_call_id = none;
    tool_calls = none;
  }

  -- `Message::tool_result`
  abbrev pub tool_result : Text → Text → Message V
  tool_result call_id s = record {
    role = tool;
    content = plain s;
    reasoning = none;
    tool_call_id = some call_id;
    tool_calls = none;
  }
