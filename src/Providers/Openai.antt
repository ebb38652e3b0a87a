-- ===== src/Providers/Openai.antt =====
-- crates/hermes-providers/src/openai/request.rs: the body of a request.
use perry_hermes.Prelude.{
  Bool, true, false, not, ◌&&◌, Option, none, some, List, [], Text, codes, map, is_empty, filter,
  if◌then◌else◌,
}
use perry_hermes.Core.Message.{
  Role, assistant, role_as_str, role_eq, ContentPart, text, image_url, Content, plain, parts,
  ToolCall, Message,
}
use perry_hermes.Core.Json.{Json}
use perry_hermes.Core.Tools.{ToolSchema}

pub data OpenaiContentPart : Type 0 where
  text_part image_part : Text → OpenaiContentPart

pub data OpenaiMessageContent : Type 0 where
  text_content : Text → OpenaiMessageContent
  part_list : List OpenaiContentPart → OpenaiMessageContent

-- `type` is always "function" here and in `OpenaiTool`.
pub record OpenaiToolCallRef : Type 0 where
  pub id : Text
  pub name : Text
  pub arguments : Text

pub record OpenaiMessage : Type 0 where
  pub role : Text
  pub content : Option OpenaiMessageContent
  pub reasoning_content : Option Text
  pub tool_call_id : Option Text
  pub tool_calls : Option (List OpenaiToolCallRef)

pub record OpenaiTool (V : Type 0) : Type 0 where
  pub name : Text
  pub description : Text
  pub parameters : V

pub record OpenaiChatRequest (V : Type 0) : Type 0 where
  pub model : Text
  pub messages : List OpenaiMessage
  pub tools : List (OpenaiTool V)
  pub tool_choice : Option Text
  pub stream : Bool
  pub include_usage : Option Bool

-- `is_none_or(is_empty)`
abbrev pub none_or_empty : {A : Type 0} → Option (List A) → Bool
none_or_empty none = true
none_or_empty (some xs) = is_empty xs

abbrev pub content_empty : Content → Bool
content_empty (plain s) = is_empty s
content_empty (parts ps) = is_empty ps

abbrev pub part_of : ContentPart → OpenaiContentPart
part_of (text s) = text_part s
part_of (image_url url) = image_part url

abbrev pub raw_content : Content → OpenaiMessageContent
raw_content (plain s) = text_content s
raw_content (parts ps) = part_list (map part_of ps)

-- An assistant's empty text is left out.
abbrev pub sent_content : Role → OpenaiMessageContent → Option OpenaiMessageContent
sent_content assistant (text_content []) = none
sent_content _ c = some c

module _ (json : Json) where
  unfoldable pub assistant_is_empty : Message json.Value → Bool
  assistant_is_empty m =
      if role_eq m.role assistant
      then content_empty m.content && (none_or_empty m.reasoning && none_or_empty m.tool_calls)
      else false

  abbrev pub call_ref : ToolCall json.Value → OpenaiToolCallRef
  call_ref c = record { id = c.id; name = c.name; arguments = json.to_string c.arguments }

  abbrev pub call_refs : Option (List (ToolCall json.Value)) → Option (List OpenaiToolCallRef)
  call_refs none = none
  call_refs (some calls) = some (map call_ref calls)

  unfoldable pub to_openai_message : Message json.Value → OpenaiMessage
  to_openai_message m = record {
    role = role_as_str m.role;
    content = sent_content m.role (raw_content m.content);
    reasoning_content = m.reasoning;
    tool_call_id = m.tool_call_id;
    tool_calls = call_refs m.tool_calls;
  }

  abbrev pub to_openai_tool : ToolSchema json.Value → OpenaiTool json.Value
  to_openai_tool t = record {
    name = t.name;
    description = t.description;
    parameters = t.parameters;
  }

  unfoldable pub build_chat_request :
      Text → List (Message json.Value) → List (ToolSchema json.Value) → OpenaiChatRequest json.Value
  unfolding assistant_is_empty to_openai_message
  build_chat_request model messages tools =
      let oai_tools = map to_openai_tool tools in
      record {
        model = model;
        messages = map to_openai_message (filter (λ m. not (assistant_is_empty m)) messages);
        tools = oai_tools;
        tool_choice = if is_empty oai_tools then none else some (codes "auto");
        stream = true;
        include_usage = some true;
      }
