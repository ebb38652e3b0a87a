-- ===== src/Providers/Conversation.antt =====
-- What a request keeps of a conversation.
use perry_hermes.Prelude.{
  Bool, ◌≡◌, refl, sym, ap, ◌∙◌, Option, none, some, List, [], ◌∷◌, ◌++◌, Text, map, is_empty,
  if◌then◌else◌, append_assoc, append-nil,
}
use perry_hermes.Core.Message.{Role, system, user, assistant, tool, ToolCall, Message}
use perry_hermes.Providers.Anthropic.{
  WireRole, from_user, from_assistant, AnthropicContentBlock, text_block, tool_use, tool_result,
  AnthropicMessageContent, text_content, blocks, AnthropicMessage, Draft, content_to_text,
  with_results, merge_last, flush_tool_results, use_blocks, text_blocks, push_assistant, or_default,
  push_message, translate, translate_all, to_anthropic_messages,
}

-- What is said in a conversation, one thing after the other.
pub data Item (V : Type 0) : Type 0 where
  said : WireRole → Text → Item V
  called : Text → Text → V → Item V
  answered : WireRole → Text → Text → Option Bool → Item V

map-append : {A B : Type 0} (f : A → B) (xs ys : List A) → map f (xs ++ ys) ≡ map f xs ++ map f ys
map-append f [] ys = refl
map-append f (x ∷ xs) ys = ap (◌∷◌ (f x)) (map-append f xs ys)

module _ {V : Type 0} where
  abbrev pub block_item : WireRole → AnthropicContentBlock V → Item V
  block_item r (text_block s) = said r s
  block_item r (tool_use id name input) = called id name input
  block_item r (tool_result id s e) = answered r id s e

  abbrev pub content_items : WireRole → AnthropicMessageContent V → List (Item V)
  content_items r (text_content s) = said r s ∷ []
  content_items r (blocks bs) = map (block_item r) bs

  -- the items of a request
  abbrev pub wire_items : List (AnthropicMessage V) → List (Item V)
  wire_items [] = []
  wire_items (m ∷ ms) = content_items m.role m.content ++ wire_items ms

  abbrev pub call_items : Option (List (ToolCall V)) → List (Item V)
  call_items none = []
  call_items (some calls) = map (λ c. called c.id c.name c.arguments) calls

  -- the items of a message: the system message stands elsewhere, and an assistant's empty text is none
  abbrev pub message_items : Message V → List (Item V)
  message_items m = elim m.role as (λ r. List (Item V)) [
    | system ↦ []
    | user ↦ said from_user (content_to_text m.content) ∷ []
    | assistant ↦
        (if is_empty (content_to_text m.content)
          then []
          else said from_assistant (content_to_text m.content) ∷ [])
        ++ call_items m.tool_calls
    | tool ↦ answered from_user (or_default m.tool_call_id) (content_to_text m.content) none ∷ []
  ]

  abbrev pub items : List (Message V) → List (Item V)
  items [] = []
  items (m ∷ ms) = message_items m ++ items ms

  wire_items-append :
      (ms ns : List (AnthropicMessage V)) → wire_items (ms ++ ns) ≡ wire_items ms ++ wire_items ns
  wire_items-append [] ns = refl
  wire_items-append (m ∷ ms) ns =
      ap (λ t. content_items m.role m.content ++ t) (wire_items-append ms ns)
      ∙ sym (append_assoc (content_items m.role m.content) (wire_items ms) (wire_items ns))

  -- what a draft holds
  abbrev held : Draft V → List (Item V)
  held d = wire_items d.wire ++ map (block_item from_user) d.pending

  merge_last-items :
      (rs : List (AnthropicContentBlock V)) (ms : List (AnthropicMessage V))
      → wire_items (merge_last rs ms) ≡ wire_items ms ++ map (block_item from_user) rs
  merge_last-items rs [] = append-nil (map (block_item from_user) rs)
  merge_last-items rs (m ∷ []) = one m.role m.content
    where
      one :
          (r : WireRole) (c : AnthropicMessageContent V)
          → wire_items (with_results rs (record { role = r; content = c }))
            ≡ (content_items r c ++ []) ++ map (block_item from_user) rs
      one from_user (text_content s) = append-nil _
      one from_user (blocks bs) = simp (append_assoc, append-nil, map-append) refl
      one from_assistant c = simp append-nil refl
  merge_last-items rs (m ∷ n ∷ ms) =
      ap (λ t. content_items m.role m.content ++ t) (merge_last-items rs (n ∷ ms))
      ∙ sym (
          append_assoc (content_items m.role m.content) (wire_items (n ∷ ms))
            (map (block_item from_user) rs))

  flush-items : (d : Draft V) → wire_items (flush_tool_results d).wire ≡ held d
  unfolding flush_tool_results
  flush-items d = go d.pending
    where
      go :
          (ps : List (AnthropicContentBlock V))
          → wire_items (flush_tool_results (record d { pending = ps })).wire
            ≡ wire_items d.wire ++ map (block_item from_user) ps
      go [] = sym (append-nil (wire_items d.wire))
      go (p ∷ ps) = merge_last-items (p ∷ ps) d.wire

  push_assistant-items :
      (bs : List (AnthropicContentBlock V)) (d : Draft V)
      → wire_items (push_assistant bs d).wire
        ≡ wire_items d.wire ++ map (block_item from_assistant) bs
  push_assistant-items [] d = sym (append-nil (wire_items d.wire))
  push_assistant-items (b ∷ bs) d =
      wire_items-append d.wire _ ∙ ap (λ t. wire_items d.wire ++ t) (append-nil _)

  pushed :
      (bs : List (AnthropicContentBlock V)) (d : Draft V)
      → d.pending ≡ []
      → held (push_assistant bs d) ≡ wire_items d.wire ++ map (block_item from_assistant) bs
  pushed [] d e = ap (λ ps. wire_items d.wire ++ map (block_item from_user) ps) e
  pushed (b ∷ bs) d e =
      ap (λ ps. wire_items (push_assistant (b ∷ bs) d).wire ++ map (block_item from_user) ps) e
      ∙ append-nil _
      ∙ push_assistant-items (b ∷ bs) d

  use_blocks-items :
      (calls : Option (List (ToolCall V)))
      → map (block_item from_assistant) (use_blocks calls) ≡ call_items calls
  use_blocks-items none = refl
  use_blocks-items (some []) = refl
  use_blocks-items (some (c ∷ cs)) =
      ap (◌∷◌ (called c.id c.name c.arguments)) (use_blocks-items (some cs))

  text_blocks-items :
      (s : Text)
      → map (block_item from_assistant) (text_blocks s)
        ≡ (if is_empty s then [] else said from_assistant s ∷ [])
  text_blocks-items [] = refl
  text_blocks-items (c ∷ s) = refl

  -- A message is pushed onto a draft with nothing pending, or it is a tool's.
  push_message-items :
      (r : Role) (m : Message V) (wire : List (AnthropicMessage V)) (sys : Option Text)
      → let d : Draft V = record { system = sys; wire = wire; pending = [] } in
        held (push_message (record m { role = r }) d)
        ≡ wire_items wire ++ message_items (record m { role = r })
  unfolding push_message
  push_message-items system m wire sys = refl
  push_message-items user m wire sys = append-nil _ ∙ wire_items-append wire _
  push_message-items assistant m wire sys =
      let bs = text_blocks (content_to_text m.content) ++ use_blocks m.tool_calls in
      pushed bs (record { system = sys; wire = wire; pending = [] }) refl
      ∙ ap (λ t. wire_items wire ++ t)
          (map-append (block_item from_assistant) (text_blocks (content_to_text m.content))
              (use_blocks m.tool_calls)
            ∙ ap (λ t. t ++ map (block_item from_assistant) (use_blocks m.tool_calls))
                (text_blocks-items (content_to_text m.content))
            ∙ ap
                (λ t.
                  (if is_empty (content_to_text m.content)
                    then []
                    else said from_assistant (content_to_text m.content) ∷ [])
                  ++ t)
                (use_blocks-items m.tool_calls))
  push_message-items tool m wire sys = refl

  after_nothing :
      (r : Role) (m : Message V) (wire : List (AnthropicMessage V)) (sys : Option Text)
      → let d : Draft V = record { system = sys; wire = wire; pending = [] } in
        held (push_message (record m { role = r }) d)
        ≡ (wire_items wire ++ []) ++ message_items (record m { role = r })
  after_nothing r m wire sys =
      push_message-items r m wire sys
      ∙ ap (λ t. t ++ message_items (record m { role = r })) (sym (append-nil (wire_items wire)))

  after_flush :
      (r : Role) (m : Message V) (p : AnthropicContentBlock V) (ps : List (AnthropicContentBlock V))
      (wire : List (AnthropicMessage V)) (sys : Option Text)
      → let d : Draft V = record { system = sys; wire = merge_last (p ∷ ps) wire; pending = [] } in
        held (push_message (record m { role = r }) d)
        ≡ (wire_items wire ++ map (block_item from_user) (p ∷ ps))
          ++ message_items (record m { role = r })
  after_flush r m p ps wire sys =
      push_message-items r m (merge_last (p ∷ ps) wire) sys
      ∙ ap (λ t. t ++ message_items (record m { role = r })) (merge_last-items (p ∷ ps) wire)

  -- A round of the loop adds the items of its message.
  translate-items :
      (r : Role) (m : Message V) (ps : List (AnthropicContentBlock V))
      (wire : List (AnthropicMessage V)) (sys : Option Text)
      → let d : Draft V = record { system = sys; wire = wire; pending = ps } in
        held (translate (record m { role = r }) d) ≡ held d ++ message_items (record m { role = r })
  unfolding translate push_message flush_tool_results
  translate-items tool m [] wire sys = after_nothing tool m wire sys
  translate-items tool m (p ∷ ps) wire sys =
      ap (λ t. wire_items wire ++ t) (map-append (block_item from_user) (p ∷ ps) _)
      ∙ sym (append_assoc (wire_items wire) (map (block_item from_user) (p ∷ ps)) _)
  translate-items system m [] wire sys = after_nothing system m wire sys
  translate-items user m [] wire sys = after_nothing user m wire sys
  translate-items assistant m [] wire sys = after_nothing assistant m wire sys
  translate-items system m (p ∷ ps) wire sys = after_flush system m p ps wire sys
  translate-items user m (p ∷ ps) wire sys = after_flush user m p ps wire sys
  translate-items assistant m (p ∷ ps) wire sys = after_flush assistant m p ps wire sys

  translate_all-items :
      (ms : List (Message V)) (d : Draft V) → held (translate_all ms d) ≡ held d ++ items ms
  unfolding translate_all
  translate_all-items [] d = sym (append-nil (held d))
  translate_all-items (m ∷ ms) d =
      translate_all-items ms (translate m d)
      ∙ ap (λ t. t ++ items ms) (translate-items m.role m d.pending d.wire d.system)
      ∙ append_assoc (held d) (message_items m) (items ms)

  -- A request says what the conversation says, in the same order, and nothing else: the texts of the
  -- user and those of the assistant that are not empty, the tool calls, and the results of tools, each
  -- once and in a message of the user, however they are merged into messages.
  pub to_anthropic_messages-items :
      (ms : List (Message V)) → wire_items (to_anthropic_messages ms).1 ≡ items ms
  unfolding to_anthropic_messages
  to_anthropic_messages-items ms =
      flush-items (translate_all ms (record { system = none; wire = []; pending = [] }))
      ∙ translate_all-items ms (record { system = none; wire = []; pending = [] })
