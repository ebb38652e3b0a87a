-- ===== src/Core/Message/Lengths.antt =====
-- `Message::char_len` of crates/hermes-core/src/message.rs, and how it relates to the text of a
-- message.
use perry_hermes.Prelude.{
  ℕ, ◌+◌, ◌≤◌, ◌++◌, none, some, List, [], ◌∷◌, arith, map, codes, length, length-append, join,
}
use perry_hermes.Core.Json.{Json}
use perry_hermes.Core.Message.{
  Message, ToolCall, Content, ContentPart, text, image_url, plain, parts, content_chars,
  parts_chars, as_text, part_text,
}

module _ (J : Json) where
  open J use {Value, to_string}

  unfoldable pub arguments_chars : List (ToolCall Value) → ℕ
  arguments_chars [] = 0
  arguments_chars (call ∷ calls) = length (to_string call.arguments) + arguments_chars calls

  unfoldable pub char_len : Message Value → ℕ
  unfolding content_chars arguments_chars
  char_len m =
      content_chars m.content
      + elim m.reasoning [ none ↦ 0 | some s ↦ length s ]
      + elim m.tool_calls [ none ↦ 0 | some calls ↦ arguments_chars calls ]

parts_text_bounds :
    (ps : List ContentPart) → parts_chars ps ≤ length (join (codes "\n") (map part_text ps))
unfolding parts_chars part_text
parts_text_bounds [] = omega arith
parts_text_bounds (text s ∷ []) = omega arith
parts_text_bounds (image_url s ∷ []) =
    omega (
      arith,
      length-append {0} (codes "[image: ") (s ++ codes "]"),
      length-append {0} s (codes "]"),
    )
parts_text_bounds (text s ∷ q ∷ ps) = omega (
  arith,
  length-append {0} s (codes "\n" ++ join (codes "\n") (map part_text (q ∷ ps))),
  parts_text_bounds (q ∷ ps),
)
parts_text_bounds (image_url s ∷ q ∷ ps) = omega (
  arith,
  length-append {0} (codes "[image: " ++ (s ++ codes "]"))
      (codes "\n" ++ join (codes "\n") (map part_text (q ∷ ps))),
  length-append {0} s (codes "]"),
  parts_text_bounds (q ∷ ps),
)

-- The character count of a content is at most the length of its text: markers and line breaks
-- only add to it.
pub content_chars-le-as_text : (c : Content) → content_chars c ≤ length (as_text c)
unfolding content_chars as_text
content_chars-le-as_text (plain s) = omega arith
content_chars-le-as_text (parts ps) = parts_text_bounds ps
