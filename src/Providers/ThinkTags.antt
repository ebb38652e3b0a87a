-- ===== src/Providers/ThinkTags.antt =====
-- `split_think_tag_content` of crates/hermes-providers/src/openai/sse.rs: a chunk of content is split
-- into visible text and reasoning, with a flag that is kept from chunk to chunk.
use perry_hermes.Prelude.{
  ℕ, zero, suc, Bool, true, false, Option, none, some, [], ◌∷◌, ◌++◌, Text, codes, strip_prefix,
  length,
}

abbrev pub open_tag : Text
open_tag = codes "<think>"

abbrev pub close_tag : Text
close_tag = codes "</think>"

-- `str::find` of a tag: the text before it and after it
abbrev pub cons_before : ℕ → Option (Text × Text) → Option (Text × Text)
cons_before c none = none
cons_before c (some (before, after)) = some (c ∷ before, after)

abbrev pub find_tag : Text → Text → Option (Text × Text)
find_tag tag [] = none
find_tag tag (c ∷ s) = elim (strip_prefix tag (c ∷ s)) [
  | none ↦ cons_before c (find_tag tag s)
  | some after ↦ some ([], after)
]

-- the variables of the loop, and the flag of the state
pub record Split : Type 0 where
  pub in_think_tag : Bool
  pub visible : Text
  pub reasoning : Text

-- the tag that ends the text of a flag
abbrev pub tag_of : Bool → Text
tag_of true = close_tag
tag_of false = open_tag

abbrev pub push_text : Text → Split → Split
push_text s x = elim x.in_think_tag [
  | true ↦ record x { reasoning = x.reasoning ++ s }
  | false ↦ record x { visible = x.visible ++ s }
]

abbrev pub flip : Split → Split
flip x = record x { in_think_tag = elim x.in_think_tag [ true ↦ false | false ↦ true ] }

-- The loop; `none` means that the fuel has run out.
unfoldable pub split_loop : ℕ → Text → Split → Option Split
split_loop fuel [] x = some x
split_loop zero (c ∷ s) x = none
split_loop (suc fuel) (c ∷ s) x = elim (find_tag (tag_of x.in_think_tag) (c ∷ s)) [
  | none ↦ split_loop fuel [] (push_text (c ∷ s) x)
  | some (before, after) ↦ split_loop fuel after (flip (push_text before x))
]

abbrev pub text_or_none : Text → Option Text
text_or_none [] = none
text_or_none (c ∷ s) = some (c ∷ s)

-- what the function returns, and the new flag
abbrev pub outcome : Bool → Option Split → Option ((Option Text × Option Text) × Bool)
outcome flag none = none
outcome flag (some x) = some ((text_or_none x.visible, text_or_none x.reasoning), x.in_think_tag)

-- Every round of the loop takes at least one character, so the length of the content is fuel
-- enough.
unfoldable pub split_think_tag_content :
    Option Text → Bool → Option ((Option Text × Option Text) × Bool)
unfolding split_loop
split_think_tag_content none flag = some ((none, none), flag)
split_think_tag_content (some content) flag = outcome flag (
    split_loop (length content) content
      (record { in_think_tag = flag; visible = []; reasoning = [] }))
