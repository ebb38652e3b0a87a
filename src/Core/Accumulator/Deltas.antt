-- ===== src/Core/Accumulator/Deltas.antt =====
-- What a list of deltas holds for crates/hermes-core/src/accumulator.rs: the texts, and the tool call of
-- each index.
use perry_hermes.Prelude.{
  unwrap_or, ℕ, ◌≡◌, refl, sym, Bool, true, false, Option, none, some, List, [], ◌∷◌, ◌++◌,
  append-nil, Text, ltb, ◌==◌, if◌then◌else◌,
}
use perry_hermes.Core.Message.{ToolCall}
use perry_hermes.Core.Provider.{CompletionDelta, ToolCallDelta}
use perry_hermes.Core.Accumulator.{CallMap, append_some}

-- The tool call under an index.
abbrev pub call_at : {V : Type 0} → ℕ → CallMap V → Option (ToolCall V)
call_at i [] = none
call_at i ((j, c) ∷ m) = if i == j then some c else call_at i m

-- The map is in the order of its keys, all of them above a bound.
abbrev pub Above : {V : Type 0} → ℕ → CallMap V → Type 0
Above n [] = Unit
Above n ((j, c) ∷ m) = (ltb n j ≡ true) × Above j m

abbrev pub IsSorted : {V : Type 0} → CallMap V → Type 0
IsSorted [] = Unit
IsSorted ((j, c) ∷ m) = Above j m

-- The texts of the content deltas and of the reasoning deltas, joined.
abbrev pub content_of : List CompletionDelta → Text
content_of [] = []
content_of (d ∷ ds) = append_some [] d.content_delta ++ content_of ds

abbrev pub reasoning_of : List CompletionDelta → Text
reasoning_of [] = []
reasoning_of (d ∷ ds) = append_some [] d.reasoning_delta ++ reasoning_of ds

-- The tool-call deltas of one index, in order.
abbrev pub with_index : ℕ → Option ToolCallDelta → List ToolCallDelta → List ToolCallDelta
with_index i none rest = rest
with_index i (some td) rest = if i == td.index then td ∷ rest else rest

abbrev pub deltas_at : ℕ → List CompletionDelta → List ToolCallDelta
deltas_at i [] = []
deltas_at i (d ∷ ds) = with_index i d.tool_call_delta (deltas_at i ds)

-- The last id, the last name and all the argument fragments of those deltas.
abbrev pub last_id : Text → List ToolCallDelta → Text
last_id s [] = s
last_id s (td ∷ tds) = last_id (unwrap_or td.id s) tds

abbrev pub last_name : Text → List ToolCallDelta → Text
last_name s [] = s
last_name s (td ∷ tds) = last_name (unwrap_or td.name s) tds

abbrev pub fragments : List ToolCallDelta → Text
fragments [] = []
fragments (td ∷ tds) = unwrap_or td.arguments_fragment [] ++ fragments tds

abbrev pub has_fragment : List ToolCallDelta → Bool
has_fragment [] = false
has_fragment (td ∷ tds) = elim td.arguments_fragment [ none ↦ has_fragment tds | some f ↦ true ]

pub append-append_some : (s : Text) (o : Option Text) → append_some s o ≡ s ++ append_some [] o
append-append_some s none = sym (append-nil s)
append-append_some s (some t) = refl
