-- ===== src/Core/Accumulator/Assembly.antt =====
-- What the accumulator has gathered after a stream, described delta by delta: the texts, and the
-- tool call of each index.
use perry_hermes.Prelude.{
  unwrap_or, ℕ, ◌≡◌, refl, sym, ap, ◌∙◌, inl, inr, true, false, Option, none, some, List, [], ◌∷◌,
  ◌++◌, append_assoc, append-nil, Text, arith, ltb, ◌==◌, if◌then◌else◌, Bool-cases,
}
use perry_hermes.Core.Json.{Json}
use perry_hermes.Core.Message.{ToolCall}
use perry_hermes.Core.Provider.{CompletionDelta, ToolCallDelta}
use perry_hermes.Core.Accumulator.{
  StreamAccumulator, CallMap, append_some, upsert, new, empty_call, update_call, existing_arguments,
  add_tool_call, add, add_all,
}
use perry_hermes.Core.Accumulator.Deltas.{
  call_at, Above, IsSorted, content_of, reasoning_of, with_index, deltas_at, last_id, last_name,
  fragments, has_fragment, append-append_some,
}

module _ (J : Json) where
  open J use {Value, null, string, is_null, as_str, to_string, from_str}

  pub content-add_all :
      (acc : StreamAccumulator Value) (ds : List CompletionDelta)
      → (add_all J acc ds).content ≡ acc.content ++ content_of ds
  unfolding add_all
  content-add_all acc [] = sym (append-nil acc.content)
  content-add_all acc (d ∷ ds) =
      content-add_all (add J acc d) ds
      ∙ ap (λ s. s ++ content_of ds) (append-append_some acc.content d.content_delta)
      ∙ append_assoc acc.content (append_some [] d.content_delta) (content_of ds)

  pub reasoning-add_all :
      (acc : StreamAccumulator Value) (ds : List CompletionDelta)
      → (add_all J acc ds).reasoning ≡ acc.reasoning ++ reasoning_of ds
  unfolding add_all
  reasoning-add_all acc [] = sym (append-nil acc.reasoning)
  reasoning-add_all acc (d ∷ ds) =
      reasoning-add_all (add J acc d) ds
      ∙ ap (λ s. s ++ reasoning_of ds) (append-append_some acc.reasoning d.reasoning_delta)
      ∙ append_assoc acc.reasoning (append_some [] d.reasoning_delta) (reasoning_of ds)

  -- What the deltas of one index make of a call that may be there already.
  abbrev pub extended : Option (ToolCall Value) → List ToolCallDelta → Option (ToolCall Value)
  extended o [] = o
  extended o (td ∷ tds) = extended (some (update_call J td (unwrap_or o (empty_call J)))) tds

  Above-weaken : (n k : ℕ) (m : CallMap Value) → ltb k n ≡ true → Above n m → Above k m
  Above-weaken n k [] h a = tt
  Above-weaken n k ((j, c) ∷ m) h a = (ground (arith, a.0), a.1)

  Above-IsSorted : (n : ℕ) (m : CallMap Value) → Above n m → IsSorted m
  Above-IsSorted n [] a = tt
  Above-IsSorted n ((j, c) ∷ m) a = a.1

  call_at-Above : (n : ℕ) (m : CallMap Value) → Above n m → call_at n m ≡ none
  call_at-Above n [] a = refl
  call_at-Above n ((j, c) ∷ m) a =
      ground (arith, a.0, call_at-Above n m (Above-weaken j n m a.0 a.1))

  module _ (i : ℕ) (f : ToolCall Value → ToolCall Value) (d : ToolCall Value) where
    upsert-Above :
        (n : ℕ) (m : CallMap Value) → ltb n i ≡ true → Above n m → Above n (upsert i f d m)
    unfolding upsert
    upsert-Above n [] h a = (h, tt)
    upsert-Above n ((j, c) ∷ m) h a = ground (arith, a.0, a.1, upsert-Above j m)

    pub upsert-IsSorted : (m : CallMap Value) → IsSorted m → IsSorted (upsert i f d m)
    unfolding upsert
    upsert-IsSorted [] a = tt
    upsert-IsSorted ((j, c) ∷ m) a = ground (arith, a, upsert-Above j m)

    pub call_at-upsert :
        (k : ℕ) (m : CallMap Value)
        → IsSorted m
        → call_at k (upsert i f d m)
          ≡ (if k == i then some (f (unwrap_or (call_at i m) d)) else call_at k m)
    unfolding upsert
    call_at-upsert k [] a = refl
    call_at-upsert k ((j, c) ∷ m) a = ground (
      arith,
      call_at-upsert k m (Above-IsSorted j m a),
      λ (h : ltb i j ≡ true). call_at-Above i m (Above-weaken j i m h a),
    )

  add-IsSorted :
      (acc : StreamAccumulator Value) (d : CompletionDelta)
      → IsSorted acc.tool_calls
      → IsSorted (add J acc d).tool_calls
  unfolding add
  add-IsSorted acc d a = go d.tool_call_delta
    where
      go : (o : Option ToolCallDelta) → IsSorted (add_tool_call J o acc.tool_calls)
      go none = a
      go (some td) = upsert-IsSorted td.index (update_call J td) (empty_call J) acc.tool_calls a

  -- Whatever arrives, the calls stay in the order of their indices, with no index twice.
  pub add_all-IsSorted :
      (acc : StreamAccumulator Value) (ds : List CompletionDelta)
      → IsSorted acc.tool_calls
      → IsSorted (add_all J acc ds).tool_calls
  unfolding add_all
  add_all-IsSorted acc [] a = a
  add_all-IsSorted acc (d ∷ ds) a = add_all-IsSorted (add J acc d) ds (add-IsSorted acc d a)

  call_at-add :
      (i : ℕ) (acc : StreamAccumulator Value) (d : CompletionDelta)
      → IsSorted acc.tool_calls
      → call_at i (add J acc d).tool_calls
        ≡ extended (call_at i acc.tool_calls) (with_index i d.tool_call_delta [])
  unfolding add
  call_at-add i acc d a = go d.tool_call_delta
    where
      go :
          (o : Option ToolCallDelta)
          → call_at i (add_tool_call J o acc.tool_calls)
            ≡ extended (call_at i acc.tool_calls) (with_index i o [])
      go none = refl
      go (some td) =
          ground
            (arith, call_at-upsert td.index (update_call J td) (empty_call J) i acc.tool_calls a)

  extended-with_index :
      (i : ℕ) (o : Option ToolCallDelta) (c : Option (ToolCall Value)) (tds : List ToolCallDelta)
      → extended (extended c (with_index i o [])) tds ≡ extended c (with_index i o tds)
  extended-with_index i none c tds = refl
  extended-with_index i (some td) c tds = ground arith

  pub call_at-add_all :
      (i : ℕ) (acc : StreamAccumulator Value) (ds : List CompletionDelta)
      → IsSorted acc.tool_calls
      → call_at i (add_all J acc ds).tool_calls
        ≡ extended (call_at i acc.tool_calls) (deltas_at i ds)
  unfolding add_all
  call_at-add_all i acc [] a = refl
  call_at-add_all i acc (d ∷ ds) a =
      call_at-add_all i (add J acc d) ds (add-IsSorted acc d a)
      ∙ ap (λ c. extended c (deltas_at i ds)) (call_at-add i acc d a)
      ∙ extended-with_index i d.tool_call_delta (call_at i acc.tool_calls) (deltas_at i ds)

  -- The arguments after some more fragments.
  abbrev pub joined_arguments : Value → List ToolCallDelta → Value
  joined_arguments v tds =
      if has_fragment tds then string (existing_arguments J v ++ fragments tds) else v

  existing-string : (s : Text) → existing_arguments J (string s) ≡ s
  unfolding existing_arguments
  existing-string s = rw (J.is_null-string s, J.as_str-string s)

  existing-null : existing_arguments J null ≡ []
  unfolding existing_arguments
  existing-null = rw J.is_null-null

  fragments_without : (tds : List ToolCallDelta) → has_fragment tds ≡ false → fragments tds ≡ []
  fragments_without [] h = refl
  fragments_without (td ∷ tds) h = ground (arith, fragments_without tds)

  joined_arguments-fragment :
      (v : Value) (f : Text) (tds : List ToolCallDelta)
      → joined_arguments (string (existing_arguments J v ++ f)) tds
        ≡ string (existing_arguments J v ++ (f ++ fragments tds))
  joined_arguments-fragment v f tds = elim (Bool-cases (has_fragment tds)) [
    | inl more ↦
        rw (more, existing-string (existing_arguments J v ++ f))
          (ap string (append_assoc (existing_arguments J v) f (fragments tds)))
    | inr done ↦ rw (done, fragments_without tds done, append-nil f)
  ]

  joined_arguments-update :
      (c : ToolCall Value) (td : ToolCallDelta) (tds : List ToolCallDelta)
      → joined_arguments (update_call J td c).arguments tds
        ≡ joined_arguments c.arguments (td ∷ tds)
  unfolding update_call
  joined_arguments-update c td tds = go td.arguments_fragment
    where
      go :
          (o : Option Text)
          → joined_arguments
              (elim o [
                | none ↦ c.arguments
                | some f ↦ string (existing_arguments J c.arguments ++ f)
              ])
              tds
            ≡ joined_arguments c.arguments (record td { arguments_fragment = o } ∷ tds)
      go none = refl
      go (some f) = joined_arguments-fragment c.arguments f tds

  -- Folding the deltas into a call keeps the last id and the last name, and joins the fragments.
  extended-some :
      (c : ToolCall Value) (tds : List ToolCallDelta)
      → extended (some c) tds
        ≡ some (record {
          id = last_id c.id tds;
          name = last_name c.name tds;
          arguments = joined_arguments c.arguments tds;
        })
  unfolding update_call
  extended-some c [] = refl
  extended-some c (td ∷ tds) =
      extended-some (update_call J td c) tds
      ∙ ap
          (λ v. some (record {
            id = last_id c.id (td ∷ tds);
            name = last_name c.name (td ∷ tds);
            arguments = v;
          }))
          (joined_arguments-update c td tds)

  -- The call that the deltas of one index describe, if there are any.
  abbrev pub assembled : List ToolCallDelta → Option (ToolCall Value)
  assembled [] = none
  assembled (td ∷ tds) = some (record {
    id = last_id [] (td ∷ tds);
    name = last_name [] (td ∷ tds);
    arguments = if has_fragment (td ∷ tds) then string (fragments (td ∷ tds)) else null;
  })

  extended-none : (tds : List ToolCallDelta) → extended none tds ≡ assembled tds
  unfolding update_call
  extended-none [] = refl
  extended-none (td ∷ tds) =
      extended-some (empty_call J) (td ∷ tds)
      ∙ ap
          (λ s. some (record {
            id = last_id [] (td ∷ tds);
            name = last_name [] (td ∷ tds);
            arguments =
                if has_fragment (td ∷ tds) then string (s ++ fragments (td ∷ tds)) else null;
          }))
          existing-null

  -- After any stream of deltas, however those of different indices interleave, the call of an
  -- index is there exactly if the stream has a tool-call delta of that index. It has the last id and
  -- the last name that those deltas carry (empty if none does), and as its arguments the JSON
  -- string of all their argument fragments joined in order, or `null` if there is no fragment.
  pub call_at-stream :
      (i : ℕ) (ds : List CompletionDelta)
      → call_at i (add_all J (new J) ds).tool_calls ≡ assembled (deltas_at i ds)
  call_at-stream i ds = call_at-add_all i (new J) ds tt ∙ extended-none (deltas_at i ds)
