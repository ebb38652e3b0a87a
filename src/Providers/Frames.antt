-- ===== src/Providers/Frames.antt =====
-- The loop of `parse_sse_chunks` in crates/hermes-providers/src/openai/sse.rs and anthropic/sse.rs:
-- chunks of bytes are appended to a buffer, and every event that ends in an empty line is drained
-- from it. What each client does with an event is the argument `handle`, `from_utf8_lossy` is the
-- standard library's.
use perry_hermes.Prelude.{
  ℕ, zero, suc, Option, none, some, List, [], ◌∷◌, ◌++◌, Text, length, strip_prefix, Result, ok,
  err, trim, codes,
}
use perry_hermes.Providers.ThinkTags.{find_tag}

-- the separator "\n\n"
abbrev pub blank : Text
blank = 10 ∷ 10 ∷ []

-- the payload of a line, without "data: "
unfoldable pub parse_sse_data_line : Text → Option Text
parse_sse_data_line line = elim (strip_prefix (codes "data: ") line) [
  | none ↦ none
  | some rest ↦ some (trim rest)
]

-- What is yielded, and the state if the stream has not returned.
abbrev pub Handled : Type 0 → Type 0 → Type 0
Handled O S = List O × Option S

abbrev pub after_yields : {O R : Type 0} → List O → Option (List O × R) → Option (List O × R)
after_yields ys none = none
after_yields ys (some (zs, r)) = some (ys ++ zs, r)

module _ {O S : Type 0} where
  abbrev pub after_handled :
      {R : Type 0} → Handled O S → (S → Option (List O × Option R)) → Option (List O × Option R)
  after_handled (ys, none) next = some (ys, none)
  after_handled (ys, some s) next = after_yields ys (next s)

  -- The inner loop; `none` means that the fuel has run out.
  unfoldable pub drain_events :
      (Text → S → Handled O S) → ℕ → Text → S → Option (List O × Option (Text × S))
  drain_events handle zero buffer s = elim (find_tag blank buffer) [
    | none ↦ some ([], some (buffer, s))
    | some (event, rest) ↦ none
  ]
  drain_events handle (suc fuel) buffer s = elim (find_tag blank buffer) [
    | none ↦ some ([], some (buffer, s))
    | some (event, rest) ↦ after_handled (handle (event ++ blank) s) (drain_events handle fuel rest)
  ]

  -- the rest of the stream after the inner loop
  abbrev pub after_drain :
      (Text → S → Option (List O)) → Option (List O × Option (Text × S)) → Option (List O)
  after_drain next none = none
  after_drain next (some (ys, none)) = some ys
  after_drain next (some (ys, some (buffer, s))) = elim (next buffer s) [
    | none ↦ none
    | some zs ↦ some (ys ++ zs)
  ]

  -- The outer loop. Every round of the inner one takes at least two characters, so the length of
  -- the buffer is fuel enough.
  unfoldable pub read_chunks :
      {B E : Type 0}
      → (B → Text)
      → (E → O)
      → (Text → S → Handled O S)
      → List (Result B E)
      → Text
      → S
      → Option (List O)
  unfolding drain_events
  read_chunks from_utf8_lossy transport handle [] buffer s = some []
  read_chunks from_utf8_lossy transport handle (err e ∷ chunks) buffer s = some (transport e ∷ [])
  read_chunks from_utf8_lossy transport handle (ok c ∷ chunks) buffer s =
      let grown = buffer ++ from_utf8_lossy c in
      after_drain (read_chunks from_utf8_lossy transport handle chunks)
        (drain_events handle (length grown) grown s)
