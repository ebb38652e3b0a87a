-- ===== src/Files/Context.antt =====
-- The context of matches in `rg_content_search` of
-- crates/hermes-skill-tools/src/tools/files/search.rs.
use perry_hermes.Prelude.{
  All-take, All-drop, length-take, ℕ, zero, suc, ◌+◌, ◌-◌, ◌≤◌, ◌≡◌, true, List, [], ◌∷◌, ◌++◌,
  Text, codes, text_eq, drop, length, lines, is_empty, ltb, leb, if◌then◌else◌, Result-cases,
  Option-cases, arith, All, Bool-cases, inl, inr, length-append,
}
use perry_hermes.Core.Json.{JsonReader}
use perry_hermes.Files.Names.{Hit}
use perry_hermes.Files.Ripgrep.{
  RgMatch, RgState, push_after, keep_last, on_context, on_match, str_at, on_event, rg_lines,
  RgPayload, plain, with_context, rg_payload, RgRun, spawn_failed, exited, rg_content_search,
}

-- A match with no more lines before and after it than the context asked for.
abbrev pub IsBounded : ℕ → RgMatch → Type 0
IsBounded context m = (length m.before ≤ context) × (length m.after ≤ context)

-- The last match still has room for the lines that are to follow it.
abbrev HasRoom : ℕ → ℕ → List RgMatch → Type 0
HasRoom context r [] = Unit
HasRoom context r (m ∷ []) = (length m.before ≤ context) × (length m.after + r ≤ context)
HasRoom context r (m ∷ n ∷ ms) = IsBounded context m × HasRoom context r (n ∷ ms)

abbrev IsGood : ℕ → RgState → Type 0
IsGood context st =
    HasRoom context st.after_remaining st.all_matches × (length st.pending_before ≤ context)

HasRoom-IsBounded :
    (context r : ℕ) (ms : List RgMatch) → HasRoom context r ms → All (IsBounded context) ms
HasRoom-IsBounded context r [] h = tt
HasRoom-IsBounded context r (m ∷ []) h = ((h.0, omega (arith, h.1)), tt)
HasRoom-IsBounded context r (m ∷ n ∷ ms) h = (h.0, HasRoom-IsBounded context r (n ∷ ms) h.1)

push_after-HasRoom :
    (context r : ℕ) (content : Text) (ms : List RgMatch)
    → HasRoom context (suc r) ms
    → HasRoom context r (push_after content ms)
push_after-HasRoom context r content [] h = tt
push_after-HasRoom context r content (m ∷ []) h =
    (h.0, omega (arith, h.1, length-append m.after (content ∷ [])))
push_after-HasRoom context r content (m ∷ n ∷ []) h =
    (h.0, push_after-HasRoom context r content (n ∷ []) h.1)
push_after-HasRoom context r content (m ∷ n ∷ o ∷ ms) h =
    (h.0, push_after-HasRoom context r content (n ∷ o ∷ ms) h.1)

append-HasRoom :
    (context r : ℕ) (ms : List RgMatch) (m : RgMatch)
    → All (IsBounded context) ms
    → (length m.before ≤ context) × (length m.after + r ≤ context)
    → HasRoom context r (ms ++ (m ∷ []))
append-HasRoom context r [] m h k = k
append-HasRoom context r (x ∷ []) m h k = (h.0, k)
append-HasRoom context r (x ∷ y ∷ ms) m h k = (h.0, append-HasRoom context r (y ∷ ms) m h.1 k)

length-keep_last : (context : ℕ) (xs : List Text) → length (keep_last context xs) ≤ context
length-keep_last context [] = omega arith
length-keep_last context (x ∷ xs) = ground (arith, length-keep_last context xs)

on_context-IsGood :
    (context : ℕ) (content : Text) (st : RgState)
    → IsGood context st
    → IsGood context (on_context context content st)
unfolding on_context
on_context-IsGood context content st h = (room st.after_remaining h.0, length-keep_last context _)
  where
    room :
        (r : ℕ)
        → HasRoom context r st.all_matches
        → HasRoom context
            (r - 1)
            (if ltb 0 r then push_after content st.all_matches else st.all_matches)
    room zero k = k
    room (suc r) k =
        let e : suc r - 1 ≡ r = omega arith in
        let positive : ltb 0 (suc r) ≡ true = ground arith in
        rw (e, positive) (push_after-HasRoom context r content st.all_matches k)

on_match-IsGood :
    (context : ℕ) (hit : Hit) (st : RgState)
    → IsGood context st
    → IsGood context (on_match context hit st)
unfolding on_match
on_match-IsGood context hit st h = (
  append-HasRoom context context st.all_matches _ (HasRoom-IsBounded context _ st.all_matches h.0)
      (h.1, omega arith),
  omega arith,
)

on_event-IsGood :
    (J : JsonReader) (context : ℕ) (v : J.Value) (st : RgState)
    → IsGood context st
    → IsGood context (on_event J context v st)
unfolding on_event
on_event-IsGood J context v st h = elim (Option-cases (str_at J (codes "type" ∷ []) v)) [
  | inl k ↦ rw (k, on_event) h
  | inr (kind, k) ↦ elim (Bool-cases (text_eq kind (codes "context"))) [
    | inl c ↦ rw (k, c, on_event) (on_context-IsGood context _ st h)
    | inr c ↦ elim (Bool-cases (text_eq kind (codes "match"))) [
      | inl m ↦ rw (k, c, m, on_event) (on_match-IsGood context _ st h)
      | inr m ↦ rw (k, c, m, on_event) h
    ]
  ]
]

rg_lines-IsGood :
    (J : JsonReader) (context : ℕ) (ls : List Text) (st : RgState)
    → IsGood context st
    → IsGood context (rg_lines J context ls st)
unfolding rg_lines
rg_lines-IsGood J context [] st h = h
rg_lines-IsGood J context (l ∷ ls) st h = elim (Bool-cases (is_empty l)) [
  | inl e ↦ rw (e, rg_lines) (rg_lines-IsGood J context ls st h)
  | inr e ↦ elim (Result-cases (J.from_str l)) [
    | inl (v, k) ↦
        rw (e, k, rg_lines)
          (rg_lines-IsGood J context ls (on_event J context v st)
            (on_event-IsGood J context v st h))
    | inr (x, k) ↦ rw (e, k, rg_lines) (rg_lines-IsGood J context ls st h)
  ]
]

-- the matches that a result shows
abbrev pub shown : RgPayload → List RgMatch
shown (plain p) = []
shown (with_context ms total truncated) = ms

abbrev IsShown : ℕ → ℕ → RgPayload → Type 0
IsShown context limit r = All (IsBounded context) (shown r) × (length (shown r) ≤ limit)

rg_payload-IsShown :
    (output_mode : Text) (context limit offset : ℕ) (ms : List RgMatch)
    → All (IsBounded context) ms
    → IsShown context limit (rg_payload output_mode limit offset ms)
unfolding rg_payload
rg_payload-IsShown output_mode context limit offset ms h =
    elim (Bool-cases (text_eq output_mode (codes "files_only"))) [
      | inl f ↦ rw f (tt, omega arith)
      | inr f ↦ elim (Bool-cases (text_eq output_mode (codes "count"))) [
        | inl c ↦ rw (f, c) (tt, omega arith)
        | inr c ↦
            rw (f, c)
              (
                All-take _ limit (drop offset ms) (All-drop _ offset ms h),
                length-take limit (drop offset ms),
              )
      ]
    ]

-- Whatever ripgrep prints and however it ends, a result shows at most `limit` matches, and each
-- of them has at most `context` lines before it and at most `context` after it.
pub rg_content_search-bounds :
    (J : JsonReader) (output_mode : Text) (context limit offset : ℕ) (run : RgRun)
    → All (IsBounded context) (shown (rg_content_search J output_mode context limit offset run))
      × (length (shown (rg_content_search J output_mode context limit offset run)) ≤ limit)
unfolding rg_content_search
rg_content_search-bounds J output_mode context limit offset (spawn_failed e) = (tt, omega arith)
rg_content_search-bounds J output_mode context limit offset (exited code stdout stderr) =
    let st : RgState =
      rg_lines J context (lines stdout)
        (record { all_matches = []; pending_before = []; after_remaining = 0 }) in
    let good = rg_lines-IsGood J context (lines stdout) _ (tt, omega arith) in
    let bounded = HasRoom-IsBounded context st.after_remaining st.all_matches good.0 in
    elim (Option-cases code) [
      | inl n ↦
          rw (n, rg_content_search)
            (rg_payload-IsShown output_mode context limit offset st.all_matches bounded)
      | inr (c, n) ↦ elim (Bool-cases (leb 2 c)) [
        | inl b ↦ rw (n, b, rg_content_search) (tt, omega arith)
        | inr b ↦
            rw (n, b, rg_content_search)
              (rg_payload-IsShown output_mode context limit offset st.all_matches bounded)
      ]
    ]
