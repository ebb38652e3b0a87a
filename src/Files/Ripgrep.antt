-- ===== src/Files/Ripgrep.antt =====
-- `rg_content_search` of crates/hermes-skill-tools/src/tools/files/search.rs: the lines that ripgrep
-- prints as matches with their context. Running ripgrep is outside, its exit code and its output
-- are arguments.
use perry_hermes.Prelude.{
  unwrap_or, ℕ, ◌+◌, ◌-◌, Bool, true, false, Option, none, some, List, [], ◌∷◌, ◌++◌, Text, codes,
  text_eq, take, drop, length, lines, trim, is_empty, ltb, leb, ◌==◌, if◌then◌else◌, ok, err,
}
use perry_hermes.Core.Json.{JsonReader}
use perry_hermes.Files.Search.{count_le}
use perry_hermes.Files.Names.{
  Hit, Payload, failed, files, counts, is_truncated, sort_by, text_lt, bump, insert_key,
}

pub record RgMatch : Type 0 where
  pub hit : Hit
  pub before : List Text
  pub after : List Text

-- The variables of the loop. `last_match_idx` is the last match whenever there is one.
pub record RgState : Type 0 where
  pub all_matches : List RgMatch
  pub pending_before : List Text
  pub after_remaining : ℕ

-- `trim_end_matches('\n')`
abbrev pub trim_newlines : Text → Text
trim_newlines [] = []
trim_newlines (c ∷ s) =
    let rest = trim_newlines s in
    elim rest [ [] ↦ if c == 10 then [] else c ∷ [] | d ∷ r ↦ c ∷ d ∷ r ]

-- `all_matches[idx]["context"]["after"].push(..)` for the last match
abbrev pub push_after : Text → List RgMatch → List RgMatch
push_after content [] = []
push_after content (m ∷ []) = record m { after = m.after ++ (content ∷ []) } ∷ []
push_after content (m ∷ n ∷ ms) = m ∷ push_after content (n ∷ ms)

-- `while pending_before.len() > context { pending_before.pop_front() }`
abbrev pub keep_last : ℕ → List Text → List Text
keep_last context [] = []
keep_last context (x ∷ xs) =
    let rest = keep_last context xs in if ltb context (length (x ∷ xs)) then rest else x ∷ xs

-- a `context` event
unfoldable pub on_context : ℕ → Text → RgState → RgState
on_context context content st = record {
  all_matches =
      if ltb 0 st.after_remaining then push_after content st.all_matches else st.all_matches;
  pending_before = keep_last context (st.pending_before ++ (content ∷ []));
  after_remaining = st.after_remaining - 1;
}

-- a `match` event
unfoldable pub on_match : ℕ → Hit → RgState → RgState
on_match context hit st = record {
  all_matches =
      st.all_matches ++ (record { hit = hit; before = st.pending_before; after = [] } ∷ []);
  pending_before = [];
  after_remaining = context;
}

module _ (J : JsonReader) where
  -- `v[a][b]..`, `none` for the `Null` of a missing key
  abbrev pub at_keys : List Text → Option J.Value → Option J.Value
  at_keys ks none = none
  at_keys [] (some v) = some v
  at_keys (k ∷ ks) (some v) = at_keys ks (J.get v k)

  abbrev pub str_at : List Text → J.Value → Option Text
  str_at ks v = elim (at_keys ks (some v)) [ none ↦ none | some w ↦ J.as_str w ]

  abbrev pub u64_at : List Text → J.Value → Option ℕ
  u64_at ks v = elim (at_keys ks (some v)) [ none ↦ none | some w ↦ J.as_u64 w ]

  abbrev pub event_line : J.Value → Text
  event_line v = unwrap_or (str_at (codes "data" ∷ codes "lines" ∷ codes "text" ∷ []) v) []

  -- `v["data"]["submatches"][0]["start"]`
  abbrev pub first_start : J.Value → ℕ
  first_start v = elim (at_keys (codes "data" ∷ codes "submatches" ∷ []) (some v)) [
    | none ↦ 0
    | some subs ↦ elim (J.get_index subs 0) [
      | none ↦ 0
      | some sub ↦ unwrap_or (u64_at (codes "start" ∷ []) sub) 0
    ]
  ]

  abbrev pub matched_hit : J.Value → Hit
  matched_hit v = record {
    path = unwrap_or (str_at (codes "data" ∷ codes "path" ∷ codes "text" ∷ []) v) [];
    line = unwrap_or (u64_at (codes "data" ∷ codes "line_number" ∷ []) v) 0;
    column = first_start v + 1;
    content = trim_newlines (event_line v);
  }

  unfoldable pub on_event : ℕ → J.Value → RgState → RgState
  unfolding on_context on_match
  on_event context v st = elim (str_at (codes "type" ∷ []) v) [
    | none ↦ st
    | some kind ↦
        if text_eq kind (codes "context")
        then on_context context (trim_newlines (event_line v)) st
        else if text_eq kind (codes "match")
        then on_match context (matched_hit v) st
        else st
  ]

  -- the lines of the output; what is no JSON is passed over
  unfoldable pub rg_lines : ℕ → List Text → RgState → RgState
  unfolding on_event
  rg_lines context [] st = st
  rg_lines context (line ∷ ls) st = elim (is_empty line) [
    | true ↦ rg_lines context ls st
    | false ↦ elim (J.from_str line) [
      | err e ↦ rg_lines context ls st
      | ok v ↦ rg_lines context ls (on_event context v st)
    ]
  ]

abbrev pub paths_of : List RgMatch → List Text → List Text
unfolding text_lt insert_key
paths_of [] ks = ks
paths_of (m ∷ ms) ks = paths_of ms (insert_key m.hit.path ks)

abbrev pub counts_of : List RgMatch → List (Text × ℕ) → List (Text × ℕ)
unfolding text_lt bump
counts_of [] c = c
counts_of (m ∷ ms) c = counts_of ms (bump m.hit.path c)

abbrev pub sorted_counts : List RgMatch → List (Text × ℕ)
unfolding text_lt bump
sorted_counts ms = sort_by count_le (counts_of ms [])

pub data RgPayload : Type 0 where
  plain : Payload → RgPayload
  with_context : List RgMatch → ℕ → Bool → RgPayload

unfoldable pub rg_payload : Text → ℕ → ℕ → List RgMatch → RgPayload
unfolding text_lt bump insert_key
rg_payload output_mode limit offset all_matches =
    let total = length all_matches in
    if text_eq output_mode (codes "files_only")
    then plain (files (paths_of all_matches []) total (ltb limit total))
    else if text_eq output_mode (codes "count")
    then plain (
        counts (take limit (drop offset (sorted_counts all_matches))) total
          (is_truncated (length (sorted_counts all_matches)) offset limit))
    else with_context (take limit (drop offset all_matches)) total (is_truncated total offset limit)

-- How a run of ripgrep ends: it cannot be started, or it has an exit code (none for -1), its output
-- and its errors.
pub data RgRun : Type 0 where
  spawn_failed : Text → RgRun
  exited : Option ℕ → Text → Text → RgRun

unfoldable pub rg_content_search : JsonReader → Text → ℕ → ℕ → ℕ → RgRun → RgPayload
unfolding rg_lines rg_payload
rg_content_search J output_mode context limit offset (spawn_failed e) =
    plain (failed (codes "rg spawn failed: " ++ e))
rg_content_search J output_mode context limit offset (exited code stdout stderr) =
    let start : RgState = record { all_matches = []; pending_before = []; after_remaining = 0 } in
    let found = (rg_lines J context (lines stdout) start).all_matches in
    if leb 2 (unwrap_or code 0)
    then plain (failed (codes "rg error: " ++ trim stderr))
    else rg_payload output_mode limit offset found
