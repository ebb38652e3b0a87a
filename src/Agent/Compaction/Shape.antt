-- ===== src/Agent/Compaction/Shape.antt =====
-- The result of a compaction: its anchors survive, the rest becomes one summary.
use perry_hermes.Prelude.{
  suc, ◌+◌, ◌≤◌, ◌<◌, ◌≡◌, refl, sym, ◌∙◌, inl, inr, Bool, true, Option, some, List, [], ◌∷◌, ◌++◌,
  Text, arith, find, filter, All, length, append_assoc, length-append, length-filter-le, Result, ok,
  err, Result-cases,
}
use perry_hermes.Core.Message.{Message, system, user, as_text}
use perry_hermes.Core.Errors.{ProviderError}
use perry_hermes.Core.Provider.{Completion}
use perry_hermes.Agent.Compaction.{
  has_role, option_list, compacted_or_error, split_compaction_anchors, CompactorConfig, Complete,
  CompactionResult, compact_inner, summary_result, call_summary_llm, build_summary_message,
  build_summary_prompt, messages_to_transcript,
}
use perry_hermes.Agent.Compaction.Anchors.{
  NotUser, other_than_system, first_user, find_user, split-none, split-first_user,
}

module _ {V : Type 0} where
  -- A successful split: the first user message, and what is summarised beside it.
  abbrev pub SplitOf : List (Message V) → List (Message V) → List (Message V) → Type 0
  SplitOf ms anchors compacted =
      (u : Message V) × (find (has_role user) ms ≡ some u)
      × (anchors ≡ option_list (find (has_role system) ms) ++ u ∷ [])
      × (has_role user u ≡ true)
      × (length anchors + length compacted ≤ length ms)
      × (0 < length compacted)

  -- What a compaction drops: all but the first user message, save for the system messages, in order.
  abbrev pub Drops : List (Message V) → List (Message V) → Type 0
  Drops ms dropped =
      (pre : List (Message V)) × (u : Message V) × (post : List (Message V)) × (ms
        ≡ pre ++ u ∷ post)
      × All NotUser pre
      × (has_role user u ≡ true)
      × (dropped ≡ filter other_than_system (pre ++ post))

  user_not_system : (m : Message V) → has_role user m ≡ true → other_than_system m ≡ true
  user_not_system m h = ground arith

  length-filter_middle :
      (p : Message V → Bool) (pre : List (Message V)) (u : Message V) (post : List (Message V))
      → p u ≡ true
      → length (filter p (pre ++ u ∷ post)) ≡ suc (length (filter p (pre ++ post)))
  length-filter_middle p [] u post h = ground arith
  length-filter_middle p (m ∷ pre) u post h = ground (arith, length-filter_middle p pre u post h)

  length_bound :
      (ms : List (Message V))
      → length (option_list (find (has_role system) ms)) + length (filter other_than_system ms)
        ≤ length ms
  length_bound [] = omega arith
  length_bound (m ∷ ms) = ground (arith, length_bound ms, length-filter-le other_than_system ms)

  compacted_or_error-ok :
      (x l a c : List (Message V))
      → compacted_or_error x l ≡ ok (a, c)
      → (a ≡ x) × (c ≡ l) × (0 < length l)
  unfolding compacted_or_error
  compacted_or_error-ok x [] a c e = cc
  compacted_or_error-ok x (m ∷ l) a c e = (cc, cc, omega arith)

  SplitOf-user :
      (pre : List (Message V)) (u : Message V) (post : List (Message V))
      (anchors compacted : List (Message V))
      → All NotUser pre
      → has_role user u ≡ true
      → compacted_or_error
          (option_list (find (has_role system) (pre ++ u ∷ post)) ++ u ∷ [])
          (filter other_than_system (pre ++ post))
        ≡ ok (anchors, compacted)
      → SplitOf (pre ++ u ∷ post) anchors compacted
  SplitOf-user pre u post anchors compacted a h e =
      let ms = pre ++ u ∷ post in
      let sys = option_list (find (has_role system) ms) in
      let (ea, ec, pos) =
        compacted_or_error-ok (sys ++ u ∷ []) (filter other_than_system (pre ++ post)) anchors
          compacted e in
      (
        u,
        find_user pre u post a h,
        ea,
        h,
        rw (ea, ec)
            (omega (
              arith,
              length-append sys (u ∷ []),
              length-filter_middle other_than_system pre u post (user_not_system u h),
              length_bound ms,
            )),
        rw ec pos,
      )

  -- A split that succeeds is such a split.
  split-SplitOf :
      (ms anchors compacted : List (Message V))
      → split_compaction_anchors ms ≡ ok (anchors, compacted)
      → SplitOf ms anchors compacted
  split-SplitOf ms anchors compacted e = elim (first_user ms) [
    | inl a ↦ absurd (cc (split-none ms a))
    | inr (pre, u, post, p, a, h) ↦ rw p (
        SplitOf-user pre u post anchors compacted a h
          (sym (split-first_user pre u post a h) ∙ (rw p at e)))
  ]

  split-Drops :
      (ms anchors compacted : List (Message V))
      → split_compaction_anchors ms ≡ ok (anchors, compacted)
      → Drops ms compacted
  split-Drops ms anchors compacted e = elim (first_user ms) [
    | inl a ↦ absurd (cc (split-none ms a))
    | inr (pre, u, post, p, a, h) ↦
        let sys = option_list (find (has_role system) (pre ++ u ∷ post)) in
        let (ea, ec, pos) =
          compacted_or_error-ok (sys ++ u ∷ []) (filter other_than_system (pre ++ post)) anchors
            compacted (sym (split-first_user pre u post a h) ∙ (rw p at e)) in
        (pre, u, post, p, a, h, ec)
  ]

  find_user-system_anchor :
      (ms : List (Message V)) (rest : List (Message V))
      → find (has_role user) (option_list (find (has_role system) ms) ++ rest)
        ≡ find (has_role user) rest
  find_user-system_anchor [] rest = refl
  find_user-system_anchor (m ∷ ms) rest = ground (arith, find_user-system_anchor ms rest)

  find_system-anchors :
      (ms : List (Message V)) (u s : Message V)
      → has_role user u ≡ true
      → has_role user s ≡ true
      → find (has_role system) (option_list (find (has_role system) ms) ++ u ∷ s ∷ [])
        ≡ find (has_role system) ms
  find_system-anchors [] u s hu hs = ground arith
  find_system-anchors (m ∷ ms) u s hu hs = ground (arith, find_system-anchors ms u s hu hs)

  -- What a compaction leaves: the first system message, the first user message and one summary,
  -- a user message. The anchors are the same again for the next compaction.
  pub record IsCompacted (before after : List (Message V)) (summary : Text) : Type 0 where
    pub first : Message V
    pub first_user : find (has_role user) before ≡ some first
    pub shape :
        after
        ≡ option_list (find (has_role system) before) ++ first ∷ build_summary_message summary ∷ []
    pub same_user : find (has_role user) after ≡ some first
    pub same_system : find (has_role system) after ≡ find (has_role system) before
    pub no_longer : length after ≤ length before

  anchors-IsCompacted :
      (ms anchors compacted : List (Message V)) (summary : Text)
      → SplitOf ms anchors compacted
      → IsCompacted ms (anchors ++ build_summary_message summary ∷ []) summary
  unfolding build_summary_message
  anchors-IsCompacted ms anchors compacted summary (u, found, ea, h, bound, pos) =
      let sys = option_list (find (has_role system) ms) in
      let s : Message V = build_summary_message summary in
      let shape : anchors ++ s ∷ [] ≡ sys ++ u ∷ s ∷ [] =
        rw ea (append_assoc sys (u ∷ []) (s ∷ [])) in
      record {
        first = u;
        first_user = found;
        shape = shape;
        same_user = rw shape (find_user-system_anchor ms (u ∷ s ∷ []) ∙ rw h refl);
        same_system = rw shape (find_system-anchors ms u s h refl);
        no_longer = omega (arith, length-append anchors (s ∷ []));
      }

  module _ {W : Type 0} where
    summary_result-ok :
        (anchors : List (Message V)) (res : Result (Completion V) ProviderError × W)
        (r : CompactionResult V) (w' : W)
        → summary_result anchors res ≡ (ok r, w')
        → (c : Completion V) × (res ≡ (ok c, w'))
          × (r.messages ≡ anchors ++ build_summary_message (as_text c.message.content) ∷ [])
          × (r.summary_usage ≡ c.usage)
    unfolding summary_result
    summary_result-ok anchors (err e, w) r w' h = absurd (cc)
    summary_result-ok anchors (ok c, w) r w' h = (c, ground arith, ground arith, ground arith)

    -- A compaction that succeeds has its summary from the summary provider, called with the prompt
    -- built from the transcript of all messages but the first user message and the system messages,
    -- in order; it keeps the first system message and the first user message,
    -- puts one summary message with the provider's text after them, reports the provider's usage,
    -- and is no longer than what it replaces. A further compaction has the same anchors.
    pub compact_inner-IsCompacted :
        (config : CompactorConfig) (provider : Option (Complete V W)) (ms : List (Message V))
        (focus : Option Text) (w w' : W) (r : CompactionResult V)
        → compact_inner config provider ms focus w ≡ (ok r, w')
        → (dropped : List (Message V)) × (c : Completion V) × Drops ms dropped
          × (call_summary_llm provider
                (build_summary_prompt
                  (messages_to_transcript dropped)
                  focus
                  config.max_summary_tokens)
                w
              ≡ (ok c, w'))
          × (r.summary_usage ≡ c.usage)
          × IsCompacted ms r.messages (as_text c.message.content)
    unfolding compact_inner
    compact_inner-IsCompacted config provider ms focus w w' r e =
        elim (Result-cases (split_compaction_anchors ms)) [
          | inr (x, h) ↦ absurd (cc (rw (h, compact_inner) at e))
          | inl ((anchors, compacted), h) ↦
              let (c, call, messages, usage) =
                summary_result-ok anchors
                  (call_summary_llm provider
                    (build_summary_prompt (messages_to_transcript compacted) focus
                      config.max_summary_tokens)
                    w)
                  r w' (rw (h, compact_inner) at e) in
              (
                compacted,
                c,
                split-Drops ms anchors compacted h,
                call,
                usage,
                rw messages (
                    anchors-IsCompacted ms anchors compacted (as_text c.message.content)
                      (split-SplitOf ms anchors compacted h)),
              )
        ]
