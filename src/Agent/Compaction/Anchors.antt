-- ===== src/Agent/Compaction/Anchors.antt =====
-- Which messages the compactor keeps and which it summarises, by the place of the first user message.
use perry_hermes.Prelude.{
  ℕ, suc, ◌+◌, ◌<◌, ◌≡◌, refl, ap, ◌∙◌, ◌⊎◌, inl, inr, Bool, true, false, not, none, some, List, [],
  ◌∷◌, ◌++◌, arith, find, filter, All, length, err, Bool-cases,
}
use perry_hermes.Core.Message.{Message, system, user}
use perry_hermes.Agent.Compaction.{
  has_role, option_list, first_user_index, compacted_part, compacted_or_error,
  split_compaction_anchors, nothing_to_compress,
}

module _ {V : Type 0} where
  abbrev pub NotUser : Message V → Type 0
  NotUser m = has_role user m ≡ false

  abbrev pub other_than_system : Message V → Bool
  other_than_system m = not (has_role system m)

  -- A list has no user message, or a first one.
  abbrev pub FirstUser : List (Message V) → Type 0
  FirstUser ms =
      (pre : List (Message V)) × (u : Message V) × (post : List (Message V)) × (ms
        ≡ pre ++ u ∷ post)
      × All NotUser pre
      × (has_role user u ≡ true)

  pub first_user : (ms : List (Message V)) → (All NotUser ms) ⊎ FirstUser ms
  first_user [] = inl tt
  first_user (m ∷ ms) = go (Bool-cases (has_role user m)) (first_user ms)
    where
      go :
          ((has_role user m ≡ true) ⊎ (has_role user m ≡ false))
          → ((All NotUser ms) ⊎ FirstUser ms)
          → (All NotUser (m ∷ ms)) ⊎ FirstUser (m ∷ ms)
      go (inl h) r = inr ([], m, ms, refl, tt, h)
      go (inr h) (inl none_left) = inl (h, none_left)
      go (inr h) (inr (pre, u, post, e, a, k)) = inr (m ∷ pre, u, post, ap (◌∷◌ m) e, (h, a), k)

  index_none : (i : ℕ) (ms : List (Message V)) → All NotUser ms → first_user_index i ms ≡ none
  unfolding first_user_index
  index_none i [] a = refl
  index_none i (m ∷ ms) a = rw (a.0, first_user_index) (index_none (suc i) ms a.1)

  index_some :
      (i : ℕ) (pre : List (Message V)) (u : Message V) (post : List (Message V))
      → All NotUser pre
      → has_role user u ≡ true
      → first_user_index i (pre ++ u ∷ post) ≡ some (i + length pre)
  unfolding first_user_index
  index_some i [] u post a h = rw h (ap some (omega arith))
  index_some i (m ∷ pre) u post a h =
      rw a.0 (index_some (suc i) pre u post a.1 h ∙ ap some (omega arith))

  pub find_user :
      (pre : List (Message V)) (u : Message V) (post : List (Message V))
      → All NotUser pre
      → has_role user u ≡ true
      → find (has_role user) (pre ++ u ∷ post) ≡ some u
  find_user [] u post a h = rw h
  find_user (m ∷ pre) u post a h = rw a.0 (find_user pre u post a.1 h)

  compacted_after :
      (idx i : ℕ) (ms : List (Message V))
      → idx < i
      → compacted_part idx i ms ≡ filter other_than_system ms
  unfolding compacted_part
  compacted_after idx i [] h = refl
  compacted_after idx i (m ∷ ms) h = ground (arith, compacted_after idx (suc i) ms)

  compacted_around :
      (idx i : ℕ) (pre : List (Message V)) (u : Message V) (post : List (Message V))
      → idx ≡ i + length pre
      → compacted_part idx i (pre ++ u ∷ post) ≡ filter other_than_system (pre ++ post)
  unfolding compacted_part
  compacted_around idx i [] u post e = ground (arith, compacted_after idx (suc i) post)
  compacted_around idx i (m ∷ pre) u post e =
      ground (arith, compacted_around idx (suc i) pre u post)

  -- Without a user message there is nothing to compress.
  pub split-none :
      (ms : List (Message V))
      → All NotUser ms
      → split_compaction_anchors ms ≡ err nothing_to_compress
  unfolding split_compaction_anchors
  split-none ms a = rw (index_none 0 ms a, split_compaction_anchors)

  -- With a first user message, the anchors are the first system message, if there is one, and
  -- that user message, and what is summarised is every other message that is no system message, in
  -- order; if there is none, there is nothing to compress.
  pub split-first_user :
      (pre : List (Message V)) (u : Message V) (post : List (Message V))
      → All NotUser pre
      → has_role user u ≡ true
      → split_compaction_anchors (pre ++ u ∷ post)
        ≡ compacted_or_error
            (option_list (find (has_role system) (pre ++ u ∷ post)) ++ u ∷ [])
            (filter other_than_system (pre ++ post))
  unfolding split_compaction_anchors
  split-first_user pre u post a h =
      rw (index_some 0 pre u post a h, split_compaction_anchors)
        (rw (compacted_around (0 + length pre) 0 pre u post refl, find_user pre u post a h) refl)
