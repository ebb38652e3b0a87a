-- ===== src/Tests/ProviderTests.antt =====
-- Think tags at concrete inputs.
use perry_hermes.Prelude.{◌≡◌, refl, false, none, some, List, Text, codes}
use perry_hermes.Providers.ThinkTags.{split_think_tag_content, text_or_none}
use perry_hermes.Providers.Segments.{Segmented, visible_of, reasoning_of_segments, flag_after}
use perry_hermes.Providers.Splitting.{split_think_tag_content-Segmented}

abbrev answer : Text
answer = codes "Hi <think>why?</think>there<think>"

split_think_tag_content-Segmented_example :
    (segs : List Text) × Segmented false answer segs
    × (split_think_tag_content (some answer) false
        ≡ some (
          (text_or_none (visible_of false segs), text_or_none (reasoning_of_segments false segs)),
          flag_after false segs,
        ))
split_think_tag_content-Segmented_example = split_think_tag_content-Segmented answer false

-- A tag that is cut by a chunk boundary is taken as text, in both chunks.
cut_tag :
    (split_think_tag_content (some (codes "a<thi")) false
      ≡ some ((some (codes "a<thi"), none), false))
    × (split_think_tag_content (some (codes "nk>b")) false
        ≡ some ((some (codes "nk>b"), none), false))
unfolding split_think_tag_content
cut_tag = (refl, refl)

split_test :
    split_think_tag_content (some (codes "a<think>b</think>c")) false
    ≡ some ((some (codes "ac"), some (codes "b")), false)
unfolding split_think_tag_content
split_test = refl
