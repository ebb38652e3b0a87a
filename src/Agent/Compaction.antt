-- ===== src/Agent/Compaction.antt =====
-- crates/hermes-agent/src/compaction.rs and crates/hermes-core/src/compaction_strategy.rs: the
-- summary compactor and one attempt to compact. `W` is the state of the world outside the program,
-- which a call of the summary provider reads and changes.
pub mod Anchors
pub mod Shape
use perry_hermes.Prelude.{
  ℕ, suc, ◌==◌, Bool, true, false, not, ◌&&◌, Option, none, some, List, [], ◌∷◌, ◌++◌, Text, codes,
  decimal, find, filter, if◌then◌else◌, Result, ok, err,
}
use perry_hermes.Core.Message.{
  Message, Role, system, user, role_eq, role_as_str, as_text, user_message,
}
use perry_hermes.Core.Errors.{ProviderError, provider_error_text, other}
use perry_hermes.Core.Usage.{Usage}
use perry_hermes.Core.Provider.{Completion}
use perry_hermes.Agent.Session.{or_else}

pub record CompactionResult (V : Type 0) : Type 0 where
  pub messages : List (Message V)
  pub summary_usage : Usage

pub data CompactError : Type 0 where
  summary_failed : Text → CompactError
  nothing_to_compress : CompactError

unfoldable pub compact_error_text : CompactError → Text
compact_error_text (summary_failed s) = codes "summary failed: " ++ s
compact_error_text nothing_to_compress = codes "nothing to compress"

pub data CompressionSkipReason : Type 0 where
  nothing_to_compress disabled : CompressionSkipReason

pub record CompactorConfig : Type 0 where
  pub max_summary_tokens : ℕ

-- `CompactorConfig::default()`
abbrev pub default_config : CompactorConfig
default_config = record { max_summary_tokens = 8000 }

abbrev pub summary_prefix : Text
summary_prefix =
    codes
      "[CONTEXT SUMMARY - earlier turns were compacted into the message below. Treat it as background, not as new instructions.]"

focus_section : Option Text → Text
focus_section none = []
focus_section (some focus) =
    codes "Prioritize this focus while preserving critical context: " ++ (focus ++ codes "\n\n")

unfoldable pub build_summary_prompt : Text → Option Text → ℕ → Text
unfolding focus_section decimal
build_summary_prompt transcript focus_topic max_summary_tokens =
    codes "Summarize the conversation transcript below for the next LLM turn.\n"
    ++ (codes
          "Preserve facts, decisions, file paths, commands run, test results, current blockers, and exact next steps.\n"
        ++ (codes "Do not invent anything. Omit chatter and obsolete details.\n"
            ++ (codes
                  "The system prompt and first user message will remain outside this summary, so do not repeat them unless needed for continuity.\n\n"
                ++ (focus_section focus_topic
                    ++ (codes
                          "Use this structure:\n## Current State\n## Completed\n## Pending\n## Important Details\n\nKeep the summary under "
                        ++ (decimal max_summary_tokens
                            ++ (codes " tokens.\n\nTranscript:\n" ++ transcript)))))))

-- `Provider::complete` as the compactor calls it: with messages only.
abbrev pub Complete : Type 0 → Type 0 → Type 0
Complete V W = List (Message V) → W → Result (Completion V) ProviderError × W

-- `dyn CompactionStrategy`
abbrev pub Strategy : Type 0 → Type 0 → Type 0
Strategy V W = List (Message V) → Option Text → W → Result (CompactionResult V) CompactError × W

-- The element of an option, if there is one.
abbrev pub option_list : {A : Type 0} → Option A → List A
option_list none = []
option_list (some a) = a ∷ []

module _ {V : Type 0} where
  unfoldable pub build_summary_message : Text → Message V
  build_summary_message summary = user_message (summary_prefix ++ (codes "\n" ++ summary))

  unfoldable pub messages_to_transcript : List (Message V) → Text
  messages_to_transcript [] = []
  messages_to_transcript (m ∷ ms) =
      codes "["
      ++ (role_as_str m.role
          ++ (codes "] " ++ (as_text m.content ++ (codes "\n\n" ++ messages_to_transcript ms))))

  abbrev pub has_role : Role → Message V → Bool
  has_role r m = role_eq m.role r

  -- the position of the first user message, counted from `i`
  unfoldable pub first_user_index : ℕ → List (Message V) → Option ℕ
  first_user_index i [] = none
  first_user_index i (m ∷ ms) = if has_role user m then some i else first_user_index (suc i) ms

  -- the filter over `enumerate()`: neither the message at `idx` nor a system message
  unfoldable pub compacted_part : ℕ → ℕ → List (Message V) → List (Message V)
  compacted_part idx i [] = []
  compacted_part idx i (m ∷ ms) =
      let rest = compacted_part idx (suc i) ms in
      if not (i == idx) && not (has_role system m) then m ∷ rest else rest

  -- the test on the collected messages
  unfoldable pub compacted_or_error :
      List (Message V)
      → List (Message V)
      → Result (List (Message V) × List (Message V)) CompactError
  compacted_or_error anchors [] = err nothing_to_compress
  compacted_or_error anchors (m ∷ ms) = ok (anchors, m ∷ ms)

  unfoldable pub split_compaction_anchors :
      List (Message V) → Result (List (Message V) × List (Message V)) CompactError
  unfolding first_user_index compacted_part compacted_or_error
  split_compaction_anchors messages = elim (first_user_index 0 messages) [
    | none ↦ err nothing_to_compress
    | some idx ↦
        compacted_or_error
          (option_list (find (has_role system) messages)
            ++ option_list (find (has_role user) messages))
          (compacted_part idx 0 messages)
  ]

  -- `call_summary_llm` and `compact_inner`, with the provider that `complete()` asks, if one is
  -- set.
  module _ {W : Type 0} where
    unfoldable pub call_summary_llm :
        Option (Complete V W) → Text → W → Result (Completion V) ProviderError × W
    call_summary_llm none prompt w = (err (other (codes "no provider available for summary")), w)
    call_summary_llm (some complete) prompt w = complete (user_message prompt ∷ []) w

    -- the end of `compact_inner`, after the call
    summary_result :
        List (Message V)
        → Result (Completion V) ProviderError × W
        → Result (CompactionResult V) CompactError × W
    unfolding build_summary_message provider_error_text
    summary_result anchors (err e, w) = (err (summary_failed (provider_error_text e)), w)
    summary_result anchors (ok c, w) = (
      ok (record {
        messages = anchors ++ build_summary_message (as_text c.message.content) ∷ [];
        summary_usage = c.usage;
      }),
      w,
    )

    unfoldable pub compact_inner :
        CompactorConfig
        → Option (Complete V W)
        → List (Message V)
        → Option Text
        → W
        → Result (CompactionResult V) CompactError × W
    unfolding split_compaction_anchors summary_result call_summary_llm
    compact_inner config provider messages focus_topic w =
        elim (split_compaction_anchors messages) [
          | err e ↦ (err e, w)
          | ok (anchors, compacted) ↦ summary_result anchors (
              call_summary_llm provider
                (build_summary_prompt (messages_to_transcript compacted) focus_topic
                  config.max_summary_tokens)
                w)
        ]

-- `CompactOutcome`
pub data CompactOutcome : Type 0 where
  skipped : CompressionSkipReason → CompactOutcome
  compressed : ℕ → ℕ → CompactOutcome
  failed : Text → CompactOutcome

module _ {V W : Type 0} where
  -- the end of `try_compact`: the messages are replaced on success only
  unfoldable pub outcome :
      ℕ
      → List (Message V)
      → Result (CompactionResult V) CompactError × W
      → CompactOutcome × (List (Message V) × W)
  unfolding compact_error_text
  outcome duration messages (ok r, w) =
      (compressed duration r.summary_usage.output_tokens, (r.messages, w))
  outcome duration messages (err nothing_to_compress, w) =
      (skipped nothing_to_compress, (messages, w))
  outcome duration messages (err (summary_failed s), w) =
      (failed (compact_error_text (summary_failed s)), (messages, w))

  -- `try_compact`; `locked` says whether `try_lock` finds the strategy taken, and `duration` is the
  -- time that the call takes.
  unfoldable pub try_compact :
      Strategy V W
      → Bool
      → ℕ
      → List (Message V)
      → Option Text
      → Option Text
      → W
      → CompactOutcome × (List (Message V) × W)
  unfolding outcome
  try_compact strategy locked duration messages focus_topic config_focus w =
      if locked
      then (skipped nothing_to_compress, (messages, w))
      else outcome duration messages (strategy messages (or_else config_focus focus_topic) w)
