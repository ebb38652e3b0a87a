-- ===== src/Tests/SessionTests.antt =====
-- The theorems on sessions and on compaction at concrete inputs.
use perry_hermes.Prelude.{
  ℕ, ◌+◌, ◌≡◌, refl, false, none, some, List, [], ◌∷◌, codes, Text, Result, ok, err,
}
use perry_hermes.Core.Message.{Message, system_message, user_message, assistant_message, as_text}
use perry_hermes.Core.Provider.{Completion, stop}
use perry_hermes.Agent.Files.{Files}
use perry_hermes.Agent.Session.{
  Session, new, snapshot, combined, drain_pending_messages, has_pending_messages, or_else,
  compacted_context_tokens, load_json_file, persist, archive_to, archive_name, clear_in_memory_only,
  with_json_file_store,
}
use perry_hermes.Agent.Session.Storage.{archived, load-persist, archive_to-kept}
use perry_hermes.Agent.Compaction.{
  Complete, CompactionResult, CompactError, compact_inner, default_config, call_summary_llm,
  build_summary_prompt, messages_to_transcript,
}
use perry_hermes.Agent.Compaction.Shape.{Drops, IsCompacted, compact_inner-IsCompacted}
use perry_hermes.Tests.World.{Value, files, codec, session, no_files}

load-persist_example :
    load_json_file files codec (codes "s1.json") none none (persist files codec session no_files)
    ≡ some (record session { pending_messages = [] })
unfolding perry_hermes.Agent.Session.save
load-persist_example =
    load-persist files codec (codes "s1.json") none none session no_files refl refl

abbrev target : Text
target = archive_name (codes "t") session

archive_to-kept_example :
    (target ≡ target)
    × ((archive_to files codec (codes "d") (codes "t") session no_files).1.0 ≡ record session {
      messages = [];
      pending_messages = [];
      context_usage_baseline_tokens = none;
    })
    × (files.read target (archive_to files codec (codes "d") (codes "t") session no_files).1.1
        ≡ archived files codec (codes "s1.json") session no_files)
unfolding archive_to
archive_to-kept_example =
    archive_to-kept files codec (codes "s1.json") (codes "d") (codes "t") session no_files target
      refl refl

-- a file system that refuses to create a directory
abbrev read_only : Files
read_only = record files {
  create_dir_all = λ d fs. (false, fs);
  read-create_dir_all = λ d p fs. refl;
  exists-create_dir_all = λ d p fs. refl;
}

abbrev messages : List (Message Value)
messages =
    system_message (codes "sys")
    ∷ user_message (codes "hi")
    ∷ assistant_message (codes "hello")
    ∷ user_message (codes "more")
    ∷ []

abbrev summarized : Completion Value
summarized = record {
  message = assistant_message (codes "summary");
  usage = record { input_tokens = 50; output_tokens = 9; cached_input_tokens = 0 };
  finish_reason = stop;
}

abbrev summarizer : Complete Value ℕ
summarizer ms w = (ok summarized, w + 1)

abbrev compacted_messages : Result (CompactionResult Value) CompactError × ℕ
compacted_messages = compact_inner default_config (some summarizer) messages none 0

abbrev compaction : CompactionResult Value
unfolding compact_inner
compaction = elim compacted_messages.0 [
  | err e ↦ record { messages = []; summary_usage = summarized.usage }
  | ok r ↦ r
]

compact_inner-IsCompacted_example :
    (dropped : List (Message Value)) × (c : Completion Value) × Drops messages dropped
    × (call_summary_llm
          (some summarizer)
          (build_summary_prompt
            (messages_to_transcript dropped)
            none
            default_config.max_summary_tokens)
          0
        ≡ (ok c, 1))
    × (compaction.summary_usage ≡ c.usage)
    × IsCompacted messages compaction.messages (as_text c.message.content)
unfolding compact_inner
compact_inner-IsCompacted_example =
    compact_inner-IsCompacted default_config (some summarizer) messages none 0 1 compaction refl
