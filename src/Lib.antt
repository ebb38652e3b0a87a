-- ===== src/Lib.antt =====
-- perry_hermes: the core of an agent that talks to a language model, calls tools, keeps its
-- conversations on disk and compacts them when they grow long.
--
-- The program's parts and their models:
-- - Core/Message, Core/Errors, Core/Usage, Core/Provider: the data of crates/hermes-core/src
--   (message.rs, error.rs, usage.rs, provider.rs). A text is a list of code points.
-- - Core/Accumulator: crates/hermes-core/src/accumulator.rs, which joins the deltas of a stream
--   into a completion. The map of tool calls by index is a list sorted by index.
-- - Core/Json: what is used of serde_json, as an interface with laws.
-- - Agent/Session: crates/hermes-agent/src/session.rs. AgentSession is a record; operations that
--   persist take and return the state of the file system, which is given by the interface of
--   Agent/Files together with the encoding of a snapshot (Codec).
-- - Agent/Registry: crates/hermes-agent/src/session_registry.rs, the sessions of a process by key,
--   over the model of a session.
-- - Agent/Compaction: crates/hermes-agent/src/compaction.rs, the summary compactor.
-- - Agent/Events, Agent/Host, Agent/Failure, Agent/Turn, Agent/Reaction, Agent/Loop:
--   crates/hermes-agent/src/loop_engine (agent_loop.rs, run.rs). The loop's variables are the
--   record Turn, which every phase takes and returns; its events are the list of calls of
--   on_event, in order. Agent/Host is what the loop meets outside itself: the provider's stream,
--   the tools, the clock, the cancellation token, messages queued by other tasks and finished
--   processes, each an operation on a state of the outside world.
-- - Memory: crates/hermes-skill-tools/src/tools/memory/store.rs, the entries kept across sessions.
--   Entries is the file format, Store the operations, on an interface of text files.
-- - Core/Tools: crates/hermes-core/src/registry.rs.
-- - Providers: of crates/hermes-providers/src, the bodies of the requests (Openai, Anthropic:
--   openai/request.rs, anthropic/request.rs) and the decoders of their streams (openai/sse.rs,
--   anthropic/sse.rs): Frames cuts the events out of the chunks, on as much fuel as the buffer has
--   characters, OpenaiEvents and AnthropicEvents handle them, and ThinkTags splits off reasoning;
--   its loop runs on as much fuel as the chunk has characters, since each round takes at least
--   one.
-- - Core/Truncation: truncate_output of crates/hermes-core/src/util.rs.
-- - Prelude: names of the libraries and what the components share of lists, texts and results.
-- - Utf8, Maps: byte offsets into texts, and maps with texts for keys, as the standard library has
--   them.
-- - Tui: the state of the terminal interface and its keys, crates/hermes-cli/src/tui (app.rs,
--   input.rs, event.rs). The cursor is a byte offset; an operation that would split a character is
--   none, a panic. Layout is the input box of render.rs in rows; its loop runs on as much fuel as
--   there are characters, since each row takes one. Zipper is the input box as the characters
--   before and after the cursor, with no bytes.
-- - Patch: crates/hermes-skill-tools/src/tools/files/patch.rs. Parse reads a patch, Printing
--   writes one, Hunks changes a text, Replace holds the strings of the other mode, Tool and Ops
--   work on files. The file system and the path policy are the record PatchFiles, its laws
--   IsLawful. The counting of matches runs on one round more than there are lines, since each
--   match takes at least one.
-- - Files: the checks of crates/hermes-skill-tools/src/tools/files/policy.rs on paths, with
--   resolve_user_path of crates/hermes-core/src/util.rs; they fill the policy of PatchFiles. The
--   search tool is search.rs beside it: Glob matches names, Walk collects the files of a tree,
--   Names lists files by name, Search walks their contents, Ripgrep reads what ripgrep prints,
--   SearchTool takes the arguments. The loop over a line runs on one more than its length.
-- - Processes: crates/hermes-skill-tools/src/tools/process_registry.rs. Buffer is the rolling
--   buffer, Registry and Operations the operations, one for each time a lock is taken, and Steps
--   their interleaving, as far as no task panics. A wait is a list of rounds, with what the other
--   tasks do before and between its locks.
-- - Commands: crates/hermes-core/src/commands.rs and platform.rs, the slash commands.
-- - Tests: concrete instances of the interfaces and the theorems at concrete inputs.
--
-- The phases of a round follow the code: pending messages, the three limits, the stream
-- (drive_turn), the counters, the assistant message, the automatic compaction, the finish reason
-- with the tool calls, and finished processes. A session's turn wraps the loop: it sends the
-- session's messages and writes the outcome back.
--
-- The loop runs on fuel, one more round than the limit of iterations: each round that goes on
-- counts an iteration below that limit, a u32. The counters wrap as in a release build: at 2^32
-- for u32 and 2^64 for u64.
--
-- Not modelled: locks and tasks of the agent (messages from other tasks arrive where the loop
-- looks for them), floating-point arithmetic of the context window (its threshold is a number),
-- and all input and output beyond the interfaces; the rest of the providers, the gateway, the
-- drawing of the terminal and its event loop and the other tools.
pub mod Prelude
pub mod Core
pub mod Agent
pub mod Memory
pub mod Commands
pub mod Providers
pub mod Utf8
pub mod Maps
pub mod Tui
pub mod Patch
pub mod Files
pub mod Processes
pub mod Tests
