-- ===== src/Tests/World.antt =====
-- Concrete instances of the interfaces, small enough to evaluate: a JSON of three shapes, a file
-- system held as a function, and a host that plays a script of responses.
use perry_hermes.Prelude.{
  ℕ, ◌≡◌, ◌≢◌, refl, sym, Bool, true, false, Option, none, some, List, [], ◌∷◌, Text, codes,
  text_eq, text_eq_iff, text_eq_refl, if◌then◌else◌, Result, ok, Bool-cases, inl, inr,
}
use perry_hermes.Core.Json.{Json}
use perry_hermes.Core.Errors.{ProviderError}
use perry_hermes.Core.Message.{ToolCall, system_message, user_message}
use perry_hermes.Core.Provider.{CompletionDelta, FinishReason, stop, tool_use}
use perry_hermes.Agent.Failure.{LoopConfig}
use perry_hermes.Agent.Files.{Files}
use perry_hermes.Agent.Session.{Snapshot, Session, Codec, new}
use perry_hermes.Agent.Host.{Poll, chunk, Tool, Host, Env}

pub data Value : Type 0 where
  null empty_object : Value
  string : Text → Value

abbrev is_null : Value → Bool
is_null null = true
is_null empty_object = false
is_null (string s) = false

abbrev as_str : Value → Option Text
as_str null = none
as_str empty_object = none
as_str (string s) = some s

abbrev to_string : Value → Text
to_string null = codes "null"
to_string empty_object = codes "{}"
to_string (string s) = s

abbrev pub json : Json
json = record {
  Value = Value;
  null = null;
  string = string;
  is_null = is_null;
  as_str = as_str;
  to_string = to_string;
  from_str = λ s. if text_eq s (codes "{}") then some empty_object else none;
  is_null-null = refl;
  is_null-string = λ s. refl;
  as_str-null = refl;
  as_str-string = λ s. refl;
}

abbrev Bytes : Type 0
Bytes = Snapshot Value

abbrev Fs : Type 0
Fs = Text → Option Bytes

abbrev is_some : Option Bytes → Bool
is_some none = false
is_some (some b) = true

abbrev write : Text → Bytes → Fs → Bool × Fs
write p b fs = (true, λ q. if text_eq q p then some b else fs q)

abbrev rename : Text → Text → Fs → Bool × Fs
rename p q fs =
    (is_some (fs p), λ r. if text_eq r q then fs p else if text_eq r p then none else fs r)

abbrev exists-rename : (p q : Text) (fs : Fs) → p ≢ q → is_some ((rename p q fs).1 p) ≡ false
exists-rename p q fs apart = elim (Bool-cases (text_eq p q)) [
  | inl h ↦ absurd (apart ((text_eq_iff p q).0 h))
  | inr h ↦ rw h (rw (text_eq_refl p) refl)
]

abbrev pub files : Files
files = record {
  Fs = Fs;
  Bytes = Bytes;
  read = λ p fs. fs p;
  exists = λ p fs. is_some (fs p);
  write = write;
  rename = rename;
  create_dir_all = λ d fs. (true, fs);
  parent = λ p. none;
  join_path = λ p q. q;
  read-write = λ p b fs h. rw (text_eq_refl p) refl;
  read-rename = λ p q fs h. rw (text_eq_refl q) refl;
  exists-rename = λ p q fs apart h. exists-rename p q fs apart;
  exists-read = λ p b fs h. rw h refl;
  read-create_dir_all = λ d p fs. refl;
  exists-create_dir_all = λ d p fs. refl;
}

abbrev pub codec : Codec Value Bytes
codec = record { encode = some; decode = some; decode-encode = λ s b e. sym e }

abbrev pub no_files : Fs
no_files = λ p. none

-- the responses to come
abbrev Script : Type 0
Script = List (Result (List Poll) ProviderError)

abbrev next_response : Script → Result (List Poll) ProviderError × Script
next_response [] = (ok [], [])
next_response (r ∷ rs) = (r, rs)

abbrev echo : Tool Value Script
echo = record {
  parameters_schema = null;
  execute = λ args w. (ok (record { content = codes "echoed" }), w);
}

abbrev pub host : Host json
host = record {
  W = Script;
  is_cancelled = λ w. (false, w);
  elapsed = λ w. (0, w);
  arrivals = λ w. ([], w);
  stream = λ ms w. next_response w;
  tool = λ name. if text_eq name (codes "echo") then some echo else none;
  validate_args = λ args schema. ok args;
  drain_notifications = λ w. ([], w);
  strategy_locked = λ w. (false, w);
  compaction_duration = λ w. (5, w);
  fmt_duration = λ n. codes "0ns";
}

abbrev pub world : Env
world = record { J = json; F = files; C = codec; H = host }

abbrev pub session : Session Value
session = record (new (codes "s1") (codes "/work") (some (system_message (codes "sys")))) {
  messages = user_message (codes "hi") ∷ [];
  store = some (codes "s1.json");
}

-- one chunk of text, and the end with its finish reason
abbrev pub text_delta : Text → CompletionDelta
text_delta s = record {
  content_delta = some s;
  reasoning_delta = none;
  tool_call_delta = none;
  usage = none;
  finish_reason = none;
}

abbrev pub last_delta : ℕ → FinishReason → CompletionDelta
last_delta n reason = record {
  content_delta = none;
  reasoning_delta = none;
  tool_call_delta = none;
  usage = some (record { input_tokens = n; output_tokens = 7; cached_input_tokens = 2 });
  finish_reason = some reason;
}

abbrev pub call_delta : ℕ → Option Text → Option Text → Option Text → CompletionDelta
call_delta i id name fragment = record {
  content_delta = none;
  reasoning_delta = none;
  tool_call_delta =
      some (record { index = i; id = id; name = name; arguments_fragment = fragment });
  usage = none;
  finish_reason = none;
}

-- two calls whose fragments interleave
abbrev pub interleaved : List CompletionDelta
interleaved =
    text_delta (codes "a")
    ∷ call_delta 1 (some (codes "c1")) (some (codes "echo")) (some (codes "{"))
    ∷ call_delta 0 (some (codes "c0")) (some (codes "echo")) (some (codes "{"))
    ∷ call_delta 1 none none (some (codes "}"))
    ∷ last_delta 10 tool_use
    ∷ []

-- a response that calls a tool, then one that stops
abbrev pub script : List (Result (List Poll) ProviderError)
script =
    ok (
      chunk (ok (call_delta 0 (some (codes "c0")) (some (codes "echo")) (some (codes "{}"))))
      ∷ chunk (ok (last_delta 10 tool_use))
      ∷ [])
    ∷ ok (chunk (ok (text_delta (codes "bye"))) ∷ chunk (ok (last_delta 20 stop)) ∷ [])
    ∷ []

abbrev pub config : LoopConfig Value (List (Result (List Poll) ProviderError))
config = record {
  max_iterations = 3;
  max_duration = 100;
  system_prompt = some (codes "prompt");
  compaction_strategy = none;
  threshold_tokens = none;
}

abbrev pub call : ToolCall Value
call = record { id = codes "c0"; name = codes "echo"; arguments = empty_object }
