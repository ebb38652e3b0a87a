-- ===== src/Agent/Loop/Follows.antt =====
-- How a turn follows an earlier one: its history, the log of the session and what a result reports.
use perry_hermes.Prelude.{
  true, Bool, not, ◌||◌, is_empty, ◌≢◌, Text, codes, Bool-cases, unwrap_or, ◌≡◌, refl, ap, ◌∙◌, ◌⊎◌,
  inl, inr, false, Option, none, some, List, [], ◌∷◌, ◌++◌, append_assoc, Result, ok, err,
}
use perry_hermes.Core.Message.{Content, plain, parts, Message, ToolCall, assistant_message}
use perry_hermes.Core.Errors.{LoopError, ProviderError, other, provider_error_text, loop_error_text}
use perry_hermes.Core.Provider.{
  Completion, FinishReason, stop, tool_use, content_filter, error, length as length_reason,
}
use perry_hermes.Agent.Session.{has_pending_messages}
use perry_hermes.Agent.Events.{RunResult, AgentRunError, loop_error, failed_turn}
use perry_hermes.Agent.Host.{Env}
use perry_hermes.Agent.Failure.{
  LoopConfig, content_not_empty, is_safe_to_preserve, preserved_partial,
}
use perry_hermes.Agent.Turn.{Turn}
use perry_hermes.Agent.Reaction.{
  dispatch_tool_calls, dispatch_or_refuse, no_result, handle_finish_reason,
}
use perry_hermes.Agent.Loop.{Round, done, again}
use perry_hermes.Agent.Loop.Phases.{Advances}
use perry_hermes.Agent.Loop.Tools.{dispatch_calls-Dispatched}

module _ (E : Env) where
  open E use {J, F, H}
  open J use {Value}
  open F use {Fs}
  open H use {W}

  -- The second list is the first with perhaps more messages at the end.
  abbrev pub Extends : List (Message Value) → List (Message Value) → Type 0
  Extends ms ms' = (added : List (Message Value)) × (ms' ≡ ms ++ added)

  Extends-trans : (a b c : List (Message Value)) → Extends a b → Extends b c → Extends a c
  Extends-trans a b c (x, e) (y, k) = (x ++ y, k ∙ ap (λ l. l ++ y) e ∙ append_assoc a x y)

  -- The same session log, and without a compaction strategy a longer history.
  pub record Follows (config : LoopConfig Value W) (t t' : Turn E) : Type 0 where
    pub log : t'.session.messages ≡ t.session.messages
    pub prompt : t'.session.system_message ≡ t.session.system_message
    pub extends : config.compaction_strategy ≡ none → Extends t.messages t'.messages

  pub Follows-trans :
      {config : LoopConfig Value W} {t u v : Turn E}
      → Follows config t u
      → Follows config u v
      → Follows config t v
  Follows-trans {config} {t} {u} {v} a b = record {
    log = b.log ∙ a.log;
    prompt = b.prompt ∙ a.prompt;
    extends = λ h. Extends-trans t.messages u.messages v.messages (a.extends h) (b.extends h);
  }

  pub of_Advances :
      (config : LoopConfig Value W) {t u : Turn E} → Advances E t u → Follows config t u
  of_Advances config a = record {
    log = a.log;
    prompt = a.prompt;
    extends = λ h. (a.added, a.messages);
  }

  -- Content with something in it.
  abbrev IsFull : Content → Type 0
  IsFull (plain text) = text ≢ []
  IsFull (parts ps) = ps ≢ []

  -- A broken response worth keeping: with content, with reasoning, or else with no tool calls.
  abbrev IsWorthKeeping : Message Value → Type 0
  IsWorthKeeping m =
      IsFull m.content
      ⊎ (((text : Text) × (m.reasoning ≡ some text) × (text ≢ [])) ⊎ (m.tool_calls ≡ none))

  -- Of a broken response nothing is kept, or a message worth keeping.
  abbrev pub Kept : List (Message Value) → Type 0
  Kept ms = (ms ≡ []) ⊎ ((m : Message Value) × (ms ≡ m ∷ []) × IsWorthKeeping m)

  -- The text names the error that comes with it: a provider's, or one of the loop's in its own words.
  abbrev pub Names : ProviderError → Text → Type 0
  Names e text =
      (text ≡ codes "Turn interrupted by error: provider error: " ++ provider_error_text e)
      ⊎ ((loop : LoopError) × (e ≡ other (loop_error_text H.fmt_duration loop))
          × (text ≡ codes "Turn interrupted by error: " ++ loop_error_text H.fmt_duration loop))

  or_three : (a b c : Bool) → (a || b || c) ≡ true → (a ≡ true) ⊎ ((b ≡ true) ⊎ (c ≡ true))
  or_three true b c h = inl refl
  or_three false true c h = inr (inl refl)
  or_three false false c h = inr (inr h)

  not_empty-full : {A : Type 0} (xs : List A) → not (is_empty xs) ≡ true → xs ≢ []
  not_empty-full [] h = absurd (cc)
  not_empty-full (x ∷ xs) h = λ e. cc

  content-IsFull : (c : Content) → content_not_empty c ≡ true → IsFull c
  unfolding content_not_empty
  content-IsFull (plain text) h = not_empty-full text h
  content-IsFull (parts ps) h = not_empty-full ps h

  reasoning-full :
      (o : Option Text)
      → elim o [ none ↦ false | some text ↦ not (is_empty text) ] ≡ true
      → (text : Text) × (o ≡ some text) × (text ≢ [])
  reasoning-full none h = absurd (cc)
  reasoning-full (some text) h = (text, refl, not_empty-full text h)

  no_calls :
      {A : Type 0} (o : Option A) → elim o [ none ↦ true | some calls ↦ false ] ≡ true → o ≡ none
  no_calls none h = refl
  no_calls (some calls) h = absurd (cc)

  is_safe-IsWorthKeeping : (m : Message Value) → is_safe_to_preserve m ≡ true → IsWorthKeeping m
  unfolding is_safe_to_preserve
  is_safe-IsWorthKeeping m h =
      elim (or_three (content_not_empty m.content)
        (elim m.reasoning [ none ↦ false | some text ↦ not (is_empty text) ])
        (elim m.tool_calls [ none ↦ true | some calls ↦ false ]) h) [
          | inl k ↦ inl (content-IsFull m.content k)
          | inr (inl k) ↦ inr (inl (reasoning-full m.reasoning k))
          | inr (inr k) ↦ inr (inr (no_calls m.tool_calls k))
        ]

  pub preserved_partial-Kept : (o : Option (Message Value)) → Kept (preserved_partial o)
  unfolding preserved_partial
  preserved_partial-Kept none = inl refl
  preserved_partial-Kept (some m) = elim (Bool-cases (is_safe_to_preserve m)) [
    | inl h ↦ rw h (inr (m, refl, is_safe-IsWorthKeeping m h))
    | inr h ↦ rw h (inl refl)
  ]

  -- How an outcome agrees with the state that it comes with.
  abbrev pub Reports : Result (RunResult Value) (AgentRunError Value) → Turn E → Type 0
  Reports (ok r) t = (r.messages ≡ t.messages) × (has_pending_messages t.session ≡ false)
  Reports (err (loop_error e)) t = Unit {0}
  Reports (err (failed_turn ft e)) t =
      (kept : List (Message Value)) × (ft.messages
        ≡ t.messages ++ (kept ++ assistant_message ft.error ∷ []))
      × Kept kept
      × Names e ft.error

  -- What a finish reason yields: a result with the messages so far, or a plain error.
  abbrev pub Answered : Result (Option (RunResult Value)) (AgentRunError Value) × Turn E → Type 0
  Answered (ok none, t) = Unit {0}
  Answered (ok (some r), t) = r.messages ≡ t.messages
  Answered (err e, t) = (x : LoopError) × (e ≡ loop_error x)

  no_result-Answered :
      (d : Result (Unit {0}) (AgentRunError Value) × Turn E)
      → ((d.0 ≡ ok tt) ⊎ ((x : LoopError) × (d.0 ≡ err (loop_error x))))
      → Answered (no_result E d)
  unfolding no_result
  no_result-Answered (ok _, t) h = tt
  no_result-Answered (err e, t) (inl h) = absurd (cc)
  no_result-Answered (err e, t) (inr (x, h)) = (x, cc)

  dispatch-plain :
      (c : Completion Value) (t : Turn E)
      → ((dispatch_tool_calls E c t).0 ≡ ok tt)
        ⊎ ((x : LoopError) × ((dispatch_tool_calls E c t).0 ≡ err (loop_error x)))
  unfolding dispatch_tool_calls dispatch_or_refuse
  dispatch-plain c t = go (unwrap_or c.message.tool_calls [])
    where
      go :
          (calls : List (ToolCall Value))
          → ((dispatch_or_refuse E calls t).0 ≡ ok tt)
            ⊎ ((x : LoopError) × ((dispatch_or_refuse E calls t).0 ≡ err (loop_error x)))
      go [] = inr (_, refl)
      go (call ∷ calls) = elim (dispatch_calls-Dispatched E (call ∷ calls) t).3 [
        | inl (h, k) ↦ inl h
        | inr (h, k) ↦ inr (_, h)
      ]

  pub handle_finish_reason-Answered :
      (c : Completion Value) (t : Turn E) → Answered (handle_finish_reason E c t)
  unfolding handle_finish_reason
  handle_finish_reason-Answered c t = go c.finish_reason
    where
      go : (r : FinishReason) → Answered (handle_finish_reason E (record c { finish_reason = r }) t)
      go stop = refl
      go length_reason = refl
      go content_filter = (_, refl)
      go error = (_, refl)
      go tool_use = no_result-Answered (dispatch_tool_calls E c t) (dispatch-plain c t)

  -- What a round comes to.
  abbrev pub RoundFollows : LoopConfig Value W → Turn E → Round E → Type 0
  RoundFollows config t (again t') = Follows config t t'
  RoundFollows config t (done r t') = Follows config t t' × Reports r t'
