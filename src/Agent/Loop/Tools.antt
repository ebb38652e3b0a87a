-- ===== src/Agent/Loop/Tools.antt =====
-- `dispatch_tool_calls`: what the loop does with the tool calls of a response.
use perry_hermes.Prelude.{
  ℕ, ◌+◌, ◌%◌, ◌^◌, ◌<◌, ◌≡◌, refl, sym, ap, ◌∙◌, ◌⊎◌, inl, inr, Bool, true, false, List, [], ◌∷◌,
  ◌++◌, append_assoc, append-nil, length, arith, Result, ok, err,
}
use perry_hermes.Core.Message.{Message, ToolCall}
use perry_hermes.Core.Errors.{ToolError, cancelled}
use perry_hermes.Agent.Events.{ToolOutput, AgentRunError, loop_error}
use perry_hermes.Agent.Host.{Env}
use perry_hermes.Agent.Failure.{add_u32, tool_message}
use perry_hermes.Agent.Turn.{Turn, emit, push}
use perry_hermes.Agent.Reaction.{run_call, unless_cancelled, dispatch_calls, dispatch_tool}

module _ (E : Env) where
  open E use {J, H}
  open J use {Value}

  -- The tool messages for the results of the first calls.
  abbrev pub answers :
      List (ToolCall Value) → List (Result ToolOutput ToolError) → List (Message Value)
  answers [] rs = []
  answers (c ∷ cs) [] = []
  answers (c ∷ cs) (r ∷ rs) = tool_message c r ∷ answers cs rs

  abbrev Outcome : ℕ → ℕ → Result (Unit {0}) (AgentRunError Value) → Type 0
  Outcome results calls r =
      ((r ≡ ok tt) × (results ≡ calls)) ⊎ ((r ≡ err (loop_error cancelled)) × (results < calls))

  -- What a dispatch of `calls` from `t` may come to.
  abbrev pub Dispatched :
      List (ToolCall Value) → Turn E → Result (Unit {0}) (AgentRunError Value) × Turn E → Type 0
  Dispatched calls t d =
      (rs : List (Result ToolOutput ToolError)) × (d.1.messages ≡ t.messages ++ answers calls rs)
      × (d.1.metrics.tool_calls % 2 ^ 32 ≡ (t.metrics.tool_calls + length rs) % 2 ^ 32)
      × Outcome (length rs) (length calls) d.0

  run_call-messages :
      (call : ToolCall Value) (t : Turn E)
      → (r : Result ToolOutput ToolError) × ((run_call E call t).messages
          ≡ t.messages ++ tool_message call r ∷ [])
        × ((run_call E call t).metrics.tool_calls ≡ add_u32 t.metrics.tool_calls 1)
  unfolding run_call emit push
  run_call-messages call t = ((dispatch_tool E call t.world).0, refl, refl)

  answered_first :
      (call : ToolCall Value) (calls : List (ToolCall Value)) (t : Turn E)
      (d : Result (Unit {0}) (AgentRunError Value) × Turn E)
      → Dispatched calls (run_call E call t) d
      → Dispatched (call ∷ calls) t d
  answered_first call calls t d (rs, ms, count, outcome) =
      let (r, em, en) = run_call-messages call t in
      (
        r ∷ rs,
        ms
            ∙ ap (λ l. l ++ answers calls rs) em
            ∙ append_assoc t.messages (tool_message call r ∷ []) (answers calls rs),
        omega (arith, count, en),
        ground (arith, outcome),
      )

  unless_cancelled-Dispatched :
      (b : Bool) (call : ToolCall Value) (calls : List (ToolCall Value)) (t : Turn E)
      (rest : Result (Unit {0}) (AgentRunError Value) × Turn E)
      → Dispatched (call ∷ calls) t rest
      → Dispatched (call ∷ calls) t (unless_cancelled E b t rest)
  unfolding unless_cancelled emit
  unless_cancelled-Dispatched true call calls t rest h =
      ([], sym (append-nil t.messages), omega arith, inr (refl, omega arith))
  unless_cancelled-Dispatched false call calls t rest h = h

  -- The calls of a response are answered in order, each by one tool message with the call's id:
  -- all of them if the dispatch succeeds. It fails only by a cancellation, and then the answers
  -- are those of the calls before it, fewer than all. The count of tool calls, a `u32`, grows by
  -- the number of answers.
  pub dispatch_calls-Dispatched :
      (calls : List (ToolCall Value)) (t : Turn E) → Dispatched calls t (dispatch_calls E calls t)
  unfolding dispatch_calls
  dispatch_calls-Dispatched [] t = ([], sym (append-nil t.messages), omega arith, inl (refl, refl))
  dispatch_calls-Dispatched (call ∷ calls) t =
      let t1 : Turn E = record t { world = (H.is_cancelled t.world).1 } in
      unless_cancelled-Dispatched (H.is_cancelled t.world).0 call calls t1
        (dispatch_calls E calls (run_call E call t1))
        (answered_first call calls t1 (dispatch_calls E calls (run_call E call t1))
          (dispatch_calls-Dispatched calls (run_call E call t1)))
