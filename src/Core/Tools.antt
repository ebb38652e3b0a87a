-- ===== src/Core/Tools.antt =====
-- crates/hermes-core/src/registry.rs: the tools of the loop by name, and their schemas. A tool's own
-- code is outside; `V` is the type of JSON values. The order of `schemas` is that of registration,
-- which a `HashMap` does not promise.
use perry_hermes.Prelude.{ℕ, ◌≡◌, Bool, Option, some, List, map, Text}
use perry_hermes.Maps.{get, put, get-put}

pub record ToolSchema (V : Type 0) : Type 0 where
  pub name : Text
  pub description : Text
  pub parameters : V
  pub toolset : Text
  pub is_async : Bool
  pub requires_env : List Text
  pub max_result_size_chars : Option ℕ
  pub emoji : Option Text
  pub available : Bool

-- A tool `T` answers with its schema, whose `available` is asked for each time.
module _ {T V : Type 0} (schema_of : T → ToolSchema V) where
  -- `InMemoryRegistry`
  abbrev pub Tools : Type 0
  Tools = List (Text × T)

  unfoldable pub register : T → Tools → Tools
  unfolding put
  register tool tools = put (schema_of tool).name tool tools

  unfoldable pub find_tool : Text → Tools → Option T
  unfolding get
  find_tool name tools = get name tools

  unfoldable pub schemas : Tools → List (ToolSchema V)
  schemas tools = map (λ e. schema_of e.1) tools

  -- A tool that has been registered is found by its name.
  pub find_tool-register :
      (tool : T) (tools : Tools) → find_tool (schema_of tool).name (register tool tools) ≡ some tool
  unfolding find_tool register
  find_tool-register tool tools = get-put (schema_of tool).name tool tools
