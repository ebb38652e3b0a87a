-- ===== src/Commands.antt =====
-- crates/hermes-core/src/commands.rs and crates/hermes-core/src/platform.rs: the slash commands, their
-- dictionary, parsing and display.
pub mod RoundTrip
use perry_hermes.Prelude.{
  ℕ, ◌≡◌, refl, Bool, true, false, Option, none, some, List, [], ◌∷◌, ◌++◌, map, Text, codes,
  text_eq, any, filter, is_empty, is_whitespace, trim, ◌==◌, if◌then◌else◌,
}

pub data Platform : Type 0 where
  tui qq_bot telegram : Platform

unfoldable pub platform_as_str : Platform → Text
platform_as_str tui = codes "cli"
platform_as_str qq_bot = codes "qqbot"
platform_as_str telegram = codes "telegram"

abbrev platform_eq : Platform → Platform → Bool
platform_eq tui tui = true
platform_eq qq_bot qq_bot = true
platform_eq telegram telegram = true
platform_eq _ _ = false

pub data Command : Type 0 where
  reset new compact status quit clear : Command

-- the equality of discriminants
abbrev pub command_eq : Command → Command → Bool
command_eq reset reset = true
command_eq new new = true
command_eq compact compact = true
command_eq status status = true
command_eq quit quit = true
command_eq clear clear = true
command_eq _ _ = false

pub record ParsedCommand : Type 0 where
  pub command : Command
  pub arg : Option Text

pub record CommandMeta : Type 0 where
  pub name : Text
  pub description : Text
  pub platforms : List Platform

abbrev everywhere : List Platform
everywhere = tui ∷ qq_bot ∷ telegram ∷ []

-- `Command::ALL`
abbrev pub all : List (Command × CommandMeta)
all =
    (
      reset,
      record {
        name = codes "reset";
        description = codes "Reset the current session";
        platforms = everywhere;
      },
    )
    ∷ (
      new,
      record {
        name = codes "new";
        description = codes "Reset the current session (alias)";
        platforms = everywhere;
      },
    )
    ∷ (
      compact,
      record {
        name = codes "compact";
        description = codes "Compact the conversation context";
        platforms = everywhere;
      },
    )
    ∷ (
      status,
      record {
        name = codes "status";
        description = codes "Show session status";
        platforms = everywhere;
      },
    )
    ∷ (
      quit,
      record {
        name = codes "quit";
        description = codes "Exit the application";
        platforms = tui ∷ [];
      },
    )
    ∷ (
      clear,
      record { name = codes "clear"; description = codes "Clear scrollback"; platforms = tui ∷ [] },
    )
    ∷ []

-- `Command::meta`; `none` is the failure of its `expect`.
abbrev find_meta : Command → List (Command × CommandMeta) → Option CommandMeta
find_meta c [] = none
find_meta c (e ∷ es) = if command_eq e.0 c then some e.1 else find_meta c es

unfoldable pub meta : Command → Option CommandMeta
meta c = find_meta c all

unfoldable pub for_platform : Platform → List CommandMeta
for_platform p = map (λ e. e.1) (filter (λ e. any (platform_eq p) e.1.platforms) all)

-- `splitn(2, char::is_whitespace)`: the first piece and, after a white space, the rest
abbrev pub split_word : Text → Text × Option Text
split_word [] = ([], none)
split_word (c ∷ s) =
    let (word, rest) = split_word s in if is_whitespace c then ([], some s) else (c ∷ word, rest)

-- `trim_start_matches('/')`
abbrev pub drop_slashes : Text → Text
drop_slashes [] = []
drop_slashes (c ∷ s) = let rest = drop_slashes s in if c == 47 then rest else c ∷ s

abbrev pub starts_with_slash : Text → Bool
starts_with_slash [] = false
starts_with_slash (c ∷ s) = c == 47

-- the one historical alias
abbrev pub canonical : Text → Text
canonical cmd = if text_eq cmd (codes "exit") then codes "quit" else cmd

abbrev pub arg_of : Text → Option Text
arg_of rest = if is_empty rest then none else some rest

-- the search of the dictionary by name
abbrev pub find_named : Text → Option Text → List (Command × CommandMeta) → Option ParsedCommand
find_named name arg [] = none
find_named name arg (e ∷ es) =
    let rest = find_named name arg es in
    if text_eq e.1.name name then some (record { command = e.0; arg = arg }) else rest

abbrev pub unwrap_text : Option Text → Text
unwrap_text none = []
unwrap_text (some s) = s

-- `Command::parse` of a trimmed input
unfoldable pub parse_trimmed : Text → Option ParsedCommand
parse_trimmed trimmed =
    let (raw_cmd, rest) = split_word trimmed in
    if starts_with_slash raw_cmd
    then find_named (canonical (drop_slashes raw_cmd)) (arg_of (trim (unwrap_text rest))) all
    else none

unfoldable pub parse : Text → Option ParsedCommand
unfolding parse_trimmed
parse input = parse_trimmed (trim input)

-- the display of a parsed command, with the name of its metadata
unfoldable pub display_named : Text → Option Text → Text
display_named name none = codes "/" ++ name
display_named name (some arg) = codes "/" ++ (name ++ (codes " " ++ arg))

unfoldable pub display : ParsedCommand → Option Text
unfolding meta display_named
display p = elim (meta p.command) [ none ↦ none | some m ↦ some (display_named m.name p.arg) ]
