-- ===== src/Tests/CommandTests.antt =====
-- Slash commands at concrete inputs.
use perry_hermes.Prelude.{◌≡◌, refl, none, some, [], ◌∷◌, Text, codes, map}
use perry_hermes.Commands.{ParsedCommand, compact, quit, parse, display, for_platform, telegram}
use perry_hermes.Commands.RoundTrip.{parse-display}

abbrev focus : ParsedCommand
focus = record { command = compact; arg = some (codes "the tests") }

parse-display_example : (s : Text) × (display focus ≡ some s) × (parse s ≡ some focus)
parse-display_example = parse-display focus (refl, refl)

abbrev leaving : ParsedCommand
leaving = record { command = quit; arg = none }

-- A chat platform has no command that only the terminal can serve.
telegram_names :
    map (λ m. m.name) (for_platform telegram)
    ≡ codes "reset" ∷ codes "new" ∷ codes "compact" ∷ codes "status" ∷ []
unfolding for_platform
telegram_names = refl
