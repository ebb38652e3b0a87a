-- ===== src/Commands/RoundTrip.antt =====
-- Slash commands that are displayed and parsed again.
use perry_hermes.Prelude.{
  ◌≡◌, refl, sym, ap, ◌∙◌, inl, inr, false, Option, none, some, List, [], ◌∷◌, ◌++◌, Text, codes,
  ◌&&◌, is_empty, is_whitespace, trim, trim_start, trim_end, Bool-cases, arith, text_eq,
}
use perry_hermes.Commands.{
  Command, reset, new, compact, status, quit, clear, ParsedCommand, CommandMeta, all, find_named,
  arg_of, parse_trimmed, parse, display, split_word, starts_with_slash, canonical, drop_slashes,
  unwrap_text,
}

trim_end-idempotent : (s : Text) → trim_end (trim_end s) ≡ trim_end s
trim_end-idempotent [] = refl
trim_end-idempotent (c ∷ s) = elim (Bool-cases (is_whitespace c && is_empty (trim_end s))) [
  | inl h ↦ rw (h, trim_end) refl
  | inr h ↦ rw (h, trim_end) (rw (trim_end-idempotent s) (rw h refl))
]

-- A text without white space at its start keeps that when its end is trimmed.
trim_start-trim : (s : Text) → trim_start (trim s) ≡ trim s
trim_start-trim [] = refl
trim_start-trim (c ∷ s) = elim (Bool-cases (is_whitespace c)) [
  | inl w ↦ rw w (trim_start-trim s)
  | inr w ↦ rw w (rw (w, trim_end) (rw (w, trim_start) refl))
]

pub trim-idempotent : (s : Text) → trim (trim s) ≡ trim s
trim-idempotent s = ap trim_end (trim_start-trim s) ∙ trim_end-idempotent (trim_start s)

append-not_empty : (s x : Text) → is_empty x ≡ false → is_empty (s ++ x) ≡ false
append-not_empty [] x h = h
append-not_empty (c ∷ s) x h = refl

trim_end-append : (s a : Text) → is_empty (trim_end a) ≡ false → trim_end (s ++ a) ≡ s ++ trim_end a
trim_end-append [] a h = refl
trim_end-append (c ∷ s) a h =
    ground (arith, trim_end-append s a h, append-not_empty s (trim_end a) h)

-- a prefix that starts with a slash, before a trimmed text
slash-trim : (s a : Text) → is_empty a ≡ false → trim a ≡ a → trim (47 ∷ s ++ a) ≡ 47 ∷ s ++ a
slash-trim s a full t =
    let start : trim_start a ≡ a = ap trim_start (sym t) ∙ trim_start-trim a ∙ t in
    let end : trim_end a ≡ a = ap trim_end (sym start) ∙ t in
    trim_end-append (47 ∷ s) a (ap is_empty end ∙ full) ∙ ap (λ x. 47 ∷ s ++ x) end

arg_of-trim : (a : Text) → is_empty a ≡ false → trim a ≡ a → arg_of (trim a) ≡ some a
arg_of-trim a full t = ap arg_of t ∙ rw full refl

-- An argument that a command can have: none, or a trimmed text that is not empty.
abbrev pub IsArgument : Option Text → Type 0
IsArgument none = Unit
IsArgument (some a) = (is_empty a ≡ false) × (trim a ≡ a)

parse-prefixed :
    (c : Command) (word a : Text)
    → is_empty a ≡ false
    → trim a ≡ a
    → parse_trimmed (47 ∷ word ++ a) ≡ some (record { command = c; arg = arg_of (trim a) })
    → parse (47 ∷ word ++ a) ≡ some (record { command = c; arg = some a })
unfolding parse
parse-prefixed c word a full t e =
    ap parse_trimmed (slash-trim word a full t)
    ∙ e
    ∙ ap (λ o. some (record { command = c; arg = o })) (arg_of-trim a full t)

-- Every command, with any argument that it can have, is displayed as a text that parses to it.
pub parse-display :
    (p : ParsedCommand) → IsArgument p.arg → (s : Text) × (display p ≡ some s) × (parse s ≡ some p)
unfolding display parse
parse-display p h = go p.command p.arg h
  where
    go :
        (c : Command) (o : Option Text)
        → IsArgument o
        → (s : Text) × (display (record { command = c; arg = o }) ≡ some s)
          × (parse s ≡ some (record { command = c; arg = o }))
    go reset none k = (codes "/reset", refl, refl)
    go new none k = (codes "/new", refl, refl)
    go compact none k = (codes "/compact", refl, refl)
    go status none k = (codes "/status", refl, refl)
    go quit none k = (codes "/quit", refl, refl)
    go clear none k = (codes "/clear", refl, refl)
    go reset (some a) k =
        (codes "/reset " ++ a, refl, parse-prefixed reset (codes "reset ") a k.0 k.1 refl)
    go new (some a) k = (codes "/new " ++ a, refl, parse-prefixed new (codes "new ") a k.0 k.1 refl)
    go compact (some a) k =
        (codes "/compact " ++ a, refl, parse-prefixed compact (codes "compact ") a k.0 k.1 refl)
    go status (some a) k =
        (codes "/status " ++ a, refl, parse-prefixed status (codes "status ") a k.0 k.1 refl)
    go quit (some a) k =
        (codes "/quit " ++ a, refl, parse-prefixed quit (codes "quit ") a k.0 k.1 refl)
    go clear (some a) k =
        (codes "/clear " ++ a, refl, parse-prefixed clear (codes "clear ") a k.0 k.1 refl)

arg_of-IsArgument : (s : Text) → IsArgument (arg_of (trim s))
arg_of-IsArgument s = elim (Bool-cases (is_empty (trim s))) [
  | inl h ↦ rw h tt
  | inr h ↦ rw h (h, trim-idempotent s)
]

find_named-arg :
    (name : Text) (arg : Option Text) (es : List (Command × CommandMeta)) (p : ParsedCommand)
    → find_named name arg es ≡ some p
    → p.arg ≡ arg
find_named-arg name arg [] p h = absurd (cc)
find_named-arg name arg (e ∷ es) p h = elim (Bool-cases (text_eq e.1.name name)) [
  | inl k ↦ let found : some (record { command = e.0; arg = arg }) ≡ some p = rw k at h in cc
  | inr k ↦ find_named-arg name arg es p (rw k at h)
]

parse_trimmed-IsArgument :
    (s : Text) (p : ParsedCommand) → parse_trimmed s ≡ some p → IsArgument p.arg
unfolding parse_trimmed
parse_trimmed-IsArgument s p h = elim (Bool-cases (starts_with_slash (split_word s).0)) [
  | inl k ↦
      rw
        (find_named-arg (canonical (drop_slashes (split_word s).0))
          (arg_of (trim (unwrap_text (split_word s).1))) all p (rw (k, parse_trimmed) at h))
        (arg_of-IsArgument (unwrap_text (split_word s).1))
  | inr k ↦ absurd (cc (rw (k, parse_trimmed) at h))
]

-- Whatever parses, however it is spelled (with the alias, more slashes or white space), has an
-- argument that is trimmed and not empty, or none, and its display parses to the same command.
pub parse-canonical :
    (input : Text) (p : ParsedCommand)
    → parse input ≡ some p
    → IsArgument p.arg × ((s : Text) × (display p ≡ some s) × (parse s ≡ some p))
unfolding parse
parse-canonical input p h =
    let a = parse_trimmed-IsArgument (trim input) p h in (a, parse-display p a)
