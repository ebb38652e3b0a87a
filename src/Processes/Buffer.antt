-- ===== src/Processes/Buffer.antt =====
-- The rolling output buffer of a process, in process_registry.rs: offsets are in bytes, and `none` is
-- the panic of a slice that starts inside a character.
use perry_hermes.Prelude.{
  ℕ, ◌+◌, ◌-◌, Option, none, some, [], ◌∷◌, ◌++◌, Text, codes, decimal, leb, ◌==◌, if◌then◌else◌,
}
use perry_hermes.Utf8.{len_utf8, len, split_at}

abbrev pub max_output_chars : ℕ
max_output_chars = 200000

abbrev pub notify_output_tail_chars : ℕ
notify_output_tail_chars = 2000

abbrev pub after_split : Option (Text × Text) → Option Text
after_split none = none
after_split (some (b, a)) = some a

-- `&s[start..]`
unfoldable pub slice_from : Text → ℕ → Option Text
slice_from s start = after_split (split_at s start)

abbrev pub moved_by : ℕ → Option ℕ → Option ℕ
moved_by n none = none
moved_by n (some i) = some (n + i)

-- `find('\n')`
unfoldable pub find_feed : Text → Option ℕ
find_feed [] = none
find_feed (c ∷ s) =
    let rest = moved_by (len_utf8 c) (find_feed s) in if c == 10 then some 0 else rest

-- the start of the kept part, after the first line feed of what follows if there is one
abbrev pub snapped : ℕ → Option ℕ → ℕ
snapped start none = start
snapped start (some i) = start + i + 1

unfoldable pub truncate_buffer : Text → Option Text
unfolding slice_from find_feed
truncate_buffer s =
    let start = len s - max_output_chars in
    if leb (len s) max_output_chars then some s else elim (slice_from s start) [
      | none ↦ none
      | some rest ↦ slice_from s (snapped start (find_feed rest))
    ]

abbrev pub tail_notice : ℕ → Option Text → Option Text
tail_notice n none = none
tail_notice n (some kept) =
    some
      (codes "[... output truncated — showing last " ++ (decimal n ++ (codes " chars]\n" ++ kept)))

unfoldable pub tail_chars : Text → ℕ → Option Text
unfolding slice_from find_feed
tail_chars s n =
    let start = len s - n in
    if leb (len s) n then some s else elim (slice_from s start) [
      | none ↦ none
      | some rest ↦
          let start' = snapped start (find_feed rest) in
          tail_notice (len s - start') (slice_from s start')
    ]
