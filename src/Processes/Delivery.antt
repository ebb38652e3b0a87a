-- ===== src/Processes/Delivery.antt =====
-- What the polls of a process return, next to what the process has printed.
use perry_hermes.Prelude.{
  ℕ, ◌+◌, ◌≤◌, ◌≡◌, refl, sym, ap, ◌∙◌, Bool, Option, none, some, List, [], ◌∷◌, ◌++◌, Text,
  append_assoc, append-nil, arith, ok, err,
}
use perry_hermes.Maps.{get, put, remove, get-put, remove-put, remove-absent}
use perry_hermes.Utf8.{len}
use perry_hermes.Utf8.Offsets.{len-append}
use perry_hermes.Processes.Buffer.{max_output_chars}
use perry_hermes.Processes.Registry.{
  ProcessSession, ProcessRegistry, PollResult, id_of, session_new, spawn, ℤ, take_exited,
  store_finished, append_output, poll,
}
use perry_hermes.Processes.Shown.{
  Shows, appended, polled_once, take_exited-Ended, store_finished-Holds, poll_finished,
}

-- A reader task appends a chunk, or the agent polls at some time.
pub data Event : Type 0 where
  prints : Text → Event
  polls : ℕ → Event

-- what the process prints in all
abbrev pub printed : List Event → Text
printed [] = []
printed (prints c ∷ es) = c ++ printed es
printed (polls now ∷ es) = printed es

abbrev returned : Text → Option (ProcessRegistry × Text) → Option (ProcessRegistry × Text)
returned t none = none
returned t (some (r, out)) = some (r, t ++ out)

-- events of one process, with what the polls return in all
unfoldable pub run : Text → List Event → ProcessRegistry → Option (ProcessRegistry × Text)
unfolding append_output poll
run id [] r = some (r, [])
run id (prints c ∷ es) r = elim (append_output id c r) [ none ↦ none | some r' ↦ run id es r' ]
run id (polls now ∷ es) r = elim (poll id now r) as (λ x. Option (ProcessRegistry × Text)) [
  | none ↦ none
  | some (r', err e) ↦ none
  | some (r', ok a) ↦ returned a.output (run id es r')
]

-- what a run delivers: with what is still unread, all that was unread before and all that is printed
abbrev Delivered : Text → List Event → ProcessRegistry → Text → Type 0
Delivered id es r unread =
    (r' : ProcessRegistry) × (out : Text) × (seen' : Text) × (unread' : Text) × (run id es r
      ≡ some (r', out))
    × Shows id r' seen' unread'
    × (out ++ unread' ≡ unread ++ printed es)
    × (len seen' + len unread' ≤ max_output_chars)

run-Delivered :
    (id : Text) (es : List Event) (r : ProcessRegistry) (seen unread : Text)
    → Shows id r seen unread
    → len seen + len unread + len (printed es) ≤ max_output_chars
    → Delivered id es r unread
unfolding run
run-Delivered id [] r seen unread h small =
    (r, [], seen, unread, refl, h, sym (append-nil unread), omega (arith, small))
run-Delivered id (prints c ∷ es) r seen unread h small =
    let both = len-append c (printed es) in
    let (mid, e, h') = appended id c r seen unread h (omega (arith, both)) in
    let (r', out, seen', unread', e', h'', all, fits) =
      run-Delivered id es mid seen (unread ++ c) h' (omega (arith, both, len-append unread c)) in
    (r', out, seen', unread', rw (e, run) e', h'', all ∙ append_assoc unread c (printed es), fits)
run-Delivered id (polls now ∷ es) r seen unread h small =
    let (mid, a, e, got, h') = polled_once id now r seen unread h in
    let (r', out, seen', unread', e', h'', all, fits) =
      run-Delivered id es mid (seen ++ unread) [] h' (omega (arith, len-append seen unread)) in
    (
      r',
      a.output ++ out,
      seen',
      unread',
      rw (e, run) (rw e' refl),
      h'',
      append_assoc a.output out unread'
          ∙ ap (λ t. t ++ (out ++ unread')) got
          ∙ ap (λ t. unread ++ t) all,
      fits,
    )

-- A process that has been started with an id that does not run already: if it prints no more bytes
-- than the buffer holds, then while it runs no poll panics or fails, in whatever order the polls and
-- the prints come. What the polls return, and what one more poll returns, is together what the
-- process has printed: nothing is lost or returned twice. The same holds if that last poll comes
-- after the process has exited and both steps of its end are done with no panic; it then has
-- the exit code. A poll between these two steps is not among these events.
pub run-spawn :
    (shell command cwd : Text) (notify : Bool) (start now : ℕ) (pid : Option ℕ) (code : ℤ)
    (r : ProcessRegistry) (es : List Event)
    → get (id_of r.next_id) r.running ≡ none
    → len (printed es) ≤ max_output_chars
    → (mid : ProcessRegistry) × (last : ProcessRegistry) × (out : Text) × (a : PollResult)
      × (gone : ProcessRegistry) × (s : ProcessSession) × (run
            (id_of r.next_id)
            es
            (spawn shell command cwd notify start (ok pid) r).0
          ≡ some (mid, out))
      × (poll (id_of r.next_id) now mid ≡ some (last, ok a))
      × (out ++ a.output ≡ printed es)
      × (take_exited (id_of r.next_id) code mid ≡ some (gone, some s))
      × ((ended : ProcessRegistry)
          → store_finished (id_of r.next_id) code s gone ≡ some ended
          → (final : ProcessRegistry) × (b : PollResult) × (poll (id_of r.next_id) now ended
              ≡ some (final, ok b))
            × (out ++ b.output ≡ printed es)
            × (b.exit_code ≡ some code))
unfolding spawn
run-spawn shell command cwd notify start now pid code r es new small =
    let id = id_of r.next_id in
    let s : ProcessSession = session_new id command cwd pid start notify in
    let once : get id (remove id (put id s r.running)) ≡ none =
      ap (get id) (remove-put id s r.running ∙ remove-absent id r.running new) ∙ new in
    let fresh : Shows id (spawn shell command cwd notify start (ok pid) r).0 [] [] =
      (s, get-put id s r.running, refl, refl, once) in
    let (mid, out, seen, unread, e, h, all, fits) =
      run-Delivered id es (spawn shell command cwd notify start (ok pid) r).0 [] [] fresh
        (omega (arith, small)) in
    let (last, a, e', got, h') = polled_once id now mid seen unread h in
    let (gone, x, left, ended, absent) = take_exited-Ended id code mid seen unread h fits in
    (
      mid,
      last,
      out,
      a,
      gone,
      x,
      e,
      e',
      ap (λ t. out ++ t) got ∙ all,
      left,
      λ r' stored_at.
          let (same, there) = store_finished-Holds id code x gone r' stored_at in
          let (final, b, polled_at, got', exit) =
            poll_finished id code now x r' seen unread (ap (get id) same ∙ absent) there ended in
          (final, b, polled_at, ap (λ t. out ++ t) got' ∙ all, exit),
    )
