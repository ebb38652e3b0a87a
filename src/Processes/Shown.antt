-- ===== src/Processes/Shown.antt =====
-- What a process of process_registry.rs shows to polls, while it runs and after it has ended.
use perry_hermes.Prelude.{
  ℕ, ◌+◌, ◌≤◌, ◌≡◌, refl, sym, ap, ◌∙◌, Bool, true, false, Option, none, some, [], ◌++◌, Text,
  append_assoc, append-nil, arith, ltb, leb, ok, if◌then◌else◌,
}
use mathlib.Core.Path.{subst}
use perry_hermes.Maps.{get, put, remove, get-put, remove-put}
use perry_hermes.Utf8.{len, split_at}
use perry_hermes.Utf8.Offsets.{len-append, split_at-append}
use perry_hermes.Processes.Buffer.{
  max_output_chars, slice_from, truncate_buffer, tail_chars, notify_output_tail_chars,
}
use perry_hermes.Processes.Registry.{
  ProcessSession, ProcessRegistry, PollResult, append_chunk, ℤ, take_exited, stored, store_finished,
  append_output, find, on_session, poll_session, poll, status_of, elapsed_secs,
}

-- A running process's buffer is what has been returned and what has not, and its id occurs once.
abbrev pub Shows : Text → ProcessRegistry → Text → Text → Type 0
Shows id r seen unread =
    (s : ProcessSession) × (get id r.running ≡ some s)
    × (s.output_buffer ≡ seen ++ unread)
    × (s.output_returned_offset ≡ len seen)
    × (get id (remove id r.running) ≡ none)

pub appended :
    (id chunk : Text) (r : ProcessRegistry) (seen unread : Text)
    → Shows id r seen unread
    → len seen + len unread + len chunk ≤ max_output_chars
    → (r' : ProcessRegistry) × (append_output id chunk r ≡ some r')
      × Shows id r' seen (unread ++ chunk)
unfolding append_output append_chunk
appended id chunk r seen unread (s, e, text, at, once) small =
    let s' : ProcessSession = record s { output_buffer = s.output_buffer ++ chunk } in
    let fits : ltb max_output_chars (len (s.output_buffer ++ chunk)) ≡ false =
      ground (arith, len-append s.output_buffer chunk, ap len text, len-append seen unread) in
    (
      record r { running = put id s' r.running },
      rw (e, append_output) (rw (fits, append_chunk) refl),
      (
        s',
        get-put id s' r.running,
        ap (λ b. b ++ chunk) text ∙ append_assoc seen unread chunk,
        at,
        ap (get id) (remove-put id s' r.running) ∙ once,
      ),
    )

pub polled_once :
    (id : Text) (now : ℕ) (r : ProcessRegistry) (seen unread : Text)
    → Shows id r seen unread
    → (r' : ProcessRegistry) × (a : PollResult) × (poll id now r ≡ some (r', ok a))
      × (a.output ≡ unread)
      × Shows id r' (seen ++ unread) []
unfolding poll on_session find poll_session slice_from
polled_once id now r seen unread (s, e, text, at, once) =
    let cut : split_at s.output_buffer s.output_returned_offset ≡ some (seen, unread) =
      rw (text, at) (split_at-append seen unread) in
    let s' : ProcessSession = record s {
      output_returned_offset = len s.output_buffer;
      consumed = true;
    } in
    (
      record r { running = put id s' r.running },
      record {
        session_id = id;
        status = status_of s.exited;
        exit_code = s.exit_code;
        output = unread;
        uptime_secs = elapsed_secs now s.started_at;
      },
      rw (e, poll, on_session, find) (rw (cut, poll_session, slice_from) refl),
      refl,
      (
        s',
        get-put id s' r.running,
        text ∙ sym (append-nil (seen ++ unread)),
        ap len text,
        ap (get id) (remove-put id s' r.running) ∙ once,
      ),
    )

-- A session that has ended and whose output is all in its buffer.
abbrev pub Ended : ℤ → Text → Text → ProcessSession → Type 0
Ended code seen unread s =
    (s.output_buffer ≡ seen ++ unread)
    × (s.output_returned_offset ≡ len seen)
    × (s.exit_code ≡ some code)

pub take_exited-Ended :
    (id : Text) (code : ℤ) (r : ProcessRegistry) (seen unread : Text)
    → Shows id r seen unread
    → len seen + len unread ≤ max_output_chars
    → (gone : ProcessRegistry) × (s : ProcessSession) × (take_exited id code r
        ≡ some (gone, some s))
      × Ended code seen unread s
      × (get id gone.running ≡ none)
unfolding take_exited truncate_buffer
take_exited-Ended id code r seen unread (s, e, text, at, once) small =
    let fits : leb (len s.output_buffer) max_output_chars ≡ true =
      ground (arith, ap len text, len-append seen unread) in
    (
      record r { running = remove id r.running },
      record s { exited = true; exit_code = some code },
      rw (e, take_exited) (rw (fits, truncate_buffer) refl),
      (text, at, refl),
      once,
    )

-- The sessions that run are those of the first registry, and the finished one of `id` is `s`.
abbrev pub Holds : Text → ProcessSession → ProcessRegistry → ProcessRegistry → Type 0
Holds id s r r' = (r'.running ≡ r.running) × (get id r'.finished ≡ some s)

held :
    (id : Text) (s : ProcessSession) (r a r' : ProcessRegistry)
    → some a ≡ some r'
    → Holds id s r a
    → Holds id s r r'
held id s r a r' e h = let same : a ≡ r' = cc in subst (Holds id s r) same h

if-Holds :
    (id : Text) (s : ProcessSession) (r : ProcessRegistry) (b : Bool) (x y : ProcessRegistry)
    → Holds id s r x
    → Holds id s r y
    → Holds id s r (if b then x else y)
if-Holds id s r true x y h k = h
if-Holds id s r false x y h k = k

pub store_finished-Holds :
    (id : Text) (code : ℤ) (s : ProcessSession) (r r' : ProcessRegistry)
    → store_finished id code s r ≡ some r'
    → Holds id s r r'
unfolding store_finished
store_finished-Holds id code s r r' h =
    tailed (tail_chars s.output_buffer notify_output_tail_chars) h
  where
    tailed : (o : Option Text) → stored id code s r o ≡ some r' → Holds id s r r'
    tailed none k = absurd (cc)
    tailed (some tail) k = held id s r _ r' k (
        if-Holds id s r s.notify_on_complete _ _ (refl, get-put id s r.finished)
          (refl, get-put id s r.finished))

pub poll_finished :
    (id : Text) (code : ℤ) (now : ℕ) (s : ProcessSession) (r : ProcessRegistry) (seen unread : Text)
    → get id r.running ≡ none
    → get id r.finished ≡ some s
    → Ended code seen unread s
    → (r' : ProcessRegistry) × (a : PollResult) × (poll id now r ≡ some (r', ok a))
      × (a.output ≡ unread)
      × (a.exit_code ≡ some code)
unfolding poll on_session find poll_session slice_from
poll_finished id code now s r seen unread gone there (text, at, exit) =
    let cut : split_at s.output_buffer s.output_returned_offset ≡ some (seen, unread) =
      rw (text, at) (split_at-append seen unread) in
    let s' : ProcessSession = record s {
      output_returned_offset = len s.output_buffer;
      consumed = true;
    } in
    (
      record r { finished = put id s' r.finished },
      record {
        session_id = id;
        status = status_of s.exited;
        exit_code = s.exit_code;
        output = unread;
        uptime_secs = elapsed_secs now s.started_at;
      },
      rw (gone, there, poll, on_session, find) (rw (cut, poll_session, slice_from) refl),
      refl,
      exit,
    )
