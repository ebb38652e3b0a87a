-- ===== src/Agent/Session/Queue.antt =====
-- The queue of pending user messages of a session: what a drain returns after any enqueues.
use perry_hermes.Prelude.{
  ◌≡◌, refl, sym, ap, ◌∙◌, false, none, List, [], ◌∷◌, ◌++◌, append_assoc, append-nil, Text,
}
use perry_hermes.Agent.Session.{
  Session, enqueue_message, drain_pending_messages, has_pending_messages, combined,
}

module _ {V : Type 0} where
  -- Several messages arrive one after the other.
  unfoldable pub enqueue_all : List Text → Session V → Session V
  enqueue_all [] s = s
  enqueue_all (t ∷ ts) s = enqueue_all ts (enqueue_message t s)

  pub enqueue_all-append :
      (ts : List Text) (s : Session V)
      → enqueue_all ts s ≡ record s { pending_messages = s.pending_messages ++ ts }
  unfolding enqueue_all enqueue_message
  enqueue_all-append [] s =
      ap (λ q. record s { pending_messages = q }) (sym (append-nil s.pending_messages))
  enqueue_all-append (t ∷ ts) s =
      enqueue_all-append ts (enqueue_message t s)
      ∙ ap (λ q. record s { pending_messages = q }) (append_assoc s.pending_messages (t ∷ []) ts)

  -- Whatever was queued and whatever arrives before the drain is in the drained message, in the
  -- order of arrival and joined by blank lines; the drain returns nothing exactly if there was
  -- nothing to drain. It empties the queue, so the next drain returns nothing, and it changes
  -- nothing else of the session.
  pub drain-enqueue_all :
      (ts : List Text) (s : Session V)
      → (drain_pending_messages (enqueue_all ts s)
          ≡ (combined (s.pending_messages ++ ts), record s { pending_messages = [] }))
        × (has_pending_messages (drain_pending_messages (enqueue_all ts s)).1 ≡ false)
        × ((drain_pending_messages (drain_pending_messages (enqueue_all ts s)).1).0 ≡ none)
  unfolding drain_pending_messages has_pending_messages
  drain-enqueue_all ts s = rw (enqueue_all-append ts s) (refl, refl, refl)
