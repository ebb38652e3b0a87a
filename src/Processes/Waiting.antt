-- ===== src/Processes/Waiting.antt =====
-- That a wait for a process ends.
use perry_hermes.Prelude.{
  ◌≡◌, refl, ◌⊎◌, inl, inr, true, false, Option, none, some, List, [], ◌∷◌, Text, if◌then◌else◌,
  Result, ok, err, Bool-cases,
}
use perry_hermes.Processes.Registry.{
  ProcessSession, ProcessRegistry, WaitResult, find, Found, in_running, in_finished, nowhere,
  not_found, on_session, changed_running, changed_finished,
}
use perry_hermes.Processes.Operations.{
  wait_session, wait_check, wait_timeout, Round, Waiting, returned, after_check, wait,
}

-- A round comes after the deadline.
abbrev pub Expires : List Round → Type 0
Expires [] = ⊥
Expires (c ∷ cs) = (c.expired ≡ true) ⊎ Expires cs

abbrev Checked : Option (ProcessRegistry × Result (Option WaitResult) Text) → Type 0
Checked x = (r : ProcessRegistry) × (o : Result (Option WaitResult) Text) × (x ≡ some (r, o))

abbrev Shown : Option (ProcessSession × Option WaitResult) → Type 0
Shown x = (s : ProcessSession) × (o : Option WaitResult) × (x ≡ some (s, o))

-- The check of a round never panics.
wait_session-some : (id : Text) (s : ProcessSession) → Shown (wait_session id s)
unfolding wait_session
wait_session-some id s = elim (Bool-cases s.exited) [
  | inl k ↦ rw (k, wait_session) (_, _, refl)
  | inr k ↦ rw (k, wait_session) (_, _, refl)
]

changed_running-Checked :
    (id : Text) (r : ProcessRegistry) (x : Option (ProcessSession × Option WaitResult))
    → Shown x
    → Checked (changed_running id r x)
changed_running-Checked id r none (s, o, e) = absurd (cc)
changed_running-Checked id r (some (t, a)) h = (_, _, refl)

changed_finished-Checked :
    (id : Text) (r : ProcessRegistry) (x : Option (ProcessSession × Option WaitResult))
    → Shown x
    → Checked (changed_finished id r x)
changed_finished-Checked id r none (s, o, e) = absurd (cc)
changed_finished-Checked id r (some (t, a)) h = (_, _, refl)

wait_check-some : (id : Text) (r : ProcessRegistry) → Checked (wait_check id r)
unfolding wait_check on_session
wait_check-some id r = go (find id r)
  where
    go :
        (f : Found)
        → Checked (elim f [
          | in_running s ↦ changed_running id r (wait_session id s)
          | in_finished s ↦ changed_finished id r (wait_session id s)
          | nowhere ↦ some (r, err (not_found id))
        ])
    go (in_running s) = changed_running-Checked id r (wait_session id s) (wait_session-some id s)
    go (in_finished s) = changed_finished-Checked id r (wait_session id s) (wait_session-some id s)
    go nowhere = (_, _, refl)

not_expired-Expires :
    (c : Round) (cs : List Round) → c.expired ≡ false → Expires (c ∷ cs) → Expires cs
not_expired-Expires c cs l (inl e) = absurd (cc)
not_expired-Expires c cs l (inr h) = h

abbrev pub Returned : Waiting → Type 0
Returned w = (r : ProcessRegistry) × (o : Result WaitResult Text) × (w ≡ returned r o)

-- A wait returns, with a result or an error and without a panic, at the latest in the first round after
-- the deadline, whatever the other tasks do to the registry in the meantime.
pub wait-Returned :
    (id : Text) (cs : List Round) (r : ProcessRegistry) → Expires cs → Returned (wait id cs r)
unfolding wait
wait-Returned id [] r h = absurd h
wait-Returned id (c ∷ cs) r h =
    go (wait_check id (c.before r)) (wait_check-some id (c.before r))
      (λ e u. wait-Returned id cs u e) h
  where
    go :
        (x : Option (ProcessRegistry × Result (Option WaitResult) Text))
        → Checked x
        → (Expires cs → (u : ProcessRegistry) → Returned (wait id cs u))
        → Expires (c ∷ cs)
        → Returned (
            after_check x (λ u.
              let rest = wait id cs u in
              if c.expired then returned (c.between u) (wait_timeout id (c.between u)) else rest))
    go none (u, o, e) next h = absurd (cc)
    go (some (u, err x)) k next h = (_, _, refl)
    go (some (u, ok (some w))) k next h = (_, _, refl)
    go (some (u, ok none)) k next h = elim (Bool-cases c.expired) [
      | inl l ↦ rw l (_, _, refl)
      | inr l ↦ rw l (next (not_expired-Expires c cs l h) u)
    ]
