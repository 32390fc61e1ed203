-- ===== src/Subcmd/Serve/Shutdown/Pulls.antt =====
-- cmd/subcmd/serve.go: that the server ends with the pulls in progress, and with them only.
use ociregistry.Base.{ℕ, ◌≡◌, refl, sym, subst, ◌⊎◌, inl, inr, Bool, true, false}
use ociregistry.Cache.Waiters.{System, Reach, next_step}
use ociregistry.Cache.Waiters
use ociregistry.Subcmd.Serve.Shutdown.{
  Stage, serving, closing, asking, awaiting, draining, stopped, Routine, absent, listening, pruning,
  answering, ended, State, at, stage, routine, requests, pulls, IsIdle, after_close, Move, cmd_stop,
  signal, receive, close, stop_pruner, pruner_stopped, prune, pruned, pull, wait_pulls, Moves, here,
  first_step,
}
use ociregistry.Subcmd.Serve.Shutdown.Legal.{is_legal, IsLegal, closing-is_legal}

abbrev pub is_serving : Stage → Bool
is_serving serving = true
is_serving _ = false

abbrev pub is_stopped : Stage → Bool
is_stopped stopped = true
is_stopped _ = false

-- Where the goroutine ends.
abbrev pub end_of : Routine → Routine
end_of absent = absent
end_of _ = ended

Reach-trans : {p q r : System} → Reach p q → Reach q r → Reach p r
Reach-trans run Waiters.here = run
Reach-trans run (next_step more st) = next_step (Reach-trans run more) st

after_close-is_stopped : (enabled : Bool) → is_stopped (after_close enabled) ≡ false
after_close-is_stopped true = refl
after_close-is_stopped false = refl

-- A step of a server that runs finds no pull in progress, or goes on.
Move-cases :
    {enabled : Bool} {s s' : State}
    → Move enabled s s'
    → is_stopped (stage s) ≡ false
    → IsIdle (pulls s) ⊎ ((is_stopped (stage s') ≡ false) × Reach (pulls s) (pulls s'))
Move-cases (cmd_stop s r n p) h = inr (h, Waiters.here)
Move-cases (signal r n p) h = inr (refl, Waiters.here)
Move-cases (receive r n p) h = inr (refl, Waiters.here)
Move-cases {enabled} (close r n p) h = inr (after_close-is_stopped enabled, Waiters.here)
Move-cases (stop_pruner n p) h = inr (refl, Waiters.here)
Move-cases (pruner_stopped n p) h = inr (refl, Waiters.here)
Move-cases (prune s n p) h = inr (h, Waiters.here)
Move-cases (pruned s n p) h = inr (h, Waiters.here)
Move-cases (pull s r n p p' st) h = inr (h, next_step Waiters.here st)
Move-cases (wait_pulls r n p idle) h = inl idle

-- So the pulls can come to an end where the server can.
pub stops-IsIdle :
    {enabled : Bool} {s s' : State}
    → Moves enabled s s'
    → is_stopped (stage s) ≡ false
    → is_stopped (stage s') ≡ true
    → (q : System) × Reach (pulls s) q × IsIdle q
stops-IsIdle (here s) h e = absurd (cc (h, e))
stops-IsIdle (first_step s t u st r) h e = elim (Move-cases st h) [
  | inl idle ↦ (pulls s, Waiters.here, idle)
  | inr (on, run) ↦ let (q, more, idle) = stops-IsIdle r on e in (q, Reach-trans run more, idle)
]

-- While the pulls run, the rest of the server stands.
pull_all :
    {enabled : Bool} {t : State} (s : Stage) (r : Routine) (n : ℕ) {p q : System}
    → Reach p q
    → Moves enabled (at s r n q) t
    → Moves enabled (at s r n p) t
pull_all s r n Waiters.here m = m
pull_all s r n (next_step run st) m = pull_all s r n run (first_step _ _ _ (pull s r n _ _ st) m)

draining-end_of : (enabled : Bool) (r : Routine) → is_legal enabled draining r ≡ true → end_of r ≡ r
draining-end_of enabled absent h = refl
draining-end_of enabled listening h = absurd (cc h)
draining-end_of enabled pruning h = absurd (cc h)
draining-end_of enabled answering h = absurd (cc h)
draining-end_of enabled ended h = refl

stopped-end_of : (enabled : Bool) (r : Routine) → is_legal enabled stopped r ≡ true → end_of r ≡ r
stopped-end_of enabled absent h = refl
stopped-end_of enabled listening h = absurd (cc h)
stopped-end_of enabled pruning h = absurd (cc h)
stopped-end_of enabled answering h = absurd (cc h)
stopped-end_of enabled ended h = refl

pub already_stopped :
    {enabled : Bool} (s : State)
    → IsLegal enabled s
    → is_stopped (stage s) ≡ true
    → Moves enabled s (at stopped (end_of (routine s)) (requests s) (pulls s))
already_stopped (at serving r n p) h e = absurd (cc e)
already_stopped (at closing r n p) h e = absurd (cc e)
already_stopped (at asking r n p) h e = absurd (cc e)
already_stopped (at awaiting r n p) h e = absurd (cc e)
already_stopped (at draining r n p) h e = absurd (cc e)
already_stopped {enabled} (at stopped r n p) h e =
    subst (λ x. Moves enabled (at stopped r n p) (at stopped x n p))
      (sym (stopped-end_of enabled r h)) (here _)

-- Where the pulls can come to an end, so can the server that has left its `select`.
module _ (enabled : Bool) (p q : System) (run : Reach p q) (idle : IsIdle q) where
  from_draining : (r : Routine) (n : ℕ) → Moves enabled (at draining r n p) (at stopped r n q)
  from_draining r n = pull_all draining r n run (first_step _ _ _ (wait_pulls r n q idle) (here _))

  from_draining_legal :
      (r : Routine) (n : ℕ)
      → is_legal enabled draining r ≡ true
      → Moves enabled (at draining r n p) (at stopped (end_of r) n q)
  from_draining_legal r n h =
      subst (λ x. Moves enabled (at draining r n p) (at stopped x n q))
        (sym (draining-end_of enabled r h)) (from_draining r n)

  from_awaiting : (n : ℕ) → Moves enabled (at awaiting answering n p) (at stopped ended n q)
  from_awaiting n = first_step _ _ _ (pruner_stopped n p) (from_draining ended n)

  from_listening : (n : ℕ) → Moves enabled (at asking listening n p) (at stopped ended n q)
  from_listening n = first_step _ _ _ (stop_pruner n p) (from_awaiting n)

  from_asking :
      (r : Routine) (n : ℕ)
      → is_legal enabled asking r ≡ true
      → Moves enabled (at asking r n p) (at stopped (end_of r) n q)
  from_asking absent n h = absurd (cc h)
  from_asking listening n h = from_listening n
  from_asking pruning n h = first_step _ _ _ (pruned asking n p) (from_listening n)
  from_asking answering n h = absurd (cc h)
  from_asking ended n h = absurd (cc h)

from_after_close :
    (b : Bool) (r : Routine) (n : ℕ) (p q : System)
    → Reach p q
    → IsIdle q
    → is_legal b (after_close b) r ≡ true
    → Moves b (at (after_close b) r n p) (at stopped (end_of r) n q)
from_after_close true r n p q run idle h = from_asking true p q run idle r n h
from_after_close false r n p q run idle h = from_draining_legal false p q run idle r n h

pub can_stop :
    {enabled : Bool} (s : State) (q : System)
    → IsLegal enabled s
    → is_serving (stage s) ≡ false
    → is_stopped (stage s) ≡ false
    → Reach (pulls s) q
    → IsIdle q
    → Moves enabled s (at stopped (end_of (routine s)) (requests s) q)
can_stop (at serving r n p) q h left on run idle = absurd (cc left)
can_stop {enabled} (at closing r n p) q h left on run idle =
    first_step _ _ _ (close r n p)
      (from_after_close enabled r n p q run idle (closing-is_legal enabled r h))
can_stop {enabled} (at asking r n p) q h left on run idle = from_asking enabled p q run idle r n h
can_stop (at awaiting absent n p) q h left on run idle = absurd (cc h)
can_stop (at awaiting listening n p) q h left on run idle = absurd (cc h)
can_stop (at awaiting pruning n p) q h left on run idle = absurd (cc h)
can_stop {enabled} (at awaiting answering n p) q h left on run idle =
    from_awaiting enabled p q run idle n
can_stop (at awaiting ended n p) q h left on run idle = absurd (cc h)
can_stop {enabled} (at draining r n p) q h left on run idle =
    from_draining_legal enabled p q run idle r n h
can_stop (at stopped r n p) q h left on run idle = absurd (cc on)
