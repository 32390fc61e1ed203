-- ===== src/Subcmd/Serve/Shutdown.antt =====
-- cmd/subcmd/serve.go from its `select` on, with the goroutine of RunPruner in impl/cache/prune.go and the
-- handler CmdStop of impl/cmd_handlers.go. Their channels are unbuffered, so a send and its receive are one
-- step. e.Server.Shutdown returns, after 30 seconds at the latest. The pulls are those of Cache/Waiters, with
-- their lock; WaitPulls returns at a poll that gets the lock and finds no pull in progress.
pub mod Legal
pub mod Pulls
pub mod Outcome
use ociregistry.Base.{ℕ, suc, ◌≡◌, Bool, true, false, none, some, Str}
use ociregistry.Cache.Waiters
use ociregistry.Cache.Waiters.{System, Step, pulls_in_progress}
use ociregistry.Subcmd.Serve.{Started}

-- Where Serve stands: in its `select`, in Shutdown, before its send to the pruner, before the pruner's answer,
-- in WaitPulls, or past its return.
pub data Stage : Type 0 where
  serving : Stage
  closing : Stage
  asking : Stage
  awaiting : Stage
  draining : Stage
  stopped : Stage

-- Where the goroutine of the pruner stands: not started, in its `select`, in doPrune, before its send on
-- stoppedChan, or past its return.
pub data Routine : Type 0 where
  absent : Routine
  listening : Routine
  pruning : Routine
  answering : Routine
  ended : Routine

-- `requests` counts the calls of CmdStop that have not sent; `pulls` are the goroutines that pull, with the
-- lock of the pulls in progress.
pub data State : Type 0 where
  at : Stage → Routine → (requests : ℕ) → (pulls : System) → State

abbrev pub stage : State → Stage
stage (at s r n p) = s

abbrev pub routine : State → Routine
routine (at s r n p) = r

abbrev pub requests : State → ℕ
requests (at s r n p) = n

abbrev pub pulls : State → System
pulls (at s r n p) = p

-- A poll of WaitPulls would find the lock free and no pull in progress.
abbrev pub IsIdle : System → Type 0
IsIdle p = (p.holder ≡ none) × (pulls_in_progress p.pulls ≡ 0)

-- What follows Shutdown.
abbrev pub after_close : Bool → Stage
after_close true = asking
after_close false = draining

-- `enabled` is the setting of the pruner.
pub data Move (enabled : Bool) : State → State → Type 0 where
  cmd_stop :
      (s : Stage) (r : Routine) (n : ℕ) (p : System) → Move enabled (at s r n p) (at s r (suc n) p)
  signal : (r : Routine) (n : ℕ) (p : System) → Move enabled (at serving r n p) (at closing r n p)
  receive :
      (r : Routine) (n : ℕ) (p : System) → Move enabled (at serving r (suc n) p) (at closing r n p)
  close :
      (r : Routine) (n : ℕ) (p : System)
      → Move enabled (at closing r n p) (at (after_close enabled) r n p)
  stop_pruner :
      (n : ℕ) (p : System) → Move enabled (at asking listening n p) (at awaiting answering n p)
  pruner_stopped :
      (n : ℕ) (p : System) → Move enabled (at awaiting answering n p) (at draining ended n p)
  prune : (s : Stage) (n : ℕ) (p : System) → Move enabled (at s listening n p) (at s pruning n p)
  pruned : (s : Stage) (n : ℕ) (p : System) → Move enabled (at s pruning n p) (at s listening n p)
  pull :
      (s : Stage) (r : Routine) (n : ℕ) (p p' : System)
      → Step p p'
      → Move enabled (at s r n p) (at s r n p')
  wait_pulls :
      (r : Routine) (n : ℕ) (p : System)
      → IsIdle p
      → Move enabled (at draining r n p) (at stopped r n p)

pub data Moves (enabled : Bool) : State → State → Type 0 where
  here : (s : State) → Moves enabled s s
  first_step : (s s' s'' : State) → Move enabled s s' → Moves enabled s' s'' → Moves enabled s s''

-- The server at its `select`, with the goroutine that RunPruner starts, and no pull in progress; `urls` are
-- those that the goroutines will ask for.
abbrev pub begin : Started → (ℕ → Str) → State
begin server urls =
    at serving (elim server.pruner [ none ↦ absent | some _ ↦ listening ]) 0 (Waiters.start urls)
