-- ===== src/Subcmd/Serve/Shutdown/Legal.antt =====
-- cmd/subcmd/serve.go: where the goroutine of the pruner can stand while the server stops.
use ociregistry.Base.{◌≡◌, refl, Bool, true, false, not, ◌&&◌}
use ociregistry.Subcmd.Serve.Shutdown.{
  Stage, serving, closing, asking, awaiting, draining, stopped, Routine, absent, listening, pruning,
  answering, ended, State, stage, routine, after_close, Move, cmd_stop, signal, receive, close,
  stop_pruner, pruner_stopped, prune, pruned, pull, wait_pulls, Moves, here, first_step,
}

-- Before the pruner has been told to stop, before its answer, and past it.
abbrev is_early : Stage → Bool
is_early serving = true
is_early closing = true
is_early asking = true
is_early _ = false

abbrev is_awaiting : Stage → Bool
is_awaiting awaiting = true
is_awaiting _ = false

abbrev pub is_late : Stage → Bool
is_late draining = true
is_late stopped = true
is_late _ = false

abbrev is_asking : Stage → Bool
is_asking asking = true
is_asking _ = false

abbrev pub can_prune : Routine → Bool
can_prune listening = true
can_prune pruning = true
can_prune _ = false

-- Which routine stands where Serve is.
abbrev pub is_legal : Bool → Stage → Routine → Bool
is_legal enabled s absent = not (is_asking s) && not (is_awaiting s) && not enabled
is_legal enabled s listening = is_early s && enabled
is_legal enabled s pruning = is_early s && enabled
is_legal enabled s answering = is_awaiting s && enabled
is_legal enabled s ended = is_late s && enabled

abbrev pub IsLegal : Bool → State → Type 0
IsLegal enabled s = is_legal enabled (stage s) (routine s) ≡ true

leaving-is_legal :
    (enabled : Bool) (r : Routine)
    → is_legal enabled serving r ≡ true
    → is_legal enabled closing r ≡ true
leaving-is_legal enabled absent h = h
leaving-is_legal enabled listening h = h
leaving-is_legal enabled pruning h = h
leaving-is_legal enabled answering h = absurd (cc h)
leaving-is_legal enabled ended h = absurd (cc h)

pub closing-is_legal :
    (enabled : Bool) (r : Routine)
    → is_legal enabled closing r ≡ true
    → is_legal enabled (after_close enabled) r ≡ true
closing-is_legal true absent h = absurd (cc h)
closing-is_legal false absent h = refl
closing-is_legal true listening h = refl
closing-is_legal false listening h = absurd (cc h)
closing-is_legal true pruning h = refl
closing-is_legal false pruning h = absurd (cc h)
closing-is_legal enabled answering h = absurd (cc h)
closing-is_legal enabled ended h = absurd (cc h)

draining-is_legal :
    (enabled : Bool) (r : Routine)
    → is_legal enabled draining r ≡ true
    → is_legal enabled stopped r ≡ true
draining-is_legal enabled absent h = h
draining-is_legal enabled listening h = absurd (cc h)
draining-is_legal enabled pruning h = absurd (cc h)
draining-is_legal enabled answering h = absurd (cc h)
draining-is_legal enabled ended h = h

Move-IsLegal :
    {enabled : Bool} {s s' : State} → Move enabled s s' → IsLegal enabled s → IsLegal enabled s'
Move-IsLegal (cmd_stop s r n p) h = h
Move-IsLegal {enabled} (signal r n p) h = leaving-is_legal enabled r h
Move-IsLegal {enabled} (receive r n p) h = leaving-is_legal enabled r h
Move-IsLegal {enabled} (close r n p) h = closing-is_legal enabled r h
Move-IsLegal (stop_pruner n p) h = h
Move-IsLegal (pruner_stopped n p) h = h
Move-IsLegal (prune s n p) h = h
Move-IsLegal (pruned s n p) h = h
Move-IsLegal (pull s r n p p' st) h = h
Move-IsLegal {enabled} (wait_pulls r n p idle) h = draining-is_legal enabled r h

pub Moves-IsLegal :
    {enabled : Bool} {s s' : State} → Moves enabled s s' → IsLegal enabled s → IsLegal enabled s'
Moves-IsLegal (here s) h = h
Moves-IsLegal (first_step s t u st r) h = Moves-IsLegal r (Move-IsLegal st h)

pub late-can_prune :
    (enabled : Bool) (s : Stage) (r : Routine)
    → is_legal enabled s r ≡ true
    → (is_late s && can_prune r) ≡ false
late-can_prune enabled serving r h = refl
late-can_prune enabled closing r h = refl
late-can_prune enabled asking r h = refl
late-can_prune enabled awaiting r h = refl
late-can_prune enabled draining absent h = refl
late-can_prune enabled draining listening h = absurd (cc h)
late-can_prune enabled draining pruning h = absurd (cc h)
late-can_prune enabled draining answering h = refl
late-can_prune enabled draining ended h = refl
late-can_prune enabled stopped absent h = refl
late-can_prune enabled stopped listening h = absurd (cc h)
late-can_prune enabled stopped pruning h = absurd (cc h)
late-can_prune enabled stopped answering h = refl
late-can_prune enabled stopped ended h = refl
