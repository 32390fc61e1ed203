-- ===== src/Subcmd/Serve/Shutdown/Outcome.antt =====
-- cmd/subcmd/serve.go: that a server which has started can stop.
use ociregistry.Base.{
  ℕ, ◌≤◌, ◌≡◌, ◌↔◌, ◌⊎◌, refl, Bool, true, false, Bool-cases, ◌&&◌, Option, none, some, inl, inr,
  ok, Result-cases, Str, lit, is_empty, if◌then◌else◌, arith,
}
use ociregistry.Cache.Criteria.{Pruner, run_pruner, parse_criteria, days2hrs, duration_of}
use ociregistry.Clock.{Clock}
use ociregistry.Config.{Configuration, PruneConfig}
use ociregistry.Serialize.{Files}
use ociregistry.Subcmd.Serve.{World, Started, start_pruner, serve}
use ociregistry.Subcmd.Serve.Outcome.{start-ok, start-serve}
use ociregistry.Subcmd.Serve.Shutdown.{
  serving, Routine, absent, listening, State, stage, routine, requests, pulls, IsIdle, after_close,
  Move, cmd_stop, signal, receive, close, stop_pruner, pruner_stopped, prune, pruned, pull,
  wait_pulls, Moves, here, first_step, begin,
}
use ociregistry.Cache.Waiters.{System, Reach}
use ociregistry.Subcmd.Serve.Shutdown.Pulls.{
  is_serving, is_stopped, end_of, stops-IsIdle, already_stopped, can_stop,
}
use ociregistry.Subcmd.Serve.Shutdown.Legal.{
  is_legal, IsLegal, is_late, can_prune, Moves-IsLegal, late-can_prune,
}

after_close-is_serving : (enabled : Bool) → is_serving (after_close enabled) ≡ false
after_close-is_serving true = refl
after_close-is_serving false = refl

-- Only the `select` of Serve receives from CmdStop.
Move-requests :
    {enabled : Bool} {s s' : State}
    → Move enabled s s'
    → is_serving (stage s) ≡ false
    → (is_serving (stage s') ≡ false) × (requests s ≤ requests s')
Move-requests (cmd_stop s r n p) h = (h, omega arith)
Move-requests (signal r n p) h = absurd (cc h)
Move-requests (receive r n p) h = absurd (cc h)
Move-requests {enabled} (close r n p) h = (after_close-is_serving enabled, omega arith)
Move-requests (stop_pruner n p) h = (refl, omega arith)
Move-requests (pruner_stopped n p) h = (refl, omega arith)
Move-requests (prune s n p) h = (h, omega arith)
Move-requests (pruned s n p) h = (h, omega arith)
Move-requests (pull s r n p p' st) h = (h, omega arith)
Move-requests (wait_pulls r n p idle) h = (refl, omega arith)

Moves-requests :
    {enabled : Bool} {s s' : State}
    → Moves enabled s s'
    → is_serving (stage s) ≡ false
    → requests s ≤ requests s'
Moves-requests (here s) h = omega arith
Moves-requests (first_step s t u st r) h =
    let (left, le) = Move-requests st h in omega (arith, le, Moves-requests r left)

-- RunPruner starts its goroutine exactly where the pruner is enabled.
abbrev routine_of : Option Pruner → Routine
routine_of pruner = elim pruner [ none ↦ absent | some _ ↦ listening ]

run_pruner-is_legal :
    (clock : Clock) (compile : Str → Option (Str → Bool)) (cfg : PruneConfig)
    (pruner : Option Pruner)
    → run_pruner clock compile cfg ≡ ok pruner
    → is_legal cfg.enabled serving (routine_of pruner) ≡ true
unfolding run_pruner
run_pruner-is_legal clock compile cfg none h = elim (Bool-cases cfg.enabled) [
  | inr off ↦ rw off refl
  | inl on ↦ elim (Result-cases (parse_criteria clock compile cfg)) [
    | inr (e, x) ↦ absurd (grind (arith, h, on, x))
    | inl (comparer, x) ↦
        elim (Result-cases (days2hrs (if is_empty cfg.freq then lit "5h" else cfg.freq))) [
          | inr (e, y) ↦ absurd (grind (arith, h, on, x, y))
          | inl (freq, y) ↦ elim (Result-cases (duration_of clock freq)) [
            | inr (e, z) ↦ absurd (grind (arith, h, on, x, y, z))
            | inl (d, z) ↦ absurd (grind (arith, h, on, x, y, z))
          ]
        ]
  ]
]
run_pruner-is_legal clock compile cfg (some p) h = elim (Bool-cases cfg.enabled) [
  | inl on ↦ rw on refl
  | inr off ↦ absurd (grind (arith, h, off))
]

module _ (w : World) (cfg : Configuration) where
  start_pruner-is_legal :
      (pruner : Option Pruner)
      → start_pruner w cfg ≡ ok pruner
      → is_legal cfg.prune_config.enabled serving (routine_of pruner) ≡ true
  unfolding start_pruner
  start_pruner-is_legal pruner h =
      elim (Result-cases (run_pruner w.clock w.compile cfg.prune_config)) [
        | inl (p, e) ↦
            run_pruner-is_legal w.clock w.compile cfg.prune_config pruner (grind (arith, h, e))
        | inr (x, e) ↦ absurd (grind (arith, h, e))
      ]

  can_stop_iff :
      (s : State)
      → IsLegal cfg.prune_config.enabled s
      → is_serving (stage s) ≡ false
      → ((t : State) × Moves cfg.prune_config.enabled s t
          × (is_stopped (stage t) ≡ true)
          × (routine t ≡ end_of (routine s)))
        ↔ ((is_stopped (stage s) ≡ true) ⊎ ((q : System) × Reach (pulls s) q × IsIdle q))
  can_stop_iff s legal left = (
    (λ (t, m, e, _). elim (Bool-cases (is_stopped (stage s))) [
      | inl over ↦ inl over
      | inr on ↦ inr (stops-IsIdle m on e)
    ]),
    λ how. elim (Bool-cases (is_stopped (stage s))) [
      | inl over ↦ (_, already_stopped s legal over, refl, refl)
      | inr on ↦ elim how [
        | inl over ↦ absurd (cc (on, over))
        | inr (q, run, idle) ↦ (_, can_stop s q legal left on run idle, refl, refl)
      ]
    ],
  )

  -- Let Serve start the server, and let stops, prunes and pulls then interleave. Once Serve has left its
  -- `select`, it can come to its return, with the goroutine of the pruner ended if there is one, exactly if
  -- it has returned or the pulls can come to a state in which none is in progress and their lock is free.
  -- From WaitPulls on the goroutine neither prunes nor can begin to; and the number of calls of CmdStop
  -- that wait to send never falls again.
  pub serve-can_stop :
      (urls : ℕ → Str) (files files' : Files) (server : Started) (s s' : State)
      → serve w cfg files ≡ (files', ok server)
      → Moves cfg.prune_config.enabled (begin server urls) s
      → is_serving (stage s) ≡ false
      → Moves cfg.prune_config.enabled s s'
      → (((t : State) × Moves cfg.prune_config.enabled s t
            × (is_stopped (stage t) ≡ true)
            × (routine t ≡ end_of (routine s)))
          ↔ ((is_stopped (stage s) ≡ true) ⊎ ((q : System) × Reach (pulls s) q × IsIdle q)))
        × ((is_late (stage s') && can_prune (routine s')) ≡ false)
        × (requests s ≤ requests s')
  serve-can_stop urls files files' server s s' h r left r' =
      let (_, _, p) = start-ok w cfg files' server (start-serve w cfg files files' server h) in
      let legal = Moves-IsLegal r (start_pruner-is_legal server.pruner p) in
      (
        can_stop_iff s legal left,
        late-can_prune cfg.prune_config.enabled (stage s') (routine s') (Moves-IsLegal r' legal),
        Moves-requests r' left,
      )
