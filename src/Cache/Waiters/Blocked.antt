-- ===== src/Cache/Waiters/Blocked.antt =====
-- signalWaiters of impl/cache/cache.go, where a waiter has timed out. A goroutine whose `select` took the
-- timeout no longer receives, and its channel stays in the entry of the url.
use ociregistry.Base.{ℕ, ◌≡◌, ◌≢◌, sym, subst, some, List, ◌∷◌, arith, Str}
use ociregistry.Cache.Waiters.{
  ready, waiting, signalling, System, Step, enqueue, time_out, begin_signal, send, end_signal,
  Reach, here, next_step,
}

-- Goroutine `t` holds the lock and is to send on `ch`, and nobody receives on it.
pub record IsBlocked (t : ℕ) (url : Str) (ch : ℕ) (chans : List ℕ) (s : System) : Type 0 where
  pub held : s.holder ≡ some t
  pub at : s.status t ≡ signalling url (ch ∷ chans)
  pub deserted : (u : ℕ) (v : Str) → s.status u ≢ waiting v ch

Step-IsBlocked :
    {s s' : System} (t : ℕ) (url : Str) (ch : ℕ) (chans : List ℕ)
    → Step s s'
    → IsBlocked t url ch chans s
    → IsBlocked t url ch chans s'
Step-IsBlocked t url ch chans (enqueue u v free at e) b = absurd (cc (free, b.held))
Step-IsBlocked {s} t url ch chans (time_out u v c at e) b =
    subst (IsBlocked t url ch chans) (sym e) (record {
      held = b.held;
      at = ground (arith, b.at, at);
      deserted = λ w x. ground (arith, b.deserted w x);
    })
Step-IsBlocked t url ch chans (begin_signal u v cs free at found e) b = absurd (cc (free, b.held))
Step-IsBlocked t url ch chans (send u w v v' x cs held at rcv e) b =
    absurd (ground (arith, b.held, b.at, b.deserted w v'))
Step-IsBlocked t url ch chans (end_signal u v held at e) b = absurd (ground (arith, b.held, b.at))

-- Who has not asked for a url cannot do so while the lock is held.
Step-ready :
    {s s' : System} (t : ℕ) (url : Str) (ch : ℕ) (chans : List ℕ) (u : ℕ) (v : Str)
    → Step s s'
    → IsBlocked t url ch chans s
    → s.status u ≡ ready v
    → s'.status u ≡ ready v
Step-ready t url ch chans u v (enqueue w x free at e) b r = absurd (cc (free, b.held))
Step-ready t url ch chans u v (time_out w x c at e) b r = ground arith
Step-ready t url ch chans u v (begin_signal w x cs free at found e) b r = absurd (cc (free, b.held))
Step-ready t url ch chans u v (send w w' x x' c cs held at rcv e) b r = ground arith
Step-ready t url ch chans u v (end_signal w x held at e) b r = ground arith

Reach-IsBlocked :
    {s s' : System} (t : ℕ) (url : Str) (ch : ℕ) (chans : List ℕ)
    → Reach s s'
    → IsBlocked t url ch chans s
    → IsBlocked t url ch chans s'
Reach-IsBlocked t url ch chans here b = b
Reach-IsBlocked t url ch chans (next_step r st) b =
    Step-IsBlocked t url ch chans st (Reach-IsBlocked t url ch chans r b)

-- From a state in which signalWaiters is to send on a channel whose receiver has timed out, no
-- interleaving releases the lock, and no goroutine that has yet to ask for a url, whichever url that
-- is, ever gets to ask for it.
pub blocked_forever :
    {s s' : System} (t : ℕ) (url : Str) (ch : ℕ) (chans : List ℕ) (u : ℕ) (v : Str)
    → Reach s s'
    → IsBlocked t url ch chans s
    → s.status u ≡ ready v
    → (s'.holder ≡ some t) × (s'.status u ≡ ready v)
blocked_forever t url ch chans u v here b r = (b.held, r)
blocked_forever t url ch chans u v (next_step p st) b r =
    let b' = Reach-IsBlocked t url ch chans p b in
    (
      (Step-IsBlocked t url ch chans st b').held,
      Step-ready t url ch chans u v st b' (blocked_forever t url ch chans u v p b r).1,
    )
