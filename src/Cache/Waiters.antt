-- ===== src/Cache/Waiters.antt =====
-- The pulls in progress, `cp` of impl/cache/cache.go, and the goroutines that share it: enqueuePull,
-- signalWaiters and the two branches of GetManifest that pull and that wait. A step of the relation is
-- what a goroutine does without giving another the chance to interfere. `cp` is locked for the whole of
-- enqueuePull, so that is one step. signalWaiters keeps the lock over its sends, and a send on an
-- unbuffered channel waits for its receiver, so each send is a step of its own.
pub mod SingleFlight
pub mod Blocked
pub mod Waiting
mod Examples
use ociregistry.Base.{
  ℕ, suc, ◌≡◌, Bool, Option, none, some, List, [], ◌∷◌, ◌++◌, Str, Map, lookup, insert, delete,
  ◌==◌, length, if◌then◌else◌,
}

-- concurrentPulls; a channel is known by a number, and `next` is the next one that `make` returns.
pub record Pulls : Type 0 where
  pub waiters : Map (List ℕ)
  pub next : ℕ

-- enqueuePull: the new state, and the channel to wait on; `none` is the nil channel.
unfoldable pub enqueue_pull : Str → Pulls → Pulls × Option ℕ
enqueue_pull url p = elim (lookup url p.waiters) [
  | some chans ↦ (
    record { waiters = insert url (chans ++ p.next ∷ []) p.waiters; next = suc p.next },
    some p.next,
  )
  | none ↦ (record p { waiters = insert url [] p.waiters }, none)
]

-- pullsInProgress
unfoldable pub pulls_in_progress : Pulls → ℕ
pulls_in_progress p = length p.waiters

-- Where a goroutine stands in GetManifest, after its lookup in the cache has failed: before
-- enqueuePull, in doPull, in the `select` on its channel, in the loop of signalWaiters with the channels
-- that are left, past a signal, or past the timeout.
pub data Status : Type 0 where
  ready : Str → Status
  pulling : Str → Status
  waiting : Str → ℕ → Status
  signalling : Str → List ℕ → Status
  finished : Status
  timed_out : Status

-- `holder` is the goroutine that holds the lock of `cp` between two steps.
pub record System : Type 0 where
  pub pulls : Pulls
  pub status : ℕ → Status
  pub holder : Option ℕ

abbrev pub set_status : ℕ → Status → (ℕ → Status) → ℕ → Status
set_status t st status u = if u == t then st else status u

-- What a goroutine does with the result of enqueuePull.
abbrev pub after_enqueue : Str → Option ℕ → Status
after_enqueue url none = pulling url
after_enqueue url (some ch) = waiting url ch

pub data Step (s s' : System) : Type 0 where
  enqueue :
      (t : ℕ) (url : Str)
      → s.holder ≡ none
      → s.status t ≡ ready url
      → s' ≡ record s {
        pulls = (enqueue_pull url s.pulls).0;
        status = set_status t (after_enqueue url (enqueue_pull url s.pulls).1) s.status;
      }
      → Step s s'
  time_out :
      (t : ℕ) (url : Str) (ch : ℕ)
      → s.status t ≡ waiting url ch
      → s' ≡ record s { status = set_status t timed_out s.status }
      → Step s s'
  begin_signal :
      (t : ℕ) (url : Str) (chans : List ℕ)
      → s.holder ≡ none
      → s.status t ≡ pulling url
      → lookup url s.pulls.waiters ≡ some chans
      → s' ≡ record s { status = set_status t (signalling url chans) s.status; holder = some t }
      → Step s s'
  send :
      (t u : ℕ) (url url' : Str) (ch : ℕ) (chans : List ℕ)
      → s.holder ≡ some t
      → s.status t ≡ signalling url (ch ∷ chans)
      → s.status u ≡ waiting url' ch
      → s'
        ≡ record s { status = set_status u finished (set_status t (signalling url chans) s.status) }
      → Step s s'
  end_signal :
      (t : ℕ) (url : Str)
      → s.holder ≡ some t
      → s.status t ≡ signalling url []
      → s' ≡ record s {
        pulls = record s.pulls { waiters = delete url s.pulls.waiters };
        status = set_status t finished s.status;
        holder = none;
      }
      → Step s s'

pub data Reach (s : System) : System → Type 0 where
  here : Reach s s
  next_step : {s' s'' : System} → Reach s s' → Step s' s'' → Reach s s''

-- The start of the server: nothing is being pulled, and each goroutine has a url to ask for.
abbrev pub start : (ℕ → Str) → System
start urls = record {
  pulls = record { waiters = []; next = 0 };
  status = λ t. ready (urls t);
  holder = none;
}
