-- ===== src/Cache/Waiters/Examples.antt =====
-- The theorems about the pulls in progress at concrete runs: two goroutines that ask for one url.
use ociregistry.Base.{ℕ, ◌≡◌, refl, true, some, [], ◌∷◌, Str, lit, lookup, insert, str_eq, arith}
use ociregistry.Cache.{is_some}
use ociregistry.Cache.Waiters.{
  ready, pulling, waiting, signalling, timed_out, enqueue_pull, set_status, System, Step, enqueue,
  time_out, begin_signal, Reach, here, next_step, start,
}
use ociregistry.Cache.Waiters.SingleFlight.{single_flight}
use ociregistry.Cache.Waiters.Blocked.{IsBlocked, blocked_forever}

abbrev image : Str
image = lit "quay.io/x:v1"

abbrev s0 : System
s0 = start (λ t. image)

-- Goroutine 0 pulls.
abbrev first : System
first = record s0 {
  pulls = (enqueue_pull image s0.pulls).0;
  status = set_status 0 (pulling image) s0.status;
}

first-Step : Step s0 first
unfolding enqueue_pull lookup
first-Step = enqueue 0 image refl refl refl

single_flight_example : (◌≡◌ {A = ℕ} 0 0) × (is_some (lookup image first.pulls.waiters) ≡ true)
single_flight_example =
    single_flight (λ t. image) first 0 0 image (next_step here first-Step) refl refl

-- Goroutine 1 waits on channel 0, and its time runs out; then goroutine 0 begins to signal.
abbrev stuck : System
stuck = record {
  pulls = record { waiters = (image, 0 ∷ []) ∷ []; next = 1 };
  status =
      set_status 0 (signalling image (0 ∷ []))
        (set_status 1 timed_out (set_status 1 (waiting image 0) first.status));
  holder = some 0;
}

stuck-Reach : Reach s0 stuck
unfolding enqueue_pull lookup insert str_eq
stuck-Reach =
    next_step
      (next_step (next_step (next_step here first-Step) (enqueue 1 image refl refl refl))
        (time_out 1 image 0 refl refl))
      (begin_signal 0 image (0 ∷ []) refl refl refl refl)

stuck-IsBlocked : IsBlocked 0 image 0 [] stuck
stuck-IsBlocked = record { held = refl; at = refl; deserted = λ u v h. ground arith }

blocked_forever_example : (stuck.holder ≡ some 0) × (stuck.status 2 ≡ ready image)
blocked_forever_example = blocked_forever 0 image 0 [] 2 image here stuck-IsBlocked refl
