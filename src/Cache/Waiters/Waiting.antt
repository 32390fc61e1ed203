-- ===== src/Cache/Waiters/Waiting.antt =====
-- WaitPulls of impl/cache/cache.go, with which the server ends.
use ociregistry.Base.{
  ℕ, zero, suc, ◌+◌, ◌≤◌, ◌<◌, ◌≢◌, ◌≡◌, refl, ap, inl, inr, Bool, true, false, Bool-cases, Option,
  none, some, ◌==◌, if◌then◌else◌, arith,
}
use ociregistry.Cache.Waiters.{Pulls, pulls_in_progress}

-- What WaitPulls meets: the pulls at each of its polls, and whether a minute has passed by then.
pub record Polls : Type 0 where
  pub at : ℕ → Pulls
  pub late : ℕ → Bool

abbrev pub is_idle : Polls → ℕ → Bool
is_idle p k = pulls_in_progress (p.at k) == 0

-- The loop, from poll `k` on: how often it logs the timeout, or none where `fuel` polls do not end it.
unfoldable pub wait_loop : ℕ → Polls → ℕ → Option ℕ
wait_loop zero p k = none
wait_loop (suc fuel) p k =
    let rest = wait_loop fuel p (suc k) in
    if is_idle p k
    then some 0
    else elim rest [ none ↦ none | some n ↦ some (if p.late k then suc n else n) ]

-- WaitPulls
unfoldable pub wait_pulls : ℕ → Polls → Option ℕ
wait_pulls fuel p = if is_idle p 0 then some 0 else wait_loop fuel p 1

wait_loop-idle :
    (fuel j k : ℕ) (p : Polls)
    → k ≤ j
    → j < k + fuel
    → is_idle p j ≡ true
    → (n : ℕ) × (wait_loop fuel p k ≡ some n)
unfolding wait_loop
wait_loop-idle zero j k p le lt h = absurd (omega arith)
wait_loop-idle (suc fuel) j k p le lt h = elim (Bool-cases (is_idle p k)) [
  | inl e ↦ (0, rw (wait_loop, e) refl)
  | inr e ↦
      let other : k ≢ j = λ q. absurd (cc (e, ap (is_idle p) q, h)) in
      let (n, found) = wait_loop-idle fuel j (suc k) p (omega arith) (omega arith) h in
      ((if p.late k then suc n else n), rw (wait_loop, e, found) refl)
]

wait_loop-busy :
    (fuel k : ℕ) (p : Polls) → ((j : ℕ) → is_idle p j ≡ false) → wait_loop fuel p k ≡ none
unfolding wait_loop
wait_loop-busy zero k p h = refl
wait_loop-busy (suc fuel) k p h = rw (wait_loop, h k, wait_loop-busy fuel (suc k) p h) refl

wait_pulls-idle :
    (p : Polls) (j : ℕ) → is_idle p j ≡ true → (n : ℕ) × (wait_pulls (suc j) p ≡ some n)
unfolding wait_pulls
wait_pulls-idle p j h = elim (Bool-cases (is_idle p 0)) [
  | inl e ↦ (0, rw (wait_pulls, e) refl)
  | inr e ↦
      let other : 0 ≢ j = λ q. absurd (cc (e, ap (is_idle p) q, h)) in
      let (n, found) = wait_loop-idle (suc j) j 1 p (omega arith) (omega arith) h in
      (n, rw (wait_pulls, e, found) refl)
]

wait_pulls-busy :
    (p : Polls) (fuel : ℕ) → ((j : ℕ) → is_idle p j ≡ false) → wait_pulls fuel p ≡ none
unfolding wait_pulls
wait_pulls-busy p fuel h = rw (wait_pulls, h 0) (wait_loop-busy fuel 1 p h)

-- WaitPulls ends, with no more than a poll more than it takes until no pull is in progress; and where a pull
-- is in progress at every poll it never ends, whether or not the minute has passed after which it logs a
-- timeout.
pub wait_pulls_lem :
    (idle busy : Polls) (j fuel : ℕ)
    → is_idle idle j ≡ true
    → ((k : ℕ) → is_idle busy k ≡ false)
    → ((n : ℕ) × (wait_pulls (suc j) idle ≡ some n)) × (wait_pulls fuel busy ≡ none)
wait_pulls_lem idle busy j fuel h b = (wait_pulls-idle idle j h, wait_pulls-busy busy fuel b)
