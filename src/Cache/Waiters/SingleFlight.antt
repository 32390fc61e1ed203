-- ===== src/Cache/Waiters/SingleFlight.antt =====
-- enqueuePull of impl/cache/cache.go, under every interleaving of the goroutines that call it.
use ociregistry.Base.{
  ℕ, ◌≡◌, sym, subst, inl, inr, Option-cases, ◌||◌, Bool, true, false, Option, none, some, [], ◌∷◌,
  ◌++◌, arith, Str, lookup, delete, lookup-insert, lookup-delete, str_eq, str_eq_iff, if◌then◌else◌,
}
use ociregistry.Cache.{is_some}
use ociregistry.Cache.Waiters.{
  Pulls, enqueue_pull, Status, ready, pulling, signalling, finished, timed_out, System, set_status,
  after_enqueue, Step, enqueue, time_out, begin_signal, send, end_signal, Reach, here, next_step,
  start,
}

-- The url that a goroutine pulls, up to the end of its signalling.
abbrev pub pulled_url : Status → Option Str
pulled_url (pulling url) = some url
pulled_url (signalling url chans) = some url
pulled_url _ = none

abbrev has_entry : Str → Pulls → Bool
has_entry url p = elim (lookup url p.waiters) [ some chans ↦ true | none ↦ false ]

pub record IsExclusive (s : System) : Type 0 where
  pub entered :
      (t : ℕ) (url : Str) → pulled_url (s.status t) ≡ some url → has_entry url s.pulls ≡ true
  pub alone :
      (t u : ℕ) (url : Str)
      → pulled_url (s.status t) ≡ some url
      → pulled_url (s.status u) ≡ some url
      → t ≡ u

-- A goroutine may give up its url, or go on to another status with it.
update-IsExclusive :
    (s : System) (t : ℕ) (st : Status) (h : Option ℕ)
    → ((v : Str) → pulled_url st ≡ some v → pulled_url (s.status t) ≡ some v)
    → IsExclusive s
    → IsExclusive (record s { status = set_status t st s.status; holder = h })
update-IsExclusive s t st h kept x = record {
  entered = λ u v e. ground (arith, x.entered u v, kept v);
  alone = λ u w v e f. ground (arith, x.alone u w v, kept v);
}

has_entry-enqueue :
    (url v : Str) (p : Pulls) → has_entry v (enqueue_pull url p).0 ≡ (str_eq url v || has_entry v p)
unfolding enqueue_pull
has_entry-enqueue url v p = elim (Option-cases (lookup url p.waiters)) [
  | inl e ↦ ground (arith, e, lookup-insert url v [] p.waiters)
  | inr (chans, e) ↦ ground (arith, e, lookup-insert url v (chans ++ p.next ∷ []) p.waiters)
]

pulled_url-enqueue :
    (url : Str) (p : Pulls)
    → pulled_url (after_enqueue url (enqueue_pull url p).1)
      ≡ (if has_entry url p then none else some url)
unfolding enqueue_pull
pulled_url-enqueue url p = ground arith

enqueue-IsExclusive :
    (s : System) (t : ℕ) (url : Str)
    → s.status t ≡ ready url
    → IsExclusive s
    → IsExclusive (record s {
      pulls = (enqueue_pull url s.pulls).0;
      status = set_status t (after_enqueue url (enqueue_pull url s.pulls).1) s.status;
    })
enqueue-IsExclusive s t url at x = record {
  entered = λ u v e. ground (
    arith,
    has_entry-enqueue url v s.pulls,
    pulled_url-enqueue url s.pulls,
    str_eq_iff url v,
    x.entered u v,
  );
  alone = λ u w v e f.
      ground (arith, pulled_url-enqueue url s.pulls, x.alone u w v, x.entered u v, x.entered w v);
}

end_signal-IsExclusive :
    (s : System) (t : ℕ) (url : Str)
    → s.status t ≡ signalling url []
    → IsExclusive s
    → IsExclusive (record s {
      pulls = record s.pulls { waiters = delete url s.pulls.waiters };
      status = set_status t finished s.status;
      holder = none;
    })
end_signal-IsExclusive s t url at x = record {
  entered = λ u v e.
      ground (
        arith,
        x.entered u v,
        x.alone u t v,
        lookup-delete url v s.pulls.waiters,
        str_eq_iff url v,
      );
  alone = λ u w v e f. ground (arith, x.alone u w v);
}

Step-IsExclusive : {s s' : System} → Step s s' → IsExclusive s → IsExclusive s'
Step-IsExclusive {s} (enqueue t url free at e) x =
    subst IsExclusive (sym e) (enqueue-IsExclusive s t url at x)
Step-IsExclusive {s} (time_out t url ch at e) x =
    subst IsExclusive (sym e) (update-IsExclusive s t timed_out s.holder (λ v h. cc) x)
Step-IsExclusive {s} (begin_signal t url chans free at found e) x =
    subst IsExclusive (sym e)
      (update-IsExclusive s t (signalling url chans) (some t) (λ v h. rw at h) x)
Step-IsExclusive {s} (send t u url url' ch chans held at rcv e) x = subst IsExclusive (sym e) (
    update-IsExclusive (record s { status = set_status t (signalling url chans) s.status }) u
      finished s.holder (λ v h. cc)
      (update-IsExclusive s t (signalling url chans) s.holder (λ v h. rw at h) x))
Step-IsExclusive {s} (end_signal t url held at e) x =
    subst IsExclusive (sym e) (end_signal-IsExclusive s t url at x)

Reach-IsExclusive : {s s' : System} → Reach s s' → IsExclusive s → IsExclusive s'
Reach-IsExclusive here x = x
Reach-IsExclusive (next_step r st) x = Step-IsExclusive st (Reach-IsExclusive r x)

-- However the goroutines interleave, two that pull the same url are the same goroutine, and while
-- one pulls it the url has its entry among the pulls in progress.
pub single_flight :
    (urls : ℕ → Str) (s : System) (t u : ℕ) (url : Str)
    → Reach (start urls) s
    → pulled_url (s.status t) ≡ some url
    → pulled_url (s.status u) ≡ some url
    → (t ≡ u) × (is_some (lookup url s.pulls.waiters) ≡ true)
single_flight urls s t u url r e f =
    let x : IsExclusive s =
      Reach-IsExclusive r (record { entered = λ t v h. cc h; alone = λ t u v h k. cc h }) in
    (x.alone t u url e f, ground (arith, x.entered t url e))
