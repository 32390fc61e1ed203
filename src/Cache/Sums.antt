-- ===== src/Cache/Sums.antt =====
-- Sums over the entries of a map, and how the map's operations change them.
use ociregistry.Base.{
  ℕ, ◌+◌, ◌≡◌, refl, ap, ◌∙◌, inl, inr, Bool-cases, none, some, false, [], ◌∷◌, arith, Str, str_eq,
  str_eq_iff, Map, lookup, insert, delete, lookup-insert, lookup-delete, IsMap, delete-IsMap,
}

module _ {V : Type 0} where
  pub delete_missing : (k : Str) (m : Map V) → lookup k m ≡ none → delete k m ≡ m
  unfolding delete lookup
  delete_missing k [] h = refl
  delete_missing k ((j, w) ∷ m) h = ground (arith, delete_missing k m)

module _ {V : Type 0} (f : Str → V → ℕ) where
  unfoldable pub sum_map : Map V → ℕ
  sum_map [] = 0
  sum_map ((k, v) ∷ m) = f k v + sum_map m

  pub sum_map-insert_new :
      (k : Str) (v : V) (m : Map V) → lookup k m ≡ none → sum_map (insert k v m) ≡ f k v + sum_map m
  unfolding sum_map insert lookup
  sum_map-insert_new k v [] h = omega arith
  sum_map-insert_new k v ((j, w) ∷ m) h = ground (arith, sum_map-insert_new k v m)

  pub sum_map-delete :
      (k : Str) (v : V) (m : Map V)
      → IsMap m
      → lookup k m ≡ some v
      → sum_map m ≡ f k v + sum_map (delete k m)
  unfolding sum_map delete lookup
  sum_map-delete k v [] u h = ground arith
  sum_map-delete k v ((j, w) ∷ m) u h =
      ground (arith, sum_map-delete k v m u.1, delete_missing k m, str_eq_iff j k)

  -- Entries of weight zero may be put in and taken out.
  pub sum_map-delete_zero :
      (k : Str) (m : Map V)
      → IsMap m
      → ((v : V) → lookup k m ≡ some v → f k v ≡ 0)
      → sum_map (delete k m) ≡ sum_map m
  unfolding sum_map delete lookup
  sum_map-delete_zero k [] u h = refl
  sum_map-delete_zero k ((j, w) ∷ m) u h = elim (Bool-cases (str_eq j k)) [
    | inl e ↦
        let p : j ≡ k = (str_eq_iff j k).0 e in
        rw (e, delete_missing k m (rw p at u.0)) (omega (arith, h w (rw e), ap (λ t. f t w) p))
    | inr e ↦ rw e (omega (arith, sum_map-delete_zero k m u.1 (λ v q. h v (rw e q))))
  ]

  pub sum_map-insert_two :
      (k j : Str) (v : V) (m : Map V)
      → lookup k m ≡ none
      → lookup j m ≡ none
      → str_eq k j ≡ false
      → sum_map (insert j v (insert k v m)) ≡ f k v + f j v + sum_map m
  sum_map-insert_two k j v m hk hj e = omega (
    arith,
    sum_map-insert_new k v m hk,
    sum_map-insert_new j v (insert k v m) (rw (lookup-insert, e) hj),
  )

  pub sum_map-delete_two :
      (k j : Str) (v : V) (m : Map V)
      → IsMap m
      → lookup k m ≡ some v
      → str_eq k j ≡ false
      → ((w : V) → lookup j m ≡ some w → f j w ≡ 0)
      → sum_map m ≡ f k v + sum_map (delete j (delete k m))
  sum_map-delete_two k j v m u hk e zero_weight = omega (
    arith,
    sum_map-delete k v m u hk,
    sum_map-delete_zero j (delete k m) (delete-IsMap k m u)
        (λ w h. zero_weight w (rw (lookup-delete, e) at h)),
  )

  -- Writing an entry of the same weight.
  pub sum_map-insert_same :
      (k : Str) (v w : V) (m : Map V)
      → lookup k m ≡ some w
      → f k v ≡ f k w
      → sum_map (insert k v m) ≡ sum_map m
  unfolding sum_map insert lookup
  sum_map-insert_same k v w [] h e = cc
  sum_map-insert_same k v w ((j, x) ∷ m) h e =
      ground (arith, sum_map-insert_same k v w m, str_eq_iff j k)

  pub sum_map-insert_two_same :
      (k j : Str) (v w : V) (m : Map V)
      → lookup k m ≡ some w
      → lookup j m ≡ some w
      → f k v ≡ f k w
      → f j v ≡ f j w
      → sum_map (insert j v (insert k v m)) ≡ sum_map m
  sum_map-insert_two_same k j v w m hk hj ek ej = elim (Bool-cases (str_eq k j)) [
    | inl e ↦
        sum_map-insert_same j v v (insert k v m) (rw (lookup-insert, e)) refl
        ∙ sum_map-insert_same k v w m hk ek
    | inr e ↦
        sum_map-insert_same j v w (insert k v m) (rw (lookup-insert, e) hj) ej
        ∙ sum_map-insert_same k v w m hk ek
  ]
