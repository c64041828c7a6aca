-- ===== src/Table/Keyed.antt =====
-- A table whose rows stand under their own primary keys, each key once.
use hotels_aggregator.Prelude.{
  ◌≡◌, refl, sym, ap, ◌∙◌, Bool, true, false, none, some, List, [], ◌∷◌, inl, inr, ◌⊎◌, subst,
}
use mathlib.Core.Bool.{false≢true}
use mathlib.Core.Option.{some-injective}
use hotels_aggregator.Prelude.Tests.{KeyEq, ◌==◌, if◌then◌else◌, Bool-cases, beq_self, beq_eq}
use hotels_aggregator.Prelude.Lists.{first, any_of, keep_if, All}
use hotels_aggregator.Table.{
  Table, values, rows, exists, select, lookup, insert, get, put, scalar, update_entries,
  update_where,
}

module _ {ℓ κ} {K : Type ℓ} {V : Type κ} ⦃e : KeyEq K⦄ where
  abbrev pub EntriesKeyed : (V → K) → List (K × V) → Type (ℓ ⊔ κ)
  EntriesKeyed key [] = Unit
  EntriesKeyed key ((k, v) ∷ l) = (key v ≡ k) × (lookup k l ≡ none) × EntriesKeyed key l

  abbrev pub IsKeyed : (V → K) → Table K V → Type (ℓ ⊔ κ)
  IsKeyed key t = EntriesKeyed key t.entries

  lookup-keyed :
      (key : V → K) (l : List (K × V)) (k : K) (v : V)
      → EntriesKeyed key l
      → lookup k l ≡ some v
      → key v ≡ k
  lookup-keyed key [] k v h p = cc
  lookup-keyed key ((j, w) ∷ l) k v h p = elim (Bool-cases (j == k)) [
    | inl q ↦ subst (λ x. key x ≡ k) (some-injective _ _ (rw q at p)) (h.0 ∙ beq_eq j k q)
    | inr q ↦ lookup-keyed key l k v h.2 (rw q at p)
  ]

  -- The row under a key has that key.
  pub get-keyed :
      (key : V → K) (t : Table K V) (k : K) (v : V) → IsKeyed key t → get k t ≡ some v → key v ≡ k
  unfolding get
  get-keyed key t k v h p = lookup-keyed key t.entries k v h p

  ne_of_fresh :
      (key : V → K) (k : K) (v : V) (l : List (K × V))
      → lookup k l ≡ none
      → lookup (key v) l ≡ some v
      → (k == key v) ≡ false
  ne_of_fresh key k v l n p = elim (Bool-cases (k == key v)) [
    | inl q ↦ absurd (none_some n p (beq_eq k (key v) q))
    | inr q ↦ q
  ]
    where
      none_some : lookup k l ≡ none → lookup (key v) l ≡ some v → k ≡ key v → ⊥
      none_some n' p' e' = cc (n', p', ap (λ x. lookup x l) e')

  first-lookup :
      (key : V → K) (p : V → Bool) (l : List (K × V)) (v : V)
      → EntriesKeyed key l
      → first p (values l) ≡ some v
      → lookup (key v) l ≡ some v
  first-lookup key p [] v h q = cc
  first-lookup key p ((k, w) ∷ l) v h q = elim (Bool-cases (p w)) [
    | inl r ↦ here (some-injective _ _ (rw r at q))
    | inr r ↦
        let rest = first-lookup key p l v h.2 (rw r at q) in
        rw (ne_of_fresh key k v l h.1 rest) rest
  ]
    where
      here : w ≡ v → (if k == key v then some w else lookup (key v) l) ≡ some v
      here s = rw (← s) (rw h.0 (rw (beq_self k)))

  -- A row that a select finds stands under its key.
  pub scalar-get :
      (key : V → K) (p : V → Bool) (t : Table K V) (v : V)
      → IsKeyed key t
      → scalar p t ≡ some v
      → get (key v) t ≡ some v
  unfolding scalar get
  scalar-get key p t v h q = first-lookup key p t.entries v h q

  lookup-insert_other :
      (j k : K) (v : V) (l : List (K × V)) → (k == j) ≡ false → lookup j (insert k v l) ≡ lookup j l
  lookup-insert_other j k v [] h = rw h
  lookup-insert_other j k v ((i, w) ∷ l) h = elim (Bool-cases (i == k)) [
    | inl p ↦ rw p (rw h (rw (beq_eq i k p) (rw h)))
    | inr p ↦
        rw p (elim (Bool-cases (i == j)) [
          | inl q ↦ rw q
          | inr q ↦ rw q (lookup-insert_other j k v l h)
        ])
  ]

  insert-keyed :
      (key : V → K) (v : V) (l : List (K × V))
      → EntriesKeyed key l
      → EntriesKeyed key (insert (key v) v l)
  insert-keyed key v [] h = (refl, refl, tt)
  insert-keyed key v ((j, w) ∷ l) h = elim (Bool-cases (j == key v)) [
    | inl p ↦ rw p (refl, subst (λ x. lookup x l ≡ none) (beq_eq j (key v) p) h.1, h.2)
    | inr p ↦
        rw p (h.0, lookup-insert_other j (key v) v l (swapped p) ∙ h.1, insert-keyed key v l h.2)
  ]
    where
      swapped : (j == key v) ≡ false → (key v == j) ≡ false
      swapped p = elim (Bool-cases (key v == j)) [
        | inl q ↦ absurd (false≢true (sym p ∙ (e.equal_iff j (key v)).1 (sym (beq_eq (key v) j q))))
        | inr q ↦ q
      ]

  -- A row written under its key keeps the table keyed.
  pub put-IsKeyed :
      (key : V → K) (v : V) (t : Table K V) → IsKeyed key t → IsKeyed key (put (key v) v t)
  unfolding put
  put-IsKeyed key v t h = insert-keyed key v t.entries h

  lookup-update_none :
      (p : V → Bool) (f : V → V) (k : K) (l : List (K × V))
      → lookup k l ≡ none
      → lookup k (update_entries p f l) ≡ none
  lookup-update_none p f k [] h = refl
  lookup-update_none p f k ((j, v) ∷ l) h = elim (Bool-cases (j == k)) [
    | inl q ↦ absurd (cc (rw q at h))
    | inr q ↦ rw q (lookup-update_none p f k l (rw q at h))
  ]

  update-keyed :
      (key : V → K) (p : V → Bool) (f : V → V) (l : List (K × V))
      → ((v : V) → key (f v) ≡ key v)
      → EntriesKeyed key l
      → EntriesKeyed key (update_entries p f l)
  update-keyed key p f [] same h = tt
  update-keyed key p f ((j, v) ∷ l) same h =
      (head (Bool-cases (p v)), lookup-update_none p f j l h.1, update-keyed key p f l same h.2)
    where
      head : (p v ≡ true) ⊎ (p v ≡ false) → key (if p v then f v else v) ≡ j
      head (inl q) = rw q (same v ∙ h.0)
      head (inr q) = rw q h.0

  -- So does an update that leaves the keys alone.
  pub update_where-IsKeyed :
      (key : V → K) (p : V → Bool) (f : V → V) (t : Table K V)
      → ((v : V) → key (f v) ≡ key v)
      → IsKeyed key t
      → IsKeyed key (update_where p f t)
  unfolding update_where
  update_where-IsKeyed key p f t same h = update-keyed key p f t.entries same h

  lookup-none_passes :
      (p : V → Bool) (l : List (K × V)) (k : K) (v : V)
      → any_of p (values l) ≡ false
      → lookup k l ≡ some v
      → p v ≡ false
  lookup-none_passes p [] k v h q = cc
  lookup-none_passes p ((j, w) ∷ l) k v h q = elim (Bool-cases (p w)) [
    | inl r ↦ absurd (cc (rw r at h))
    | inr r ↦ elim (Bool-cases (j == k)) [
      | inl e' ↦ subst (λ x. p x ≡ false) (some-injective _ _ (rw e' at q)) r
      | inr e' ↦ lookup-none_passes p l k v (rw r at h) (rw e' at q)
    ]
  ]

  -- Where no row passes, the row under a key does not.
  pub get-none_passes :
      (p : V → Bool) (t : Table K V) (k : K) (v : V)
      → exists p t ≡ false
      → get k t ≡ some v
      → p v ≡ false
  unfolding exists get rows
  get-none_passes p t k v h q = lookup-none_passes p t.entries k v h q

  All-get :
      (key : V → K) (p : V → Bool) (l : List (K × V)) (m : List (K × V))
      → EntriesKeyed key m
      → ((k : K) (v : V) → lookup k m ≡ some v → lookup k l ≡ some v)
      → All (λ v. (w : V) × (lookup (key v) l ≡ some w)) (keep_if p (values m))
  All-get key p l [] h f = tt
  All-get key p l ((k, v) ∷ m) h f =
      let rest = All-get key p l m h.2 (λ j w q. f j w (rw (ne_key j w q) q)) in
      elim (Bool-cases (p v)) [
        | inl e' ↦ rw e' ((v, f (key v) v (rw h.0 (rw (beq_self k) refl))), rest)
        | inr e' ↦ rw e' rest
      ]
    where
      ne_key : (j : K) (w : V) → lookup j m ≡ some w → (k == j) ≡ false
      ne_key j w q = elim (Bool-cases (k == j)) [
        | inl r ↦ absurd (cc (subst (λ x. lookup x m ≡ none) (beq_eq k j r) h.1, q))
        | inr r ↦ r
      ]

  -- Every selected row is the one that stands under its key, or another of that key.
  pub select-All :
      (key : V → K) (p : V → Bool) (t : Table K V)
      → IsKeyed key t
      → All (λ v. (w : V) × (get (key v) t ≡ some w)) (select p t)
  unfolding select get rows
  select-All key p t h = All-get key p t.entries t.entries h (λ k v q. q)
