-- ===== src/Table/Laws.antt =====
-- What a read sees after a write.
use hotels_aggregator.Prelude.{
  ◌≡◌, refl, sym, ◌∙◌, ◌≢◌, Bool, false, Option, none, some, List, [], ◌∷◌, inl, inr,
}
use hotels_aggregator.Prelude.Tests.{
  KeyEq, ◌==◌, if◌then◌else◌, Bool-cases, beq_self, beq_eq, beq_ne,
}
use hotels_aggregator.Table.{
  Table, empty, lookup, insert, without, get, put, delete, update_entries, update_where,
}

module _ {ℓ κ} {K : Type ℓ} {V : Type κ} ⦃e : KeyEq K⦄ where
  lookup-insert_self : (k : K) (v : V) (l : List (K × V)) → lookup k (insert k v l) ≡ some v
  lookup-insert_self k v [] = rw (beq_self k)
  lookup-insert_self k v ((j, w) ∷ l) = elim (Bool-cases (j == k)) [
    | inl p ↦ rw p (rw (beq_self k))
    | inr p ↦ rw p (rw p (lookup-insert_self k v l))
  ]

  lookup-insert_ne :
      (j k : K) (v : V) (l : List (K × V)) → k ≢ j → lookup j (insert k v l) ≡ lookup j l
  lookup-insert_ne j k v [] h = rw (beq_ne k j h)
  lookup-insert_ne j k v ((i, w) ∷ l) h = elim (Bool-cases (i == k)) [
    | inl p ↦ rw p (rw (beq_ne k j h) (rw (beq_ne i j (λ q. h (sym (beq_eq i k p) ∙ q)))))
    | inr p ↦
        rw p
          (elim (Bool-cases (i == j)) [ inl q ↦ rw q | inr q ↦ rw q (lookup-insert_ne j k v l h) ])
  ]

  pub get-put_self : (k : K) (v : V) (t : Table K V) → get k (put k v t) ≡ some v
  unfolding get put
  get-put_self k v t = lookup-insert_self k v t.entries

  pub get-put_ne : (j k : K) (v : V) (t : Table K V) → k ≢ j → get j (put k v t) ≡ get j t
  unfolding get put
  get-put_ne j k v t h = lookup-insert_ne j k v t.entries h

  -- Reading after a write, as one equation.
  pub get-put :
      (j k : K) (v : V) (t : Table K V) → get j (put k v t) ≡ (if k == j then some v else get j t)
  get-put j k v t = elim (Bool-cases (k == j)) [
    | inl p ↦ rw p (subst_key (beq_eq k j p))
    | inr p ↦ rw p (get-put_ne j k v t (λ q. ne_of_beq p q))
  ]
    where
      subst_key : k ≡ j → get j (put k v t) ≡ some v
      subst_key q = rw (← q) (get-put_self k v t)

      ne_of_beq : (k == j) ≡ false → k ≡ j → ⊥
      ne_of_beq p q = cc (sym p ∙ (e.equal_iff k j).1 q)

  lookup-without :
      (j k : K) (l : List (K × V)) → lookup j (without k l) ≡ (if k == j then none else lookup j l)
  lookup-without j k [] = elim (Bool-cases (k == j)) [ inl p ↦ rw p | inr p ↦ rw p ]
  lookup-without j k ((i, w) ∷ l) = elim (Bool-cases (i == k)) [
    | inl p ↦ rw p (lookup-without j k l ∙ here (beq_eq i k p))
    | inr p ↦ rw p (elim (Bool-cases (i == j)) [
      | inl q ↦ rw q (rw (beq_ne k j (λ r. other p (beq_eq i j q ∙ sym r))))
      | inr q ↦ rw q (lookup-without j k l)
    ])
  ]
    where
      here :
          i ≡ k
          → (if k == j then none else lookup j l)
            ≡ (if k == j then none else (if i == j then some w else lookup j l))
      here r = elim (Bool-cases (k == j)) [ inl p ↦ rw p | inr p ↦ rw p (rw r (rw p)) ]

      other : (i == k) ≡ false → i ≡ k → ⊥
      other p r = cc (sym p ∙ (e.equal_iff i k).1 r)

  pub get-delete :
      (j k : K) (t : Table K V) → get j (delete k t) ≡ (if k == j then none else get j t)
  unfolding get delete
  get-delete j k t = lookup-without j k t.entries

  pub get-empty : (k : K) → get k (empty {V = V}) ≡ none
  unfolding get
  get-empty k = refl

module _ {κ} {V : Type κ} where
  -- A row as an `update ... where` leaves it.
  abbrev pub updated : (V → Bool) → (V → V) → Option V → Option V
  updated p f none = none
  updated p f (some v) = some (if p v then f v else v)

module _ {ℓ κ} {K : Type ℓ} {V : Type κ} ⦃e : KeyEq K⦄ where
  lookup-update :
      (p : V → Bool) (f : V → V) (k : K) (l : List (K × V))
      → lookup k (update_entries p f l) ≡ updated p f (lookup k l)
  lookup-update p f k [] = refl
  lookup-update p f k ((j, v) ∷ l) = elim (Bool-cases (j == k)) [
    | inl q ↦ rw q
    | inr q ↦ rw q (lookup-update p f k l)
  ]

  pub get-update_where :
      (p : V → Bool) (f : V → V) (k : K) (t : Table K V)
      → get k (update_where p f t) ≡ updated p f (get k t)
  unfolding get update_where
  get-update_where p f k t = lookup-update p f k t.entries
