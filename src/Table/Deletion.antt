-- ===== src/Table/Deletion.antt =====
-- What a `delete ... where` leaves of a table whose rows stand under their keys.
use hotels_aggregator.Prelude.{
  ◌≡◌, refl, sym, ap, ◌∙◌, Bool, false, Option, none, some, List, [], ◌∷◌, inl, inr, subst,
}
use mathlib.Core.Option.{some-injective}
use hotels_aggregator.Prelude.Tests.{KeyEq, ◌==◌, if◌then◌else◌, Bool-cases, beq_eq}
use hotels_aggregator.Table.{Table, drop_entries, delete_where, lookup, get}
use hotels_aggregator.Table.Keyed.{EntriesKeyed, IsKeyed}

module _ {κ} {V : Type κ} where
  -- A row as a `delete ... where` leaves it.
  abbrev pub surviving : (V → Bool) → Option V → Option V
  surviving p none = none
  surviving p (some v) = if p v then none else some v

module _ {ℓ κ} {K : Type ℓ} {V : Type κ} ⦃e : KeyEq K⦄ where
  lookup-drop :
      (key : V → K) (p : V → Bool) (k : K) (l : List (K × V))
      → EntriesKeyed key l
      → lookup k (drop_entries p l) ≡ surviving p (lookup k l)
  lookup-drop key p k [] h = refl
  lookup-drop key p k ((j, v) ∷ l) h = elim (Bool-cases (p v)) [
    | inl r ↦ elim (Bool-cases (j == k)) [
      | inl q ↦
          rw (r, q, r)
            (lookup-drop key p k l h.2
              ∙ ap (surviving p) (subst (λ x. lookup x l ≡ none) (beq_eq j k q) h.1))
      | inr q ↦ rw (r, q) (lookup-drop key p k l h.2)
    ]
    | inr r ↦ elim (Bool-cases (j == k)) [
      | inl q ↦ rw (r, q, r) refl
      | inr q ↦ rw (r, q) (lookup-drop key p k l h.2)
    ]
  ]

  pub get-delete_where :
      (key : V → K) (p : V → Bool) (k : K) (t : Table K V)
      → IsKeyed key t
      → get k (delete_where p t) ≡ surviving p (get k t)
  unfolding get delete_where
  get-delete_where key p k t h = lookup-drop key p k t.entries h

  -- A row that is left after a `delete ... where` was there, and does not pass.
  pub get-survivor :
      (key : V → K) (p : V → Bool) (k : K) (v : V) (t : Table K V)
      → IsKeyed key t
      → get k (delete_where p t) ≡ some v
      → (get k t ≡ some v) × (p v ≡ false)
  get-survivor key p k v t h q = of_option (get k t) (sym (get-delete_where key p k t h) ∙ q)
    where
      of_option : (o : Option V) → surviving p o ≡ some v → (o ≡ some v) × (p v ≡ false)
      of_option none r = absurd (cc r)
      of_option (some w) r = elim (Bool-cases (p w)) [
        | inl s ↦ absurd (cc (rw s at r))
        | inr s ↦
            let same : w ≡ v = some-injective _ _ (rw s at r) in
            (ap some same, subst (λ x. p x ≡ false) same s)
      ]

  drop-keyed :
      (key : V → K) (p : V → Bool) (l : List (K × V))
      → EntriesKeyed key l
      → EntriesKeyed key (drop_entries p l)
  drop-keyed key p [] h = tt
  drop-keyed key p ((j, v) ∷ l) h = elim (Bool-cases (p v)) [
    | inl r ↦ rw r (drop-keyed key p l h.2)
    | inr r ↦ rw r (h.0, lookup-drop key p j l h.2 ∙ ap (surviving p) h.1, drop-keyed key p l h.2)
  ]

  pub delete_where-IsKeyed :
      (key : V → K) (p : V → Bool) (t : Table K V) → IsKeyed key t → IsKeyed key (delete_where p t)
  unfolding delete_where
  delete_where-IsKeyed key p t h = drop-keyed key p t.entries h
