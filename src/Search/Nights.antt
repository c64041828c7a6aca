-- ===== src/Search/Nights.antt =====
-- As many different dates of a stay as it has nights are all its dates.
use hotels_aggregator.Prelude.{
  ℕ, zero, suc, ◌+◌, ◌≤◌, ◌<◌, ◌≡◌, ◌≢◌, refl, arith, String, true, false, List, [], ◌∷◌, inl, inr,
}
use hotels_aggregator.Prelude.Tests.{
  ◌==◌, string_eq, Bool-cases, beq_eq, beq_self, beq_ne, if◌then◌else◌,
}
use hotels_aggregator.Prelude.Lists.{All, length}
use hotels_aggregator.Search.Groups.{has_date}
use hotels_aggregator.Search.Grouped.{Distinct}

-- Without the first occurrence.
abbrev remove_date : String → List String → List String
remove_date x [] = []
remove_date x (y ∷ ys) = if y == x then ys else y ∷ remove_date x ys

length-remove_date :
    (x : String) (ys : List String)
    → has_date x ys ≡ true
    → length ys ≡ suc (length (remove_date x ys))
length-remove_date x [] h = absurd (cc h)
length-remove_date x (y ∷ ys) h = elim (Bool-cases (y == x)) [
  | inl e ↦ rw e refl
  | inr e ↦ let ih = length-remove_date x ys (rw e at h) in rw e (omega (arith, ih))
]

has_date-remove_date :
    (x z : String) (ys : List String)
    → (x == z) ≡ false
    → has_date z ys ≡ true
    → has_date z (remove_date x ys) ≡ true
has_date-remove_date x z [] n h = absurd (cc h)
has_date-remove_date x z (y ∷ ys) n h = elim (Bool-cases (y == x)) [
  | inl e ↦ let same : (y == z) ≡ false = rw (beq_eq y x e) n in rw e (rw same at h)
  | inr e ↦ elim (Bool-cases (y == z)) [
    | inl f ↦ rw (e, f) refl
    | inr f ↦ rw (e, f) (has_date-remove_date x z ys n (rw f at h))
  ]
]

-- The dates that are not the one removed stay.
still_there :
    (x : String) (ys xs : List String)
    → has_date x xs ≡ false
    → All (λ d. has_date d ys ≡ true) xs
    → All (λ d. has_date d (remove_date x ys) ≡ true) xs
still_there x ys [] n h = tt
still_there x ys (z ∷ xs) n h = elim (Bool-cases (z == x)) [
  | inl e ↦ absurd (cc (rw e at n))
  | inr e ↦ (has_date-remove_date x z ys (beq_false z x e) h.0, still_there x ys xs (rw e at n) h.1)
]
  where
    beq_false : (a b : String) → (a == b) ≡ false → (b == a) ≡ false
    beq_false a b q = beq_ne b a (λ p. cc (beq_self a, p, q))

pub has_every_date :
    (xs ys : List String)
    → Distinct xs
    → All (λ d. has_date d ys ≡ true) xs
    → length ys ≤ length xs
    → (y : String) → has_date y ys ≡ true
    → has_date y xs ≡ true
has_every_date [] [] d h l y m = m
has_every_date [] (z ∷ ys) d h l y m = absurd (omega arith)
has_every_date (x ∷ xs) ys d h l y m = elim (Bool-cases (x == y)) [
  | inl e ↦ rw e refl
  | inr e ↦ rw e (
      has_every_date xs (remove_date x ys) d.1 (still_there x ys xs d.0 h.1)
        (omega (arith, length-remove_date x ys h.0)) y (has_date-remove_date x y ys e m))
]

-- The dates of the nights from a day on, as texts.
abbrev pub night_texts : (ℕ → String) → (day nights : ℕ) → List String
night_texts date_text day zero = []
night_texts date_text day (suc nights) = date_text day ∷ night_texts date_text (suc day) nights

pub length-night_texts :
    (date_text : ℕ → String) (day nights : ℕ) → length (night_texts date_text day nights) ≡ nights
length-night_texts date_text day zero = refl
length-night_texts date_text day (suc nights) =
    omega (arith, length-night_texts date_text (suc day) nights)

pub has_date-night_texts :
    (date_text : ℕ → String) (day nights n : ℕ)
    → day ≤ n
    → n < day + nights
    → has_date (date_text n) (night_texts date_text day nights) ≡ true
has_date-night_texts date_text day zero n l h = absurd (omega arith)
has_date-night_texts date_text day (suc nights) n l h =
    elim (Bool-cases (date_text day == date_text n)) [
      | inl e ↦ rw e refl
      | inr e ↦ rw e (
          has_date-night_texts date_text (suc day) nights n
            (later (λ p. cc (beq_self (date_text n), p, e))) (omega arith))
    ]
  where
    later : day ≢ n → suc day ≤ n
    later f = ground arith
