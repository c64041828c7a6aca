-- ===== src/Routes/Travelers/Taken.antt =====
-- app/api/routes/travelers.py: an email that an account has already.
use hotels_aggregator.Prelude.{
  ℕ, String, Bool, true, false, ◌≡◌, ◌≢◌, refl, Option, none, some, List, [], ◌∷◌, inl, inr,
}
use hotels_aggregator.Prelude.Tests.{nat_eq, string_eq, Bool-cases, Option-cases, beq_self, beq_ne}
use hotels_aggregator.Prelude.Lists.{first, any_of}
use hotels_aggregator.Table.{Table, get, rows, scalar, exists}
use hotels_aggregator.Table.Keyed.{get-none_passes}
use hotels_aggregator.Models.Hotels.{TravelerAccount}
use hotels_aggregator.Outside.{Outside}
use hotels_aggregator.Exec.{World, Exec, ok, raised, ◌>>=◌}
use hotels_aggregator.Schemas.Travelers.{TravelerRegister, TravelerUpdate}
use hotels_aggregator.Security.Deps.{http_error, get_current_traveler}
use hotels_aggregator.Security.Frozen.{get_current_traveler-Frozen}
use hotels_aggregator.Routes.Common.{assigned}
use hotels_aggregator.Routes.Travelers.{
  has_email, register, register_new, update_me, update_traveler, update_unless, is_new_email,
}

first-none : {A : Type 0} (p : A → Bool) (l : List A) → first p l ≡ none → any_of p l ≡ false
first-none p [] h = refl
first-none p (a ∷ l) h = elim (Bool-cases (p a)) [
  | inl e ↦ absurd (cc (rw e at h))
  | inr e ↦ rw e (first-none p l (rw e at h))
]

-- A row that passes is enough for some row to be found.
scalar-found :
    (p : TravelerAccount → Bool) (t : Table ℕ TravelerAccount) (k : ℕ) (v : TravelerAccount)
    → get k t ≡ some v
    → p v ≡ true
    → (u : TravelerAccount) × (scalar p t ≡ some u)
unfolding scalar exists
scalar-found p t k v found passes = elim (Option-cases (scalar p t)) [
  | inr (u, e) ↦ (u, e)
  | inl e ↦ absurd (cc (get-none_passes p t k v (first-none p (rows t) e) found, passes))
]

-- The answer 409, and both states of the database as they were.
pub record Conflicts {S A : Type 0} (m : Exec S A) (w : World S) : Type 0 where
  pub answer : (m w).0 ≡ raised (http_error 409 "Email already registered")
  pub same_db : (m w).1.db ≡ w.db
  pub same_durable : (m w).1.durable ≡ w.durable

module _ (O : Outside) (jwt_expiry_minutes : ℕ) where
  open O use {State}

  email_found :
      (email : String) (k : ℕ) (other : TravelerAccount) (t : Table ℕ TravelerAccount)
      → get k t ≡ some other
      → email ≡ other.email
      → (u : TravelerAccount) × (scalar (has_email email) t ≡ some u)
  email_found email k other t found same =
      scalar-found (has_email email) t k other found (rw same (beq_self other.email))

  register-Conflicts :
      (p : TravelerRegister) (k : ℕ) (other : TravelerAccount) (w : World State)
      → get k w.db.travelers ≡ some other
      → p.email ≡ other.email
      → Conflicts (register O jwt_expiry_minutes p) w
  unfolding register register_new ◌>>=◌
  register-Conflicts p k other w found same =
      let (u, e) = email_found p.email k other w.db.travelers found same in
      record { answer = rw e refl; same_db = rw e refl; same_durable = rw e refl }

  update_traveler-Conflicts :
      (q : TravelerUpdate) (k : ℕ) (me other : TravelerAccount) (v : World State)
      → get k v.db.travelers ≡ some other
      → q.email ≡ some other.email
      → other.email ≢ me.email
      → update_traveler O jwt_expiry_minutes q me v
        ≡ (raised (http_error 409 "Email already registered"), v)
  unfolding update_traveler update_unless is_new_email assigned ◌>>=◌
  update_traveler-Conflicts q k me other v found asks differs =
      let (u, e) = email_found other.email k other v.db.travelers found refl in
      rw (asks, beq_ne other.email me.email differs, e) refl

  -- While an account has an email: a request to register with it, and a request of a traveler who
  -- is logged in to take it in place of another one, are answered 409, and leave the session's
  -- tables and the committed ones as they were.
  pub taken_email-Conflicts :
      (p : TravelerRegister) (q : TravelerUpdate) (credentials : Option String) (k : ℕ)
      (me other : TravelerAccount) (w : World State)
      → get k w.db.travelers ≡ some other
      → p.email ≡ other.email
      → q.email ≡ some other.email
      → other.email ≢ me.email
      → (get_current_traveler O credentials w).0 ≡ ok me
      → Conflicts (register O jwt_expiry_minutes p) w
        × Conflicts (update_me O jwt_expiry_minutes q credentials) w
  unfolding update_me ◌>>=◌
  taken_email-Conflicts p q credentials k me other w found same asks differs auth =
      let same_tables = (get_current_traveler-Frozen O credentials).at w in
      let refused =
        update_traveler-Conflicts q k me other (get_current_traveler O credentials w).1
          (rw same_tables.same_db found) asks differs in
      (
        register-Conflicts p k other w found same,
        record {
          answer = rw (auth, refused) refl;
          same_db = rw (auth, refused) same_tables.same_db;
          same_durable = rw (auth, refused) same_tables.same_durable;
        },
      )
