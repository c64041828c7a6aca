-- ===== src/Security/Sessions.antt =====
-- app/api/deps.py and app/db/session.py: a request that authenticates first, in a session of its
-- own.
use hotels_aggregator.Prelude.{◌≡◌, refl, ◌⊎◌, inl, inr}
use hotels_aggregator.Database.{Database}
use hotels_aggregator.Exec.{World, Result, ok, raised, Exec, continue, in_session, ◌>>=◌}
use hotels_aggregator.Exec.Keeps.{Keeps}
use hotels_aggregator.Exec.Hoare.{Frozen, Pred, Hoare}
use hotels_aggregator.History.{session}

-- Nothing is written yet.
abbrev pub Fresh : Database → Pred
Fresh c d u = (d ≡ c) × (u ≡ c)

-- The world in which a session begins.
abbrev pub start : {S : Type 0} → World S → World S
start w = record w { db = w.durable }

-- What a session commits.
pub session-durable :
    {S A : Type 0} {P : Pred} {Q : Database → Type 0} (m : Exec S A) (w : World S)
    → Hoare P m (λ _ d u. Q u)
    → P w.durable w.durable
    → Q (session m w).durable
unfolding session in_session
session-durable m w h p = h.at (start w) p

module _ {S U : Type 0} (auth : Exec S U) (R : U → Database → Type 0) where
  -- Nothing is committed, or the authentication gives someone and the commits are as `R` allows.
  abbrev pub Admitted : (w v : World S) → Type 0
  Admitted w v =
      (v.durable ≡ w.durable) ⊎ ((who : U) × ((auth (start w)).0 ≡ ok who) × R who v.durable)

  settled :
      {A : Type 0} (k : U → Exec S A) (w v : World S) (r : Result U)
      → ((who : U) → Hoare (Fresh w.durable) (k who) (λ _ d u. R who u))
      → (auth (start w)).0 ≡ r
      → Fresh w.durable v.db v.durable
      → Admitted w (continue r k v).1
  settled k w v (raised e) h same fresh = inl fresh.1
  settled k w v (ok who) h same fresh = inr (who, same, (h who).at v fresh)

  pub authenticated :
      {A : Type 0} (k : U → Exec S A) (w : World S)
      → Keeps Frozen auth
      → ((who : U) → Hoare (Fresh w.durable) (k who) (λ _ d u. R who u))
      → Admitted w (session (auth >>= k) w)
  unfolding session ◌>>=◌
  authenticated k w frozen h =
      let f = frozen.at (start w) in
      settled k w (auth (start w)).1 _ h refl (f.same_db, f.same_durable)
