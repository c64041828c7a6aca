-- ===== src/Exec/Hoare.antt =====
-- What a coroutine does to the session's tables and to the committed ones, from what held before.
-- A call that leaves both alone may stand anywhere.
use hotels_aggregator.Prelude.{◌≡◌, refl, sym, ◌∙◌, subst, Bool, true, false, Option, none, some}
use hotels_aggregator.Prelude.Tests.{if◌then◌else◌}
use hotels_aggregator.Exceptions.{Exn}
use hotels_aggregator.Database.{Database}
use hotels_aggregator.Exec.{
  Result, ok, raised, World, Exec, pure, throw, reads, calls, some_or, modifies, commit, catch,
  continue, handle, ◌>>=◌,
}
use hotels_aggregator.Exec.Keeps.{IsStable, IgnoresOutside, Keeps}

-- Both states of the database are as they were.
pub record Frozen {S : Type 0} (v w : World S) : Type 0 where
  pub same_db : w.db ≡ v.db
  pub same_durable : w.durable ≡ v.durable

pub Frozen-stable : {S : Type 0} → IsStable (Frozen {S = S})
Frozen-stable = record {
  stays = λ w. record { same_db = refl; same_durable = refl };
  composes = λ u v w f g. record {
    same_db = g.same_db ∙ f.same_db;
    same_durable = g.same_durable ∙ f.same_durable;
  };
}

pub Frozen-ignores : {S : Type 0} → IgnoresOutside (Frozen {S = S})
Frozen-ignores = record { ignores_outside = λ w s. record { same_db = refl; same_durable = refl } }

-- A predicate on the session's state and the committed one.
abbrev pub Pred : Type 1
Pred = Database → Database → Type 0

pub record Hoare {S A : Type 0} (P : Pred) (m : Exec S A) (Q : Result A → Pred) : Type 0 where
  pub at : (w : World S) → P w.db w.durable → Q (m w).0 (m w).1.db (m w).1.durable

module _ {S A : Type 0} {P : Pred} where
  pub Hoare-Frozen : (m : Exec S A) → Keeps Frozen m → Hoare P m (λ _. P)
  Hoare-Frozen m k = record {
    at = λ w h.
        subst (λ d. P d (m w).1.durable) (sym ((k.at w).same_db))
          (subst (λ u. P w.db u) (sym ((k.at w).same_durable)) h);
  }

  pub Hoare-pure :
      (a : A) {Q : Result A → Pred}
      → ((d u : Database) → P d u → Q (ok a) d u)
      → Hoare {S = S} P (pure a) Q
  unfolding pure
  Hoare-pure a f = record { at = λ w h. f w.db w.durable h }

  pub Hoare-throw :
      (e : Exn) {Q : Result A → Pred}
      → ((d u : Database) → P d u → Q (raised e) d u)
      → Hoare {S = S} P (throw e) Q
  unfolding throw
  Hoare-throw e f = record { at = λ w h. f w.db w.durable h }

  pub Hoare-weaken :
      (m : Exec S A) {P' : Pred} {Q' Q : Result A → Pred}
      → ((d u : Database) → P d u → P' d u)
      → Hoare P' m Q'
      → ((r : Result A) (d u : Database) → Q' r d u → Q r d u)
      → Hoare P m Q
  Hoare-weaken m pre h post = record {
    at = λ w p. post (m w).0 (m w).1.db (m w).1.durable (h.at w (pre w.db w.durable p));
  }

module _ {S A : Type 0} where
  handled :
      (Q' Q : Result A → Pred) (r : Result A) (h : Exn → Exec S A) (w : World S)
      → Q' r w.db w.durable
      → ((a : A) (d u : Database) → Q' (ok a) d u → Q (ok a) d u)
      → ((e : Exn) → Hoare (Q' (raised e)) (h e) Q)
      → Q (handle r h w).0 (handle r h w).1.db (handle r h w).1.durable
  handled Q' Q (ok a) h w q good bad = good a w.db w.durable q
  handled Q' Q (raised e) h w q good bad = (bad e).at w q

  pub Hoare-catch :
      {P : Pred} (Q' : Result A → Pred) {Q : Result A → Pred} (m : Exec S A) (h : Exn → Exec S A)
      → Hoare P m Q'
      → ((a : A) (d u : Database) → Q' (ok a) d u → Q (ok a) d u)
      → ((e : Exn) → Hoare (Q' (raised e)) (h e) Q)
      → Hoare P (catch m h) Q
  unfolding catch
  Hoare-catch Q' {Q} m h hm good bad = record {
    at = λ w p. handled Q' Q (m w).0 h (m w).1 (hm.at w p) good bad;
  }

  pub Hoare-if :
      {P : Pred} {Q : Result A → Pred} (b : Bool) (m n : Exec S A)
      → (b ≡ true → Hoare P m Q)
      → (b ≡ false → Hoare P n Q)
      → Hoare P (if b then m else n) Q
  Hoare-if true m n hm hn = hm refl
  Hoare-if false m n hm hn = hn refl

module _ {S A B : Type 0} where
  continued :
      (Q' : Result A → Pred) (Q : Result B → Pred) (r : Result A) (f : A → Exec S B) (w : World S)
      → Q' r w.db w.durable
      → ((e : Exn) (d u : Database) → Q' (raised e) d u → Q (raised e) d u)
      → ((a : A) → Hoare (Q' (ok a)) (f a) Q)
      → Q (continue r f w).0 (continue r f w).1.db (continue r f w).1.durable
  continued Q' Q (ok a) f w q bad good = (good a).at w q
  continued Q' Q (raised e) f w q bad good = bad e w.db w.durable q

  pub Hoare-bind :
      {P : Pred} (Q' : Result A → Pred) {Q : Result B → Pred} (m : Exec S A) (f : A → Exec S B)
      → Hoare P m Q'
      → ((e : Exn) (d u : Database) → Q' (raised e) d u → Q (raised e) d u)
      → ((a : A) → Hoare (Q' (ok a)) (f a) Q)
      → Hoare P (m >>= f) Q
  unfolding ◌>>=◌
  Hoare-bind Q' {Q} m f hm bad good = record {
    at = λ w p. continued Q' Q (m w).0 f (m w).1 (hm.at w p) bad good;
  }

  -- The step that leaves the database alone.
  pub Hoare-past :
      {P : Pred} {Q : Result B → Pred} (m : Exec S A) (f : A → Exec S B)
      → Keeps Frozen m
      → ((e : Exn) (d u : Database) → P d u → Q (raised e) d u)
      → ((a : A) → Hoare P (f a) Q)
      → Hoare P (m >>= f) Q
  Hoare-past {P} m f k = Hoare-bind (λ _. P) m f (Hoare-Frozen m k)

  -- A read: what follows may use what was read.
  pub Hoare-reads :
      {P : Pred} {Q : Result B → Pred} (g : Database → A) (f : A → Exec S B)
      → ((a : A) → Hoare (λ d u. P d u × (g d ≡ a)) (f a) Q)
      → Hoare P (reads g >>= f) Q
  unfolding ◌>>=◌
  Hoare-reads g f k = record { at = λ w p. (k (g w.db)).at w (p, refl) }

  pub Hoare-some_or :
      {P : Pred} {Q : Result B → Pred} (e : Exn) (o : Option A) (f : A → Exec S B)
      → ((d u : Database) → P d u → o ≡ none → Q (raised e) d u)
      → ((a : A) → o ≡ some a → Hoare P (f a) Q)
      → Hoare P (some_or e o >>= f) Q
  unfolding ◌>>=◌
  Hoare-some_or e none f bad good = record { at = λ w p. bad w.db w.durable p refl }
  Hoare-some_or e (some a) f bad good = record { at = λ w p. (good a refl).at w p }

module _ {S A : Type 0} (P : Pred) (g : Database → Option A) (e : Exn) where
  found_at :
      (o : Option A) (w : World S)
      → g w.db ≡ o
      → P w.db w.durable
      → P (some_or e o w).1.db (some_or e o w).1.durable
        × ((a : A) → (some_or e o w).0 ≡ ok a → g (some_or e o w).1.db ≡ some a)
  unfolding some_or throw pure
  found_at none w r p = (p, λ a h. absurd (cc h))
  found_at (some b) w r p = (p, λ a h. r ∙ (cc h))

  -- A read that must find something.
  pub Hoare-found :
      Hoare {S = S} P (reads g >>= some_or e) (λ r d u. P d u × ((a : A) → r ≡ ok a → g d ≡ some a))
  unfolding ◌>>=◌
  Hoare-found = record { at = λ w p. found_at (g w.db) w refl p }

module _ {S A B : Type 0} {P : Pred} {Q : Result B → Pred} where
  -- A call of something outside, with what is known of every value it gives.
  pub Hoare-calls :
      (V : A → Type 0) (f : S → A × S) (k : A → Exec S B)
      → ((s : S) → V (f s).0)
      → ((a : A) → V a → Hoare P (k a) Q)
      → Hoare P (calls f >>= k) Q
  unfolding ◌>>=◌
  Hoare-calls V f k known h = record {
    at = λ w p. (h (f w.outside).0 (known w.outside)).at (record w { outside = (f w.outside).1 }) p;
  }

module _ {S B : Type 0} {Q : Result B → Pred} where
  pub Hoare-modifies :
      {P : Pred} (P' : Pred) (g : Database → Database) (f : Unit {0} → Exec S B)
      → ((d u : Database) → P d u → P' (g d) u)
      → Hoare P' (f tt) Q
      → Hoare P (modifies g >>= f) Q
  unfolding ◌>>=◌
  Hoare-modifies P' g f pre k = record {
    at = λ w p. k.at (record w { db = g w.db }) (pre w.db w.durable p);
  }

  pub Hoare-commit :
      {P : Pred} (P' : Pred) (f : Unit {0} → Exec S B)
      → ((d u : Database) → P d u → P' d d)
      → Hoare P' (f tt) Q
      → Hoare P (commit >>= f) Q
  unfolding ◌>>=◌
  Hoare-commit P' f pre k = record {
    at = λ w p. k.at (record w { durable = w.db }) (pre w.db w.durable p);
  }

module _ {S : Type 0} {P : Pred} {Q : Result (Unit {0}) → Pred} where
  pub Hoare-modify :
      (g : Database → Database)
      → ((d u : Database) → P d u → Q (ok tt) (g d) u)
      → Hoare {S = S} P (modifies g) Q
  unfolding modifies
  Hoare-modify g f = record { at = λ w p. f w.db w.durable p }

  pub Hoare-commit_last : ((d u : Database) → P d u → Q (ok tt) d d) → Hoare {S = S} P commit Q
  unfolding commit
  Hoare-commit_last f = record { at = λ w p. f w.db w.durable p }
