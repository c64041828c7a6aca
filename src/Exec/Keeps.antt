-- ===== src/Exec/Keeps.antt =====
-- What a coroutine does to its world whether it returns or raises: one rule for each way to build
-- a coroutine. `R` relates the world before to the world after.
use hotels_aggregator.Prelude.{◌≡◌, refl, Bool, true, false, Option, none, some, String}
use hotels_aggregator.Prelude.Tests.{if◌then◌else◌}
use hotels_aggregator.Json.{Json, null, int, text, object, member}
use hotels_aggregator.Exceptions.{Exn, type_error, key_error}
use hotels_aggregator.Database.{Database}
use hotels_aggregator.Exec.{
  Result, ok, raised, World, Exec, pure, throw, reads, calls, some_or, tells, catch, continue,
  handle, ◌>>=◌, subscript, as_text, as_nullable_text, as_int,
}

-- A relation that composes.
pub record IsStable {S : Type 0} (R : World S → World S → Type 0) : Type 0 where
  pub stays : (w : World S) → R w w
  pub composes : (u v w : World S) → R u v → R v w → R u w

-- One that no call of something outside disturbs.
pub record IgnoresOutside {S : Type 0} (R : World S → World S → Type 0) : Type 0 where
  pub ignores_outside : (w : World S) (s : S) → R w (record w { outside = s })

pub record Keeps {S A : Type 0} (R : World S → World S → Type 0) (m : Exec S A) : Type 0 where
  pub at : (w : World S) → R w (m w).1

module _ {S : Type 0} {R : World S → World S → Type 0} (stable : IsStable R) where
  module _ {A : Type 0} where
    pub Keeps-pure : (a : A) → Keeps R (pure a)
    unfolding pure
    Keeps-pure a = record { at = λ w. stable.stays w }

    pub Keeps-throw : (e : Exn) → Keeps R (throw {A = A} e)
    unfolding throw
    Keeps-throw e = record { at = λ w. stable.stays w }

    pub Keeps-reads : (f : Database → A) → Keeps R (reads f)
    unfolding reads
    Keeps-reads f = record { at = λ w. stable.stays w }

    pub Keeps-some_or : (e : Exn) (o : Option A) → Keeps R (some_or e o)
    unfolding some_or
    Keeps-some_or e none = record { at = λ w. stable.stays w }
    Keeps-some_or e (some a) = record { at = λ w. stable.stays w }

    handle-keeps :
        (u v : World S) (r : Result A) (h : Exn → Exec S A)
        → R u v
        → ((e : Exn) → Keeps R (h e))
        → R u (handle r h v).1
    handle-keeps u v (ok a) h k kh = k
    handle-keeps u v (raised e) h k kh = stable.composes u v (h e v).1 k ((kh e).at v)

    pub Keeps-catch :
        (m : Exec S A) (h : Exn → Exec S A)
        → Keeps R m
        → ((e : Exn) → Keeps R (h e))
        → Keeps R (catch m h)
    unfolding catch
    Keeps-catch m h km kh = record { at = λ w. handle-keeps w (m w).1 (m w).0 h (km.at w) kh }

  module _ {A B : Type 0} where
    continue-keeps :
        (u v : World S) (r : Result A) (f : A → Exec S B)
        → R u v
        → ((a : A) → r ≡ ok a → Keeps R (f a))
        → R u (continue r f v).1
    continue-keeps u v (ok a) f k kf = stable.composes u v (f a v).1 k ((kf a refl).at v)
    continue-keeps u v (raised e) f k kf = k

    pub Keeps-bind :
        (m : Exec S A) (f : A → Exec S B)
        → Keeps R m
        → ((a : A) → Keeps R (f a))
        → Keeps R (m >>= f)
    unfolding ◌>>=◌
    Keeps-bind m f km kf = record {
      at = λ w. continue-keeps w (m w).1 (m w).0 f (km.at w) (λ a _. kf a);
    }

module _ {S : Type 0} {R : World S → World S → Type 0} (ignores : IgnoresOutside R) where
  pub Keeps-calls : {A : Type 0} (f : S → A × S) → Keeps R (calls f)
  unfolding calls
  Keeps-calls f = record { at = λ w. ignores.ignores_outside w (f w.outside).1 }

  pub Keeps-tells : (f : S → S) → Keeps R (tells f)
  unfolding tells
  Keeps-tells f = record { at = λ w. ignores.ignores_outside w (f w.outside) }

module _ {S A : Type 0} {R : World S → World S → Type 0} where
  pub Keeps-if :
      (b : Bool) (m n : Exec S A)
      → (b ≡ true → Keeps R m)
      → (b ≡ false → Keeps R n)
      → Keeps R (if b then m else n)
  Keeps-if true m n km kn = km refl
  Keeps-if false m n km kn = kn refl

  pub Keeps-option :
      {B : Type 0} (o : Option B) (m : Exec S A) (f : B → Exec S A)
      → Keeps R m
      → ((b : B) → Keeps R (f b))
      → Keeps R (elim o [ none ↦ m | some b ↦ f b ])
  Keeps-option none m f km kf = km
  Keeps-option (some b) m f km kf = kf b

module _ {S : Type 0} {R : World S → World S → Type 0} (stable : IsStable R) where
  pub Keeps-subscript : (k : String) (j : Json) → Keeps R (subscript k j)
  unfolding subscript
  Keeps-subscript k (object fs) = Keeps-some_or stable (key_error k) (member k fs)
  Keeps-subscript k _ = Keeps-throw stable type_error

  pub Keeps-as_text : (j : Json) → Keeps R (as_text j)
  unfolding as_text
  Keeps-as_text (text s) = Keeps-pure stable s
  Keeps-as_text _ = Keeps-throw stable type_error

  pub Keeps-as_nullable_text : (j : Json) → Keeps R (as_nullable_text j)
  unfolding as_nullable_text
  Keeps-as_nullable_text null = Keeps-pure stable none
  Keeps-as_nullable_text (text s) = Keeps-pure stable (some s)
  Keeps-as_nullable_text _ = Keeps-throw stable type_error

  pub Keeps-as_int : (j : Json) → Keeps R (as_int j)
  unfolding as_int
  Keeps-as_int (int n) = Keeps-pure stable n
  Keeps-as_int _ = Keeps-throw stable type_error

pub ruleset keeps_rules = (
  Keeps-pure, Keeps-throw, Keeps-reads, Keeps-calls, Keeps-some_or, Keeps-catch, Keeps-tells,
  Keeps-bind, Keeps-if, Keeps-option, Keeps-subscript, Keeps-as_text, Keeps-as_nullable_text,
  Keeps-as_int,
)
