-- ===== src/Exec.antt =====
-- A coroutine over one database session: state and exceptions. `db` is what the session reads
-- and writes, `durable` is what is committed; closing a session after an exception drops `db`.
pub mod Keeps
pub mod Hoare
use hotels_aggregator.Prelude.{Option, none, some, String}
use hotels_aggregator.Exceptions.{Exn, type_error, key_error}
use hotels_aggregator.Prelude.Int.{ℤ}
use hotels_aggregator.Json.{Json, null, int, text, object, member}
use hotels_aggregator.Database.{Database}

pub data Result {ℓ} (A : Type ℓ) : Type ℓ where
  ok : A → Result A
  raised : Exn → Result A

pub record World (S : Type 0) : Type 0 where
  pub db : Database
  pub durable : Database
  pub outside : S

abbrev pub Exec : Type 0 → Type 0 → Type 0
Exec S A = World S → Result A × World S

module _ {S A : Type 0} where
  unfoldable pub pure : A → Exec S A
  pure a w = (ok a, w)

  unfoldable pub throw : Exn → Exec S A
  throw e w = (raised e, w)

  unfoldable pub reads : (Database → A) → Exec S A
  reads f w = (ok (f w.db), w)

  -- A call of something outside.
  unfoldable pub calls : (S → A × S) → Exec S A
  calls f w = (ok (f w.outside).0, record w { outside = (f w.outside).1 })

  unfoldable pub some_or : Exn → Option A → Exec S A
  unfolding pure throw
  some_or e none = throw e
  some_or e (some a) = pure a

module _ {S : Type 0} where
  unfoldable pub modifies : (Database → Database) → Exec S (Unit {0})
  modifies f w = (ok tt, record w { db = f w.db })

  unfoldable pub tells : (S → S) → Exec S (Unit {0})
  tells f w = (ok tt, record w { outside = f w.outside })

  -- `session.commit()`
  unfoldable pub commit : Exec S (Unit {0})
  commit w = (ok tt, record w { durable = w.db })

  -- `session.rollback()`
  unfoldable pub rollback : Exec S (Unit {0})
  rollback w = (ok tt, record w { db = w.durable })

module _ {S A : Type 0} where
  abbrev pub handle : Result A → (Exn → Exec S A) → Exec S A
  handle (ok a) h w = (ok a, w)
  handle (raised e) h w = h e w

  -- `try: m except Exception as e: h(e)`; `h` raises `e` again where its class does not match.
  unfoldable pub catch : Exec S A → (Exn → Exec S A) → Exec S A
  catch m h w = handle (m w).0 h (m w).1

  -- `async with AsyncSessionLocal() as session`: what is not committed is rolled back at the end.
  unfoldable pub in_session : Exec S A → Exec S A
  in_session m w = ((m w).0, record ((m w).1) { db = ((m w).1).durable })

module _ {S A B : Type 0} where
  abbrev pub continue : Result A → (A → Exec S B) → Exec S B
  continue (ok a) f w = f a w
  continue (raised e) f w = (raised e, w)

  infixl 5 ◌>>=◌ ◌>>◌
  -- Opening this opens the actions above.
  unfoldable pub ◌>>=◌ : Exec S A → (A → Exec S B) → Exec S B
  unfolding pure throw reads calls some_or modifies tells commit rollback catch in_session
  ◌>>=◌ m f w = continue (m w).0 f (m w).1

  abbrev pub ◌>>◌ : Exec S A → Exec S B → Exec S B
  m >> k = m >>= λ _. k

module _ {S : Type 0} where
  -- `d[key]` on a value that should be a dict.
  unfoldable pub subscript : String → Json → Exec S Json
  subscript k (object fs) = some_or (key_error k) (member k fs)
  subscript k _ = throw type_error

  -- A text where a text column or a text argument takes it.
  unfoldable pub as_text : Json → Exec S String
  as_text (text s) = pure s
  as_text _ = throw type_error

  -- The same for a column that may be null.
  unfoldable pub as_nullable_text : Json → Exec S (Option String)
  as_nullable_text null = pure none
  as_nullable_text (text s) = pure (some s)
  as_nullable_text _ = throw type_error

  -- A number where an integer column takes it.
  unfoldable pub as_int : Json → Exec S ℤ
  as_int (int n) = pure n
  as_int _ = throw type_error
