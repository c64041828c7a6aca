-- ===== src/Webhook/Secret.antt =====
-- app/main.py: which secret the webhook endpoint checks a delivery with.
use hotels_aggregator.Prelude.{String, ◌≡◌, refl, sym, Bool, Option, none, some}
use hotels_aggregator.Prelude.Tests.{nat_eq}
use hotels_aggregator.Table.{get}
use hotels_aggregator.Models.Hotels.{Hotel, HotelCredential}
use hotels_aggregator.Exceptions.{invalid_token}
use hotels_aggregator.Outside.{Outside}
use hotels_aggregator.Database.{Database}
use hotels_aggregator.Exec.{Result, ok, raised, World, pure, some_or, ◌>>=◌}
use hotels_aggregator.Exec.Hoare.{Pred, Hoare, Hoare-reads, Hoare-throw, Hoare-pure}
use hotels_aggregator.Webhook.Receiver.{secret_of, hotel_secret}
use hotels_aggregator.Sync.Indexer.{SearchIndex}

-- The secret that a hotel's deliveries are checked with.
abbrev pub SecretOf : Outside → (dev_secret : String) → Option HotelCredential → String → Type 0
SecretOf O dev_secret none secret = secret ≡ dev_secret
SecretOf O dev_secret (some c) secret = O.decrypt_secret c.webhook_secret_encrypted ≡ some secret

-- Both states of the database are this one.
abbrev pub Unchanged : Database → Pred
Unchanged c d u = (d ≡ c) × (u ≡ c)

abbrev pub ReadSecret : Outside → (dev_secret : String) → Database → Hotel → Result String → Pred
ReadSecret O dev_secret c hotel (ok s) d u =
    Unchanged c d u × SecretOf O dev_secret (get hotel.hotel_id c.credentials) s
ReadSecret O dev_secret c hotel (raised e) d u = Unchanged c d u

module _ (O : Outside) (I : SearchIndex O.State) (contains : String → String → Bool)
    (dev_secret : String) where
  open O use {State, decrypt_secret}

  some_or-still :
      (s : Option String) (w : World State) → (some_or {S = State} invalid_token s w).1 ≡ w
  unfolding some_or
  some_or-still none w = refl
  some_or-still (some s) w = refl

  secret_of-still :
      (cred : Option HotelCredential) (w : World State)
      → (secret_of O I contains dev_secret cred w).1 ≡ w
  unfolding secret_of pure
  secret_of-still none w = refl
  secret_of-still (some cred) w = some_or-still (decrypt_secret cred.webhook_secret_encrypted) w

  pub hotel_secret-still :
      (hotel : Hotel) (w : World State)
      → (hotel_secret O I contains dev_secret (some hotel) w).1 ≡ w
  unfolding hotel_secret ◌>>=◌
  hotel_secret-still hotel w = secret_of-still (get hotel.hotel_id w.db.credentials) w

module _ (O : Outside) (I : SearchIndex O.State) (contains : String → String → Bool)
    (dev_secret : String) (c : Database) where
  open O use {State}

  decrypted :
      (hotel : Hotel) (cred : HotelCredential) (s : Option String)
      → O.decrypt_secret cred.webhook_secret_encrypted ≡ s
      → Hoare {S = State}
          (λ d u. Unchanged c d u × (get hotel.hotel_id d.credentials ≡ some cred))
          (some_or invalid_token s)
          (ReadSecret O dev_secret c hotel)
  unfolding some_or
  decrypted hotel cred none e = Hoare-throw _ (λ d u p. p.0)
  decrypted hotel cred (some s) e = Hoare-pure s (λ d u p. (p.0, rw (sym p.0.0, p.1) e))

  with_credential :
      (hotel : Hotel) (cred : Option HotelCredential)
      → Hoare
          (λ d u. Unchanged c d u × (get hotel.hotel_id d.credentials ≡ cred))
          (secret_of O I contains dev_secret cred)
          (ReadSecret O dev_secret c hotel)
  unfolding secret_of
  with_credential hotel none = Hoare-pure dev_secret (λ d u p. (p.0, rw (sym p.0.0, p.1) refl))
  with_credential hotel (some cred) = decrypted hotel cred _ refl

  pub hotel_secret-read :
      (hotel : Hotel)
      → Hoare
          (Unchanged c)
          (hotel_secret O I contains dev_secret (some hotel))
          (ReadSecret O dev_secret c hotel)
  unfolding hotel_secret
  hotel_secret-read hotel = Hoare-reads _ _ (with_credential hotel)
