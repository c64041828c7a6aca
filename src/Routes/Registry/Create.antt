-- ===== src/Routes/Registry/Create.antt =====
-- app/api/routes/hotels_admin.py: a hotel is registered as a whole or not at all.
use hotels_aggregator.Prelude.{
  ℕ, String, Bool, true, false, ◌≡◌, ◌≢◌, refl, sym, ap, subst, Option, none, some,
}
use hotels_aggregator.Prelude.Tests.{nat_eq, string_eq, beq_ne}
use hotels_aggregator.Table.{get, exists}
use hotels_aggregator.Table.Laws.{get-put, get-put_self}
use hotels_aggregator.Models.Hotels.{Hotel, HotelCredential, new_sync_health}
use hotels_aggregator.Outside.{Outside}
use hotels_aggregator.Database.{Database}
use hotels_aggregator.Exec.{World, Result, ok, raised}
use hotels_aggregator.Exec.Hoare.{
  Pred, Hoare, Hoare-bind, Hoare-past, Hoare-reads, Hoare-calls, Hoare-modifies, Hoare-modify,
  Hoare-commit, Hoare-pure, Hoare-throw,
}
use hotels_aggregator.Client.Frozen.{frozen_rules}
use hotels_aggregator.Schemas.Hotels.{HotelCreate, HotelOut, hotel_out}
use hotels_aggregator.Security.Sessions.{Fresh, start}
use hotels_aggregator.Routes.Common.{of_slug}
use hotels_aggregator.Routes.Portal.{write_hotel}
use hotels_aggregator.Routes.Registry.{
  write_credential, add_health, new_hotel, new_credential, flush_hotel, insert_hotel,
  register_hotel, create_hotel,
}

module _ (O : Outside) where
  open O use {State, uuid4, now, encrypt_secret, decrypt_secret}

  -- The hotel of a request, as the answer tells it, with secrets that decrypt to the request's.
  pub record Registered (p : HotelCreate) (out : HotelOut) (c d : Database) : Type 0 where
    pub hotel : Hotel
    pub found : get out.hotel_id d.hotels ≡ some hotel
    pub told : hotel_out hotel ≡ out
    pub slug : hotel.slug ≡ p.slug
    pub slug_was_free : exists (of_slug p.slug) c.hotels ≡ false
    pub id_was_free : get out.hotel_id c.hotels ≡ none
    pub credential : HotelCredential
    pub credential_found : get out.hotel_id d.credentials ≡ some credential
    pub api_key : decrypt_secret credential.api_key_encrypted ≡ some p.api_key
    pub webhook_secret : decrypt_secret credential.webhook_secret_encrypted ≡ some p.webhook_secret
    pub health : get out.hotel_id d.sync_health ≡ some (new_sync_health out.hotel_id)
    pub other_hotels : (j : ℕ) → out.hotel_id ≢ j → get j d.hotels ≡ get j c.hotels

  -- An answer is one of a registered hotel; an exception leaves everything as it was.
  abbrev pub WholeOrNothing : HotelCreate → Database → Result HotelOut → Database → Type 0
  WholeOrNothing p c (ok out) u = Registered p out c u
  WholeOrNothing p c (raised e) u = u ≡ c

  module _ (p : HotelCreate) (c : Database)
      (reads_back : (s : String) (x : State) → decrypt_secret (encrypt_secret s x).0 ≡ some s) where
    -- The hotel is written, and nothing is committed.
    abbrev Flushed : Hotel → Pred
    Flushed h d u =
        (d ≡ write_hotel h c)
        × (u ≡ c)
        × (get h.hotel_id c.hotels ≡ none)
        × (exists (of_slug h.slug) c.hotels ≡ false)

    abbrev AfterFlush : Hotel → Result (Unit {0}) → Pred
    AfterFlush h (ok _) d u = Flushed h d u
    AfterFlush h (raised e) d u = u ≡ c

    flush_hotel-Flushed :
        (h : Hotel) (taken : Option Hotel) (duplicate : Bool)
        → Hoare
            (λ d u.
              (Fresh c d u × (get h.hotel_id d.hotels ≡ taken))
              × (exists (of_slug h.slug) d.hotels ≡ duplicate))
            (flush_hotel O h taken duplicate)
            (AfterFlush h)
    unfolding flush_hotel
    flush_hotel-Flushed h (some _) duplicate = Hoare-throw _ (λ d u q. q.0.0.1)
    flush_hotel-Flushed h none true = Hoare-throw _ (λ d u q. q.0.0.1)
    flush_hotel-Flushed h none false =
        Hoare-modify (write_hotel h) (λ d u q.
          (ap (write_hotel h) q.0.0.0, q.0.0.1, (rw q.0.0.0 at q.0.1), (rw q.0.0.0 at q.1)))

    insert_hotel-Flushed : (h : Hotel) → Hoare (Fresh c) (insert_hotel O h) (AfterFlush h)
    unfolding insert_hotel
    insert_hotel-Flushed h =
        Hoare-reads _ _
          (λ taken. Hoare-reads _ _ (λ duplicate. flush_hotel-Flushed h taken duplicate))

    -- What is committed at the end.
    complete :
        (id created : ℕ) (k s : String)
        → decrypt_secret k ≡ some p.api_key
        → decrypt_secret s ≡ some p.webhook_secret
        → get id c.hotels ≡ none
        → exists (of_slug p.slug) c.hotels ≡ false
        → Registered p (hotel_out (new_hotel O p id created)) c (
            add_health id (
              write_credential
                (new_credential O p id k s)
                (write_hotel (new_hotel O p id created) c)))
    complete id created k s opens_key opens_secret id_free slug_free = record {
      hotel = new_hotel O p id created;
      found = get-put_self id (new_hotel O p id created) c.hotels;
      told = refl;
      slug = refl;
      slug_was_free = slug_free;
      id_was_free = id_free;
      credential = new_credential O p id k s;
      credential_found = get-put_self id (new_credential O p id k s) c.credentials;
      api_key = opens_key;
      webhook_secret = opens_secret;
      health = get-put_self id (new_sync_health id) c.sync_health;
      other_hotels =
          λ j n. rw (get-put j id (new_hotel O p id created) c.hotels, beq_ne id j n) refl;
    }

    register_hotel-Registered :
        (existing : Option Hotel)
        → Hoare (Fresh c) (register_hotel O p existing) (λ r d u. WholeOrNothing p c r u)
    unfolding register_hotel
    register_hotel-Registered (some _) = Hoare-throw _ (λ d u q. q.1)
    register_hotel-Registered none =
        Hoare-past _ _ (search frozen_rules) (λ e d u q. q.1)
          (λ id.
            Hoare-past _ _ (search frozen_rules) (λ e d u q. q.1)
              (λ created.
                Hoare-bind _ _ _ (insert_hotel-Flushed (new_hotel O p id created)) (λ e d u q. q)
                  (λ _.
                    Hoare-calls (λ k. decrypt_secret k ≡ some p.api_key) _ _ (reads_back p.api_key)
                      (λ k opens_key.
                        Hoare-calls (λ s. decrypt_secret s ≡ some p.webhook_secret) _ _
                          (reads_back p.webhook_secret)
                          (λ s opens_secret.
                            Hoare-modifies
                              (λ d u. Registered p (hotel_out (new_hotel O p id created)) c d) _ _
                              (λ d u q.
                                subst
                                  (λ x. Registered p (hotel_out (new_hotel O p id created)) c (
                                    add_health id (write_credential (new_credential O p id k s) x)))
                                  (sym q.0)
                                  (complete id created k s opens_key opens_secret q.2 q.3))
                              (Hoare-commit
                                (λ d u. Registered p (hotel_out (new_hotel O p id created)) c u) _
                                (λ d u q. q) (Hoare-pure _ (λ d u q. q))))))))

  -- If the encryption is one that its decryption undoes: when the registration of a hotel answers,
  -- the committed state has the hotel that the answer tells, under an id and a slug that were free,
  -- with a sync health and with a credential whose secrets decrypt to the ones of the request, and
  -- every other hotel is as it was; when it raises, the committed state is as it was.
  pub create_hotel-WholeOrNothing :
      (p : HotelCreate) (w : World State)
      → ((s : String) (x : State) → decrypt_secret (encrypt_secret s x).0 ≡ some s)
      → WholeOrNothing p w.durable
          (create_hotel O p (start w)).0
          (create_hotel O p (start w)).1.durable
  unfolding create_hotel
  create_hotel-WholeOrNothing p w reads_back =
      (Hoare-past _ _ (search frozen_rules) (λ e d u q. q.1)
          (register_hotel-Registered p w.durable reads_back)).at
        (start w) (refl, refl)
