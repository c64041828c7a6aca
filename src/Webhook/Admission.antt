-- ===== src/Webhook/Admission.antt =====
-- app/main.py: which deliveries to the webhook endpoint change anything at all.
use hotels_aggregator.Prelude.{
  ℕ, ◌/◌, String, ◌≡◌, refl, sym, ◌⊎◌, inl, inr, Bool, Option, none, some,
}
use hotels_aggregator.Prelude.Tests.{nat_eq}
use hotels_aggregator.Table.{get, scalar}
use hotels_aggregator.Models.Hotels.{Hotel}
use hotels_aggregator.Models.Indexes.{WebhookInbox}
use hotels_aggregator.Outside.{Outside}
use hotels_aggregator.Database.{Database}
use hotels_aggregator.Exec.{Result, ok, raised, World, Exec, calls, continue, in_session, ◌>>=◌}
use hotels_aggregator.Exec.Keeps.{Keeps-calls}
use hotels_aggregator.Exec.Hoare.{
  Frozen-ignores, Pred, Hoare, Hoare-past, Hoare-reads, Hoare-throw, Hoare-pure, Hoare-commit,
}
use hotels_aggregator.History.{session}
use hotels_aggregator.Webhook.Schema.{
  Event, Envelope, Validation, valid, unknown_event_type, malformed,
}
use hotels_aggregator.Webhook.Verify.{
  Verdict, accepted, refused, not_ascii, verify_webhook_signature,
}
use hotels_aggregator.Webhook.Genuine.{Genuine, verify-Genuine}
use hotels_aggregator.Webhook.Receiver.{
  Delivery, has_slug, hotel_secret, dedupe, with_event_id, validated_event, verified, with_envelope,
  receive_webhook_event,
}
use hotels_aggregator.Webhook.Secret.{
  SecretOf, Unchanged, ReadSecret, hotel_secret-still, hotel_secret-read,
}
use hotels_aggregator.Webhook.Safety.{hotel_secret-Frozen}
use hotels_aggregator.Sync.Indexer.{SearchIndex}

-- A delivery that the endpoint applies at this state of the world outside and of the database.
pub record Admitted (O : Outside) (dev_secret : String) (r : Delivery) (o : O.State) (d : Database)
    : Type 0 where
  pub envelope : Envelope
  pub hotel : Hotel
  pub secret : String
  pub event : Event
  pub event_id : ℕ
  pub named : r.envelope ≡ some envelope
  pub registered : scalar (has_slug envelope.hotel_id) d.hotels ≡ some hotel
  pub keyed : SecretOf O dev_secret (get hotel.hotel_id d.credentials) secret
  pub genuine :
      Genuine O secret r.raw_body r.signature_header r.timestamp_header ((O.now o).0 / 1000000)
  pub well_formed : r.validated ≡ valid event
  pub identified : O.parse_uuid envelope.event_id ≡ some event_id
  pub fresh : get event_id d.inbox ≡ none

module _ (O : Outside) (I : SearchIndex O.State) (contains : String → String → Bool)
    (dev_secret : String) (o : O.State) (c : Database) (r : Delivery) where
  open O use {State, now, decrypt_secret}

  abbrev At : Pred
  At = Unchanged c

  abbrev Outcome : {A : Type 0} → Result A → Pred
  Outcome _ d u = (u ≡ c) ⊎ Admitted O dev_secret r o c

  abbrev Read : Hotel → Result String → Pred
  Read = ReadSecret O dev_secret c

  -- What follows an admission is not looked at.
  once-Admitted :
      {A : Type 0} (P : Pred) (m : Exec State A)
      → ((d u : Database) → P d u → Admitted O dev_secret r o c)
      → Hoare P m Outcome
  once-Admitted P m f = record { at = λ w p. inr (f w.db w.durable p) }

  module _ (envelope : Envelope) (hotel : Hotel) (secret : String) where
    dedupe-Admitted :
        (event : Event) (event_id : ℕ) (seen : Option WebhookInbox)
        → (get event_id c.inbox ≡ none → Admitted O dev_secret r o c)
        → Hoare
            (λ d u. At d u × (get event_id d.inbox ≡ seen))
            (dedupe O I contains dev_secret hotel event envelope event_id seen)
            Outcome
    unfolding dedupe
    dedupe-Admitted event event_id (some row) admit =
        Hoare-commit At _ (λ d u p. (p.0.0, p.0.0)) (Hoare-pure 200 (λ d u p. inl p.1))
    dedupe-Admitted event event_id none admit =
        once-Admitted _ _ (λ d u p. admit (rw (sym p.0.0) p.1))

    with_event_id-Admitted :
        (event : Event) (id : Option ℕ)
        → ((event_id : ℕ)
            → id ≡ some event_id
            → get event_id c.inbox ≡ none
            → Admitted O dev_secret r o c)
        → Hoare At (with_event_id O I contains dev_secret hotel event envelope id) Outcome
    unfolding with_event_id
    with_event_id-Admitted event none admit = Hoare-pure 400 (λ d u p. inl p.1)
    with_event_id-Admitted event (some event_id) admit =
        Hoare-reads _ _ (λ seen. dedupe-Admitted event event_id seen (admit event_id refl))

    validated_event-Admitted :
        (v : Validation)
        → r.validated ≡ v
        → ((event : Event) (event_id : ℕ)
            → r.validated ≡ valid event
            → O.parse_uuid envelope.event_id ≡ some event_id
            → get event_id c.inbox ≡ none
            → Admitted O dev_secret r o c)
        → Hoare At (validated_event O I contains dev_secret hotel envelope v) Outcome
    unfolding validated_event
    validated_event-Admitted unknown_event_type e admit = Hoare-pure 200 (λ d u p. inl p.1)
    validated_event-Admitted malformed e admit = Hoare-pure 400 (λ d u p. inl p.1)
    validated_event-Admitted (valid event) e admit =
        with_event_id-Admitted event _ (λ event_id i f. admit event event_id e i f)

  module _ (envelope : Envelope) (named : r.envelope ≡ some envelope) where
    verified-Admitted :
        (hotel : Hotel) (secret : String) (v : Verdict)
        → scalar (has_slug envelope.hotel_id) c.hotels ≡ some hotel
        → SecretOf O dev_secret (get hotel.hotel_id c.credentials) secret
        → verify_webhook_signature O secret r.raw_body r.signature_header r.timestamp_header
            ((now o).0 / 1000000)
          ≡ v
        → Hoare At (verified O I contains dev_secret r envelope (some hotel) v) Outcome
    unfolding verified
    verified-Admitted hotel secret (refused e) reg key q = Hoare-pure _ (λ d u p. inl p.1)
    verified-Admitted hotel secret not_ascii reg key q = Hoare-throw _ (λ d u p. inl p.1)
    verified-Admitted hotel secret accepted reg key q =
        validated_event-Admitted envelope hotel secret r.validated refl (λ event event_id w i f.
          record {
            envelope = envelope;
            hotel = hotel;
            secret = secret;
            event = event;
            event_id = event_id;
            named = named;
            registered = reg;
            keyed = key;
            genuine =
                (verify-Genuine O secret r.raw_body ((now o).0 / 1000000) r.signature_header
                    r.timestamp_header).0
                  q;
            well_formed = w;
            identified = i;
            fresh = f;
          })

    unregistered :
        (v : Verdict) → Hoare At (verified O I contains dev_secret r envelope none v) Outcome
    unfolding verified
    unregistered (refused e) = Hoare-pure _ (λ d u p. inl p.1)
    unregistered not_ascii = Hoare-throw _ (λ d u p. inl p.1)
    unregistered accepted = Hoare-pure _ (λ d u p. inl p.1)

    -- The world at which the endpoint begins.
    abbrev Begins : World State → Type 0
    Begins w = At w.db w.durable × (w.outside ≡ o)

    abbrev Ends : {A : Type 0} → Result A × World State → Type 0
    Ends x = Outcome x.0 x.1.db x.1.durable

    -- The check against the secret, at the clock.
    abbrev checked : Option Hotel → String → Exec State ℕ
    checked hotel secret = calls now >>= λ t. verified O I contains dev_secret r envelope hotel (
        verify_webhook_signature O secret r.raw_body r.signature_header r.timestamp_header
          (t / 1000000))

    checked_unregistered : (secret : String) → Hoare At (checked none secret) Outcome
    checked_unregistered secret =
        Hoare-past _ _ (Keeps-calls Frozen-ignores now) (λ e d u p. inl p.1)
          (λ t. unregistered (
            verify_webhook_signature O secret r.raw_body r.signature_header r.timestamp_header
              (t / 1000000)))

    checked-Admitted :
        (hotel : Hotel) (secret : String) (w : World State)
        → Begins w
        → scalar (has_slug envelope.hotel_id) c.hotels ≡ some hotel
        → SecretOf O dev_secret (get hotel.hotel_id c.credentials) secret
        → Ends (checked (some hotel) secret w)
    unfolding ◌>>=◌
    checked-Admitted hotel secret w b reg key =
        (verified-Admitted hotel secret _ reg key (rw (sym b.1) refl)).at
          (record w { outside = (now w.outside).1 }) b.0

    -- Reading the secret leaves the world as it is.
    after_secret :
        (hotel : Hotel) (x : Result String) (v w : World State)
        → v ≡ w
        → Begins w
        → Read hotel x v.db v.durable
        → scalar (has_slug envelope.hotel_id) c.hotels ≡ some hotel
        → Ends (continue x (checked (some hotel)) v)
    after_secret hotel (raised e) v w still b read reg = inl read.1
    after_secret hotel (ok secret) v w still b read reg =
        checked-Admitted hotel secret v (read.0, rw still b.1) reg read.1

    for_hotel :
        (hotel : Option Hotel) (w : World State)
        → Begins w
        → scalar (has_slug envelope.hotel_id) c.hotels ≡ hotel
        → Ends ((hotel_secret O I contains dev_secret hotel >>= checked hotel) w)
    unfolding ◌>>=◌
    for_hotel none w b reg =
        (Hoare-past _ _ (hotel_secret-Frozen O I contains dev_secret none) (λ e d u p. inl p.1)
            checked_unregistered).at
          w b.0
    for_hotel (some hotel) w b reg =
        let m = hotel_secret O I contains dev_secret (some hotel) in
        after_secret hotel (m w).0 (m w).1 w (hotel_secret-still O I contains dev_secret hotel w) b
          ((hotel_secret-read O I contains dev_secret c hotel).at w b.0) reg

  with_envelope-Admitted :
      (envelope : Option Envelope) (w : World State)
      → r.envelope ≡ envelope
      → At w.db w.durable × (w.outside ≡ o)
      → Outcome
          (with_envelope O I contains dev_secret r envelope w).0
          (with_envelope O I contains dev_secret r envelope w).1.db
          (with_envelope O I contains dev_secret r envelope w).1.durable
  unfolding with_envelope ◌>>=◌
  with_envelope-Admitted none w e b = inl b.0.1
  with_envelope-Admitted (some envelope) w e b =
      for_hotel envelope e (scalar (has_slug envelope.hotel_id) w.db.hotels) w b (rw b.0.0 refl)

module _ (O : Outside) (I : SearchIndex O.State) (contains : String → String → Bool)
    (dev_secret : String) where
  -- A delivery to the webhook endpoint leaves the committed state exactly as it was, unless it
  -- names a registered hotel, its headers carry a timestamp at most 300 seconds from the
  -- clock and the digest of that timestamp and the raw body under the hotel's stored secret (the
  -- development secret if it has no credential), its body is a valid event, and the id of the event
  -- is an id that the inbox does not have yet.
  pub receive-Admitted :
      (r : Delivery) (w : World O.State)
      → ((session (receive_webhook_event O I contains dev_secret r) w).durable ≡ w.durable)
        ⊎ Admitted O dev_secret r w.outside w.durable
  unfolding session in_session receive_webhook_event
  receive-Admitted r w =
      with_envelope-Admitted O I contains dev_secret w.outside w.durable r r.envelope
        (record w { db = w.durable }) refl ((refl, refl), refl)
