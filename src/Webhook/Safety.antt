-- ===== src/Webhook/Safety.antt =====
-- app/main.py: what a delivery to the webhook endpoint may change, whatever its body and headers.
use hotels_aggregator.Prelude.{ℕ, String, Bool, ◌≡◌, sym, ap, ◌∙◌, Option, none, some}
use mathlib.Core.Option.{some-injective}
use hotels_aggregator.Prelude.Tests.{nat_eq}
use hotels_aggregator.Table.{get}
use hotels_aggregator.Models.Hotels.{Hotel, HotelCredential}
use hotels_aggregator.Models.Indexes.{WebhookInbox}
use hotels_aggregator.Outside.{Outside}
use hotels_aggregator.Database.{Database}
use hotels_aggregator.Exec.{World, in_session}
use hotels_aggregator.Exec.Keeps.{Keeps, Keeps-calls}
use hotels_aggregator.Exec.Hoare.{
  Frozen, Frozen-ignores, Hoare, Hoare-past, Hoare-bind, Hoare-reads, Hoare-throw, Hoare-pure,
  Hoare-modifies, Hoare-commit, Hoare-if, Hoare-catch,
}
use hotels_aggregator.Client.Frozen.{frozen_rules}
use hotels_aggregator.History.{session}
use hotels_aggregator.Webhook.Schema.{
  Event, Envelope, Validation, valid, unknown_event_type, malformed,
}
use hotels_aggregator.Webhook.Verify.{Verdict, accepted, refused, not_ascii}
use hotels_aggregator.Webhook.Receiver.{
  Delivery, secret_of, hotel_secret, mark_processed, dispatched, apply_new, dedupe, with_event_id,
  validated_event, verified, with_envelope, receive_webhook_event,
}
use hotels_aggregator.Sync.Indexer.{SearchIndex}
use hotels_aggregator.Sync.Evolves.{Syncs, Syncs-refl, Syncs-trans, Syncs-inbox}
use hotels_aggregator.Sync.Safety.{Synced, dispatch_event-Synced}

module _ (O : Outside) (I : SearchIndex O.State) (contains : String → String → Bool)
    (dev_secret : String) where
  open O use {State, now}

  secret_of-Frozen :
      (c : Option HotelCredential) → Keeps Frozen (secret_of O I contains dev_secret c)
  unfolding secret_of
  secret_of-Frozen none = search frozen_rules
  secret_of-Frozen (some c) = search frozen_rules

  pub hotel_secret-Frozen :
      (hotel : Option Hotel) → Keeps Frozen (hotel_secret O I contains dev_secret hotel)
  unfolding hotel_secret
  hotel_secret-Frozen none = search frozen_rules
  hotel_secret-Frozen (some hotel) = search (frozen_rules, secret_of-Frozen)

  module _ (c : Database) where
    mark_processed-Synced :
        (id : ℕ) (found : Option WebhookInbox)
        → Hoare
            (λ d u. Synced c d u × (get id d.inbox ≡ found))
            (mark_processed O I contains dev_secret id found)
            (λ _. Synced c)
    unfolding mark_processed
    mark_processed-Synced id none = Hoare-pure 200 (λ d u p. p.0)
    mark_processed-Synced id (some row) =
        Hoare-past _ _ (Keeps-calls Frozen-ignores now) (λ e d u p. p.0)
          (λ t.
            Hoare-modifies (Synced c) _ _
              (λ d u p. (
                Syncs-trans c d _ p.0.0 (
                    Syncs-inbox d id (record row { processed_at = some t })
                      (λ old found.
                        let same = some-injective _ _ (sym p.1 ∙ found) in
                        (ap (λ x. x.hotel_id) same, ap (λ x. x.event_type) same))),
                p.0.1,
              ))
              (Hoare-commit (Synced c) _ (λ d u p. (p.0, p.0)) (Hoare-pure 200 (λ d u p. p))))

    dispatched-Synced :
        (hotel : Hotel) (event : Event)
        → Hoare (Synced c) (dispatched O I contains dev_secret hotel event) (λ _. Synced c)
    unfolding dispatched
    dispatched-Synced hotel event =
        Hoare-catch (λ _. Synced c) _ _
          (Hoare-bind (λ _. Synced c) _ _ (dispatch_event-Synced O I contains c hotel event)
            (λ e d u p. p) (λ _. Hoare-pure _ (λ d u p. p)))
          (λ a d u p. p) (λ e. Hoare-pure _ (λ d u p. p))

    apply_new-Synced :
        (hotel : Hotel) (event : Event) (id : ℕ)
        → Hoare (Synced c) (apply_new O I contains dev_secret hotel event id) (λ _. Synced c)
    unfolding apply_new
    apply_new-Synced hotel event id =
        Hoare-bind (λ _. Synced c) _ _ (dispatched-Synced hotel event) (λ e d u p. p)
          (λ applied.
            Hoare-if applied _ _ (λ _. Hoare-reads _ _ (mark_processed-Synced id))
              (λ _. Hoare-pure 500 (λ d u p. p)))

    dedupe-Synced :
        (hotel : Hotel) (event : Event) (envelope : Envelope) (id : ℕ) (seen : Option WebhookInbox)
        → Hoare
            (λ d u. Synced c d u × (get id d.inbox ≡ seen))
            (dedupe O I contains dev_secret hotel event envelope id seen)
            (λ _. Synced c)
    unfolding dedupe
    dedupe-Synced hotel event envelope id (some row) =
        Hoare-commit (Synced c) _ (λ d u p. (p.0.0, p.0.0)) (Hoare-pure 200 (λ d u p. p))
    dedupe-Synced hotel event envelope id none =
        Hoare-modifies (Synced c) _ _
          (λ d u p. (
            Syncs-trans c d _ p.0.0 (Syncs-inbox d id _ (λ old found. absurd (cc (p.1, found)))),
            p.0.1,
          ))
          (Hoare-commit (Synced c) _ (λ d u p. (p.0, p.0)) (apply_new-Synced hotel event id))

    validated_event-Synced :
        (hotel : Hotel) (envelope : Envelope) (v : Validation)
        → Hoare
            (Synced c)
            (validated_event O I contains dev_secret hotel envelope v)
            (λ _. Synced c)
    unfolding validated_event with_event_id
    validated_event-Synced hotel envelope unknown_event_type = Hoare-pure 200 (λ d u p. p)
    validated_event-Synced hotel envelope malformed = Hoare-pure 400 (λ d u p. p)
    validated_event-Synced hotel envelope (valid event) = with_id (O.parse_uuid envelope.event_id)
      where
        with_id :
            (id : Option ℕ)
            → Hoare
                (Synced c)
                (with_event_id O I contains dev_secret hotel event envelope id)
                (λ _. Synced c)
        with_id none = Hoare-pure 400 (λ d u p. p)
        with_id (some id) = Hoare-reads _ _ (dedupe-Synced hotel event envelope id)

    verified-Synced :
        (r : Delivery) (envelope : Envelope) (hotel : Option Hotel) (v : Verdict)
        → Hoare (Synced c) (verified O I contains dev_secret r envelope hotel v) (λ _. Synced c)
    unfolding verified
    verified-Synced r envelope hotel (refused e) = Hoare-pure _ (λ d u p. p)
    verified-Synced r envelope hotel not_ascii = Hoare-throw _ (λ d u p. p)
    verified-Synced r envelope none accepted = Hoare-pure _ (λ d u p. p)
    verified-Synced r envelope (some hotel) accepted =
        validated_event-Synced hotel envelope r.validated

    with_envelope-Synced :
        (r : Delivery) (envelope : Option Envelope)
        → Hoare (Synced c) (with_envelope O I contains dev_secret r envelope) (λ _. Synced c)
    unfolding with_envelope
    with_envelope-Synced r none = Hoare-pure 400 (λ d u p. p)
    with_envelope-Synced r (some envelope) =
        Hoare-past _ _ (search frozen_rules) (λ e d u p. p)
          (λ hotel.
            Hoare-past _ _ (hotel_secret-Frozen hotel) (λ e d u p. p)
              (λ secret.
                Hoare-past _ _ (Keeps-calls Frozen-ignores now) (λ e d u p. p)
                  (λ t. verified-Synced r envelope hotel _)))

  -- Whatever is delivered to the webhook endpoint, the committed state afterwards has the same
  -- hotels, credentials, portal users, promotions, travelers, bookings, payments and reviews; each
  -- room type is there still and belongs to the same hotel; each event of the inbox is there still,
  -- of the same hotel and type; and if every rate named a known room type, every rate does.
  pub receive-Syncs :
      (r : Delivery) (w : World State)
      → Syncs w.durable (session (receive_webhook_event O I contains dev_secret r) w).durable
  unfolding session in_session receive_webhook_event
  receive-Syncs r w =
      ((with_envelope-Synced w.durable r r.envelope).at (record w { db = w.durable })
        (Syncs-refl w.durable, Syncs-refl w.durable)).1
