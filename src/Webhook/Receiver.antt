-- ===== src/Webhook/Receiver.antt =====
-- app/main.py: the webhook endpoint, from the raw body to the answer.
use hotels_aggregator.Prelude.{ℕ, ◌/◌, String, Bool, true, false, Option, none, some}
use hotels_aggregator.Prelude.Tests.{◌==◌, nat_eq, string_eq, if◌then◌else◌}
use hotels_aggregator.Table.{get, put, scalar}
use hotels_aggregator.Models.Hotels.{Hotel, HotelCredential}
use hotels_aggregator.Models.Indexes.{WebhookInbox}
use hotels_aggregator.Exceptions.{invalid_token, type_error}
use hotels_aggregator.Outside.{Outside}
use hotels_aggregator.Database.{Database}
use hotels_aggregator.Exec.{
  Exec, pure, throw, reads, calls, some_or, modifies, commit, catch, ◌>>=◌, ◌>>◌,
}
use hotels_aggregator.Webhook.Schema.{
  Event, Envelope, Validation, valid, unknown_event_type, malformed,
}
use hotels_aggregator.Webhook.Verify.{
  AuthError, replay_window_exceeded, Verdict, accepted, refused, not_ascii,
  verify_webhook_signature,
}
use hotels_aggregator.Sync.Indexer.{SearchIndex}
use hotels_aggregator.Sync.Engine.{dispatch_event}

-- The request, and what pydantic makes of its body.
pub record Delivery : Type 0 where
  pub raw_body : String
  pub signature_header : Option String
  pub timestamp_header : Option String
  -- `_MinimalEnvelope.model_validate_json`; `none` is ValidationError
  pub envelope : Option Envelope
  -- `_webhook_validator.validate_json`
  pub validated : Validation

-- The status that a WebhookAuthError gets.
unfoldable pub auth_status : AuthError → ℕ
auth_status replay_window_exceeded = 408
auth_status _ = 401

unfoldable pub has_slug : String → Hotel → Bool
has_slug slug h = h.slug == slug

abbrev pub write_inbox : WebhookInbox → Database → Database
write_inbox row d = record d { inbox = put row.event_id row d.inbox }

module _ (O : Outside) (I : SearchIndex O.State) (contains : String → String → Bool)
    (dev_secret : String) where
  open O use {State, now, decrypt_secret, parse_uuid}

  unfoldable pub secret_of : Option HotelCredential → Exec State String
  secret_of none = pure dev_secret
  secret_of (some c) = some_or invalid_token (decrypt_secret c.webhook_secret_encrypted)

  -- The secret of a registered hotel, or the shared one of a development setup.
  unfoldable pub hotel_secret : Option Hotel → Exec State String
  hotel_secret none = pure dev_secret
  hotel_secret (some hotel) = do
    cred ← reads (λ d. get hotel.hotel_id d.credentials)
    secret_of cred

  -- After the dispatch: the row of the inbox is marked.
  unfoldable pub mark_processed : ℕ → Option WebhookInbox → Exec State ℕ
  mark_processed event_id none = pure 200
  mark_processed event_id (some row) = do
    t ← calls now
    modifies (λ d. record d { inbox = put event_id (record row { processed_at = some t }) d.inbox })
    commit
    pure 200

  -- `except Exception`: a failed dispatch is answered with 500.
  unfoldable pub dispatched : Hotel → Event → Exec State Bool
  dispatched hotel event =
      catch (dispatch_event O I contains hotel event >> pure true) (λ e. pure false)

  unfoldable pub apply_new : Hotel → Event → ℕ → Exec State ℕ
  apply_new hotel event event_id = do
    applied ← dispatched hotel event
    if applied
        then (do row ← reads (λ d. get event_id d.inbox); mark_processed event_id row)
        else pure 500

  -- INSERT ... ON CONFLICT DO NOTHING, and its row count.
  unfoldable pub dedupe : Hotel → Event → Envelope → ℕ → Option WebhookInbox → Exec State ℕ
  dedupe hotel event envelope event_id (some _) = commit >> pure 200
  dedupe hotel event envelope event_id none = do
    modifies (
        write_inbox (record {
          event_id = event_id;
          hotel_id = hotel.hotel_id;
          event_type = envelope.event_type;
          processed_at = none;
        }))
    commit
    apply_new hotel event event_id

  unfoldable pub with_event_id : Hotel → Event → Envelope → Option ℕ → Exec State ℕ
  unfolding dedupe
  with_event_id hotel event envelope none = pure 400
  with_event_id hotel event envelope (some event_id) = do
    seen ← reads (λ d. get event_id d.inbox)
    dedupe hotel event envelope event_id seen

  unfoldable pub validated_event : Hotel → Envelope → Validation → Exec State ℕ
  validated_event hotel envelope (valid event) =
      with_event_id hotel event envelope (parse_uuid envelope.event_id)
  validated_event hotel envelope unknown_event_type = pure 200
  validated_event hotel envelope malformed = pure 400

  unfoldable pub verified : Delivery → Envelope → Option Hotel → Verdict → Exec State ℕ
  verified r envelope hotel (refused e) = pure (auth_status e)
  verified r envelope hotel not_ascii = throw type_error
  verified r envelope none accepted = pure 200
  verified r envelope (some hotel) accepted = validated_event hotel envelope r.validated

  unfoldable pub with_envelope : Delivery → Option Envelope → Exec State ℕ
  unfolding verified
  with_envelope r none = pure 400
  with_envelope r (some envelope) = do
    hotel ← reads (λ d. scalar (has_slug envelope.hotel_id) d.hotels)
    secret ← hotel_secret hotel
    t ← calls now
    verified r envelope hotel (
        verify_webhook_signature O secret r.raw_body r.signature_header r.timestamp_header
          (t / 1000000))

  -- `receive_webhook_event`: the status of the answer.
  unfoldable pub receive_webhook_event : Delivery → Exec State ℕ
  unfolding with_envelope
  receive_webhook_event r = with_envelope r r.envelope
