-- ===== src/History/Tests.antt =====
-- Runs of the booking flow in the sandbox, and the theorems at them.
use hotels_aggregator.Prelude.{
  ℕ, String, Bool, ◌≡◌, refl, Option, none, some, List, [], ◌∷◌, true, false,
}
use hotels_aggregator.Prelude.Int.{pos}
use hotels_aggregator.Json.{Json, int, text, object, field, nil, null}
use hotels_aggregator.Table.{get, put}
use hotels_aggregator.Prelude.Tests.{nat_eq}
use hotels_aggregator.Json.{member, truthy}
use hotels_aggregator.Table.{scalar, exists, rows, update_where}
use hotels_aggregator.Webhook.Schema.{room_type_deleted, valid}
use hotels_aggregator.Webhook.Verify.{verify_webhook_signature}
use hotels_aggregator.Text.{strip_prefix}
use hotels_aggregator.Sync.Engine.{dispatch_event, delete_room_type}
use hotels_aggregator.Webhook.Receiver.{
  Delivery, receive_webhook_event, hotel_secret, has_slug, secret_of, validated_event,
  with_event_id, apply_new, dispatched, mark_processed,
}
use hotels_aggregator.Sync.Indexer.{SearchIndex}
use hotels_aggregator.Exec.{in_session, ◌>>=◌, subscript, as_text, as_nullable_text, as_int}
use hotels_aggregator.Database.{same_hold}
use hotels_aggregator.Text.{replace_z, rstrip_slash, nonempty}
use hotels_aggregator.Client.{from_credential, idem, request, headers, body_of}
use hotels_aggregator.Client.Errors.{raise_for_error}
use hotels_aggregator.Client.Endpoints.{create_hold, confirm_hold, cancel_reservation}
use hotels_aggregator.Cache.{store_hold_quote, get_hold_quote, quote_key}
use hotels_aggregator.Payment.Service.{create_and_capture, refund}
use hotels_aggregator.Payment.Webhook.{apply_event}
use hotels_aggregator.Orchestrator.Common.{resolve_hotel, parse_dt, get_booking}
use hotels_aggregator.Orchestrator.Hold.{hold, hold_body}
use hotels_aggregator.Orchestrator.Confirm.{
  confirm, confirm_held, pay_and_settle, settle, confirm_attempts, try_confirm, confirm_body,
}
use hotels_aggregator.Orchestrator.Release.{set_status}
use hotels_aggregator.Orchestrator.Cancel.{cancel, cancel_reserved, refund_percentage, succeeded_of}
use hotels_aggregator.HoldWatch.{expire_stale_holds, is_stale}
use hotels_aggregator.History.{session}
use hotels_aggregator.Models.Hotels.{Hotel, HotelCredential, active}
use hotels_aggregator.Models.Indexes.{RoomTypeIndex}
use hotels_aggregator.Models.Bookings.{BookingReferenceStatus, cancelled}
use hotels_aggregator.Database.{Database, empty_database}
use hotels_aggregator.Outside.{HttpOutcome, StripeOutcome, object as stripe_object}
use hotels_aggregator.Exec.{World}
use hotels_aggregator.Payment.Gateways.{PaymentGateway}
use hotels_aggregator.Payment.Stripe
use hotels_aggregator.Ledger.Evolves.{LedgerEvolves}
use hotels_aggregator.Ledger.Sound.{IsSound}
use hotels_aggregator.Orchestrator.Hold.{HoldArgs}
use hotels_aggregator.Sandbox.{Sandbox, sandbox, answered}
use hotels_aggregator.History.{
  Action, holding, confirming, cancelling, expiring, stripe_event, hotel_event, perform_all,
}
use hotels_aggregator.History.Safety.{perform_all-IsSound, perform_all-Evolves}

abbrev hotel : Hotel
hotel = record {
  hotel_id = 7;
  slug = "grand";
  legal_name = "Grand Ltd";
  display_name = "Grand";
  city = "Kampala";
  country = "UG";
  lat = none;
  lon = none;
  star_rating = some (pos 4);
  photos = [];
  status = active;
  created_at = 0;
}

abbrev credential : HotelCredential
credential = record {
  hotel_id = 7;
  api_base_url = "https://erp.example/";
  api_key_encrypted = "key";
  oauth_client_id = none;
  webhook_secret_encrypted = "secret";
  hold_ttl_seconds_default = pos 300;
}

abbrev room_type : RoomTypeIndex
room_type = record {
  global_room_type_id = "grand.double";
  hotel_id = 7;
  name = "Double";
  description = none;
  max_occupancy_adults = pos 2;
  max_occupancy_children = pos 1;
  amenities = [];
  photos = [];
  active = true;
  updated_at = 0;
}

abbrev pub start_database : Database
start_database = record empty_database {
  hotels = record { entries = (7, hotel) ∷ [] };
  credentials = record { entries = (7, credential) ∷ [] };
  room_types = record { entries = ("grand.double", room_type) ∷ [] };
}

abbrev pub stay_args : HoldArgs
stay_args = record {
  traveler_id = 3;
  global_room_type_id = "grand.double";
  rate_plan_code = "BAR";
  check_in = 100;
  check_out = 102;
  rooms_requested = 1;
  adults = 2;
  children = 0;
}

abbrev hold_answer : Json
hold_answer = object (
    field "hold_id" (text "H1") (
      field "expires_at" (text "2026-01-01T00:15:00Z")
        (field "total_amount_minor" (int (pos 12000)) (field "currency" (text "USD") nil))))

abbrev pub confirm_answer : Json
confirm_answer = object (field "reservation_id" (text "R1") nil)

abbrev cancel_answer : Json
cancel_answer = object (field "refund_percentage" (int (pos 50)) nil)

abbrev script : List HttpOutcome
script = answered hold_answer ∷ answered confirm_answer ∷ answered cancel_answer ∷ []

abbrev charges : List StripeOutcome
charges =
    stripe_object "pi_1" "requires_capture"
    ∷ stripe_object "pi_1" "succeeded"
    ∷ stripe_object "re_1" "succeeded"
    ∷ []

abbrev pub start_world : World Sandbox
start_world = record {
  db = start_database;
  durable = start_database;
  outside = record {
    clock = 1000;
    next_id = 40;
    answers = script;
    charges = charges;
    sent = [];
    captured = [];
    broken = false;
  };
}

abbrev pub index : SearchIndex Sandbox
index = record { index_doc = λ id doc s. s; update_by_room_type = λ id active fields s. s }

abbrev pub contains : String → String → Bool
contains marker shouted = false

-- The digest of the sandbox is the secret itself.
abbrev pub delivery : Delivery
delivery = record {
  raw_body = "{}";
  signature_header = some "sha256=secret";
  timestamp_header = some "1";
  envelope = some (record { event_id = "e"; event_type = "room_type.deleted"; hotel_id = "grand" });
  validated = valid (room_type_deleted "grand.double");
}

-- A booking is held, confirmed and cancelled; the ids are counted from 40, and the hold takes two.
abbrev actions : List Action
actions =
    holding stay_args
    ∷ confirming 41 3 "pm_1" null
    ∷ expiring
    ∷ cancelling 41 3
    ∷ stripe_event none
    ∷ hotel_event delivery
    ∷ []

abbrev gateway : PaymentGateway Sandbox
gateway = Stripe.gateway sandbox

start-IsSound : IsSound start_database
unfolding get
start-IsSound = record {
  bookings_keyed = tt;
  payments_keyed = tt;
  paid = λ k b found c. absurd (cc found);
}

-- From a sound ledger, with a booking confirmed and then cancelled.
perform_all-IsSound_example :
    IsSound (perform_all sandbox gateway index contains "dev" actions start_world).durable
perform_all-IsSound_example =
    perform_all-IsSound sandbox gateway index contains "dev" actions start_world start-IsSound

perform_all-Evolves_example :
    LedgerEvolves start_database
      (perform_all sandbox gateway index contains "dev" actions start_world).durable
perform_all-Evolves_example =
    perform_all-Evolves sandbox gateway index contains "dev" actions start_world start-IsSound

status_at : ℕ → Database → Option BookingReferenceStatus
status_at k d = elim (get k d.bookings) [ none ↦ none | some b ↦ some (b.status) ]

the_end :
    status_at 41 (perform_all sandbox gateway index contains "dev" actions start_world).durable
    ≡ some cancelled
unfolding status_at get put scalar exists rows update_where perform_all session in_session ◌>>=◌
    subscript as_text member truthy same_hold hold confirm cancel expire_stale_holds apply_event
    resolve_hotel parse_dt get_booking replace_z rstrip_slash nonempty from_credential idem request
    headers raise_for_error body_of create_hold confirm_hold cancel_reservation store_hold_quote
    get_hold_quote quote_key confirm_held pay_and_settle create_and_capture settle confirm_attempts
    try_confirm set_status as_nullable_text as_int cancel_reserved refund_percentage succeeded_of
    is_stale refund Stripe.gateway hold_body confirm_body receive_webhook_event hotel_secret
    has_slug secret_of verify_webhook_signature strip_prefix validated_event with_event_id apply_new
    dispatched dispatch_event delete_room_type mark_processed
the_end = refl
