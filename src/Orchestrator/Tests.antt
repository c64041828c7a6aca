-- ===== src/Orchestrator/Tests.antt =====
-- The theorems on the bookings at concrete ledgers.
use hotels_aggregator.Prelude.{◌≡◌, refl, none, some, [], ◌∷◌}
use hotels_aggregator.Prelude.Tests.{nat_eq}
use hotels_aggregator.Json.{null, int, text}
use hotels_aggregator.Table.{get}
use hotels_aggregator.Models.Bookings.{
  BookingReference, held, confirmed, PaymentTransaction, succeeded,
}
use hotels_aggregator.Database.{Database}
use hotels_aggregator.Exec.{
  World, ok, in_session, ◌>>=◌, subscript, as_text, as_nullable_text, as_int,
}
use hotels_aggregator.Outside.{transport_failure}
use hotels_aggregator.History.{session}
use hotels_aggregator.Json.{member, truthy}
use hotels_aggregator.Table.{put}
use hotels_aggregator.Text.{rstrip_slash, nonempty}
use hotels_aggregator.Client.{from_credential, idem, request, headers, body_of}
use hotels_aggregator.Client.Errors.{raise_for_error}
use hotels_aggregator.Client.Endpoints.{confirm_hold}
use hotels_aggregator.Cache.{get_hold_quote, quote_key}
use hotels_aggregator.Payment.Service.{create_and_capture}
use hotels_aggregator.Orchestrator.Outcome.{confirm-committed}
use hotels_aggregator.Payment.Stripe
use hotels_aggregator.Payment.Mock
use hotels_aggregator.Payment.Recording.{Booked, Charges, create_and_capture-Booked}
use hotels_aggregator.Prelude.Int.{pos}
use hotels_aggregator.Sandbox.{Sandbox, sandbox, answered}
use hotels_aggregator.History.Tests.{start_world, start_database, confirm_answer}
use hotels_aggregator.Orchestrator.Common.{resolve_hotel, get_booking}
use hotels_aggregator.Orchestrator.Confirm.{
  confirm, confirm_held, pay_and_settle, settle, confirm_attempts, try_confirm, confirm_body,
}
use hotels_aggregator.HoldWatch.{expire_stale_holds}
use hotels_aggregator.HoldWatch.Update.{Expiry, expire_stale_holds-Expiry}

abbrev stay : BookingReference
stay = record {
  agg_booking_id = 9;
  traveler_id = 3;
  hotel_id = 7;
  hotel_hold_id = "H9";
  hotel_reservation_id = none;
  global_room_type_id = "grand.double";
  check_in = 100;
  check_out = 102;
  status = held;
  payment_id = none;
  hold_expires_at = 500;
  created_at = 10;
}

abbrev held_database : Database
held_database = record start_database { bookings = record { entries = (9, stay) ∷ [] } }

abbrev held_world : World Sandbox
held_world = record start_world { db = held_database; durable = held_database }

-- The clock is at 1000, and the hold ended at 500.
expire_stale_holds-Expiry_example :
    Expiry 1000
      (get 9 held_database.bookings)
      (get 9 (expire_stale_holds sandbox held_world).1.durable.bookings)
expire_stale_holds-Expiry_example = expire_stale_holds-Expiry sandbox held_world 9 refl

-- The hold is open, the payment goes through, and the hotel is reached at the second attempt.
abbrev open_stay : BookingReference
open_stay = record stay { hold_expires_at = 5000000 }

abbrev open_database : Database
open_database = record start_database { bookings = record { entries = (9, open_stay) ∷ [] } }

abbrev open_world : World Sandbox
open_world = record {
  db = open_database;
  durable = open_database;
  outside = record start_world.outside {
    answers = transport_failure "ConnectTimeout" ∷ answered confirm_answer ∷ [];
  };
}

abbrev confirmed_stay : BookingReference
confirmed_stay = record open_stay {
  status = confirmed;
  hotel_reservation_id = some "R1";
  payment_id = some 40;
}

confirm_run :
    (in_session (confirm sandbox (Stripe.gateway sandbox) 9 3 "pm_1" null) open_world).0
    ≡ ok confirmed_stay
unfolding get put in_session ◌>>=◌ subscript as_text member truthy confirm resolve_hotel get_booking
    rstrip_slash nonempty from_credential idem request headers raise_for_error body_of confirm_hold
    get_hold_quote quote_key confirm_held pay_and_settle create_and_capture settle confirm_attempts
    try_confirm as_nullable_text as_int Stripe.gateway confirm_body
confirm_run = refl

confirm-committed_example :
    (get 9
        (session
          (confirm sandbox (Stripe.gateway sandbox) 9 3 "pm_1" null)
          open_world).durable.bookings
      ≡ some confirmed_stay)
    × (confirmed_stay.status ≡ confirmed)
    × (confirmed_stay.traveler_id ≡ 3)
confirm-committed_example =
    confirm-committed sandbox 9 3 (Stripe.gateway sandbox) "pm_1" null open_world confirmed_stay
      (refl, refl, tt) confirm_run

abbrev payment : PaymentTransaction
payment = record {
  payment_id = 41;
  agg_booking_id = 9;
  amount_minor = pos 12000;
  currency = "USD";
  gateway_ref = "mock-id";
  status = succeeded;
  created_at = 21000;
}

abbrev paid_stay : BookingReference
paid_stay = record open_stay { payment_id = some 41 }

payment_run :
    (create_and_capture sandbox
      (Mock.gateway sandbox)
      open_stay
      (int (pos 12000))
      (text "USD")
      "pm_1"
      open_world).0
    ≡ ok (payment, paid_stay)
unfolding create_and_capture Mock.gateway get put ◌>>=◌ as_int as_text
payment_run = refl

create_and_capture-Booked_example :
    Booked open_stay payment paid_stay
      (create_and_capture sandbox
        (Mock.gateway sandbox)
        open_stay
        (int (pos 12000))
        (text "USD")
        "pm_1"
        open_world).1.durable
    × Charges open_stay (int (pos 12000)) (text "USD") payment
    × ((create_and_capture sandbox
          (Mock.gateway sandbox)
          open_stay
          (int (pos 12000))
          (text "USD")
          "pm_1"
          open_world).1.db
        ≡ (create_and_capture sandbox
            (Mock.gateway sandbox)
            open_stay
            (int (pos 12000))
            (text "USD")
            "pm_1"
            open_world).1.durable)
create_and_capture-Booked_example =
    create_and_capture-Booked sandbox (Mock.gateway sandbox) open_stay (int (pos 12000))
      (text "USD") "pm_1" open_world payment paid_stay payment_run
