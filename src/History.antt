-- ===== src/History.antt =====
-- The service as a sequence of requests and jobs over one database: the booking routes of
-- app/services/orchestrator.py, the job of app/workers/hold_watch.py, the Stripe webhook of
-- app/api/routes/payments.py and the hotels' webhook of app/main.py. Each runs in a session of its own, one after the other.
pub mod Safety
pub mod Tests
use hotels_aggregator.Prelude.{ℕ, String, Bool, Option, List, [], ◌∷◌}
use hotels_aggregator.Json.{Json}
use hotels_aggregator.Outside.{Outside}
use hotels_aggregator.Webhook.Receiver.{Delivery, receive_webhook_event}
use hotels_aggregator.Sync.Indexer.{SearchIndex}
use hotels_aggregator.Exec.{Exec, World, in_session}
use hotels_aggregator.Payment.Gateways.{PaymentGateway}
use hotels_aggregator.Payment.Webhook.{apply_event}
use hotels_aggregator.Orchestrator.Hold.{HoldArgs, hold}
use hotels_aggregator.Orchestrator.Confirm.{confirm}
use hotels_aggregator.Orchestrator.Release.{release}
use hotels_aggregator.Orchestrator.Cancel.{cancel}
use hotels_aggregator.HoldWatch.{expire_stale_holds}

pub data Action : Type 0 where
  holding : HoldArgs → Action
  confirming :
      (agg_booking_id traveler_id : ℕ) → (payment_method_token : String) → (guests : Json) → Action
  releasing : (agg_booking_id traveler_id : ℕ) → Action
  cancelling : (agg_booking_id traveler_id : ℕ) → Action
  expiring : Action
  -- the verified event of a Stripe webhook, or a body whose signature fails
  stripe_event : Option Json → Action
  -- a delivery to the webhook endpoint of the hotels
  hotel_event : Delivery → Action

-- A session of its own: it begins at the committed state, and what it does not commit is lost.
-- app/db/session.py: `get_session`.
unfoldable pub session : {S A : Type 0} → Exec S A → World S → World S
session m w = (in_session m (record w { db = w.durable })).1

module _ (O : Outside) (G : PaymentGateway O.State) (I : SearchIndex O.State)
    (contains : String → String → Bool) (dev_secret : String) where
  unfoldable pub perform : Action → World O.State → World O.State
  unfolding session
  perform (holding a) = session (hold O a)
  perform (confirming id traveler_id token guests) =
      session (confirm O G id traveler_id token guests)
  perform (releasing id traveler_id) = session (release O id traveler_id)
  perform (cancelling id traveler_id) = session (cancel O G id traveler_id)
  perform expiring = session (expire_stale_holds O)
  perform (stripe_event event) = session (apply_event O event)
  perform (hotel_event r) = session (receive_webhook_event O I contains dev_secret r)

  unfoldable pub perform_all : List Action → World O.State → World O.State
  unfolding perform
  perform_all [] w = w
  perform_all (a ∷ as_) w = perform_all as_ (perform a w)
