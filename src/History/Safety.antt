-- ===== src/History/Safety.antt =====
-- The ledger under sequences of actions: whatever is requested, and whatever the hotels and the
-- payment provider answer.
use hotels_aggregator.Prelude.{String, Bool, ◌≡◌, sym, subst, some, List, [], ◌∷◌}
use hotels_aggregator.Table.{get}
use hotels_aggregator.Table.Keyed.{IsKeyed}
use hotels_aggregator.Prelude.Tests.{nat_eq}
use hotels_aggregator.Outside.{Outside}
use hotels_aggregator.Database.{Database}
use hotels_aggregator.Exec.{Exec, World, in_session}
use hotels_aggregator.Exec.Hoare.{Hoare}
use hotels_aggregator.Payment.Gateways.{PaymentGateway}
use hotels_aggregator.Ledger.Evolves.{
  BookingRow, PaymentRow, LedgerEvolves, LedgerEvolves-refl, LedgerEvolves-trans,
}
use hotels_aggregator.Ledger.Sound.{
  IsSound, Safe, Safe-refl, booking_key, payment_key, Paid-evolves,
}
use hotels_aggregator.Webhook.Receiver.{receive_webhook_event}
use hotels_aggregator.Webhook.Safety.{receive-Syncs}
use hotels_aggregator.Sync.Indexer.{SearchIndex}
use hotels_aggregator.Sync.Evolves.{Syncs}
use hotels_aggregator.Orchestrator.Hold.{hold}
use hotels_aggregator.Orchestrator.Confirm.{confirm}
use hotels_aggregator.Orchestrator.Release.{release}
use hotels_aggregator.Orchestrator.Cancel.{cancel}
use hotels_aggregator.HoldWatch.{expire_stale_holds}
use hotels_aggregator.Payment.Webhook.{apply_event}
use hotels_aggregator.Orchestrator.Safety.Holding.{hold-Safe}
use hotels_aggregator.Orchestrator.Safety.Confirming.{confirm-Safe}
use hotels_aggregator.Orchestrator.Safety.Closing.{release-Safe, cancel-Safe}
use hotels_aggregator.Orchestrator.Safety.Background.{expire_stale_holds-Safe, apply_event-Safe}
use hotels_aggregator.History.{
  Action, holding, confirming, releasing, cancelling, expiring, stripe_event, hotel_event, session,
  perform, perform_all,
}

-- What holds of the committed state after a session, or after many.
abbrev pub Kept : {S : Type 0} → World S → World S → Type 0
Kept v w = IsSound w.durable × LedgerEvolves v.durable w.durable

session-Kept :
    {S A : Type 0} (m : Exec S A) (w : World S)
    → ((c : Database) → Hoare (Safe c) m (λ _. Safe c))
    → IsSound w.durable
    → Kept w (session m w)
unfolding session in_session
session-Kept m w h sound =
    let q = (h w.durable).at (record w { db = w.durable }) (Safe-refl w.durable sound) in
    (q.sound_durable, q.evolved_durable)

same_ledger-Evolves :
    (c d : Database) → c.bookings ≡ d.bookings → c.payments ≡ d.payments → LedgerEvolves c d
same_ledger-Evolves c d b p = record {
  bookings = λ k.
      subst (λ t. BookingRow (get k c.bookings) (get k t)) b ((LedgerEvolves-refl c).bookings k);
  payments = λ k.
      subst (λ t. PaymentRow (get k c.payments) (get k t)) p ((LedgerEvolves-refl c).payments k);
}

same_ledger-IsSound :
    (c d : Database) → c.bookings ≡ d.bookings → c.payments ≡ d.payments → IsSound c → IsSound d
same_ledger-IsSound c d b p h = record {
  bookings_keyed = subst (IsKeyed booking_key) b h.bookings_keyed;
  payments_keyed = subst (IsKeyed payment_key) p h.payments_keyed;
  paid = λ k a found q.
      Paid-evolves c d a (same_ledger-Evolves c d b p).payments
        (h.paid k a (subst (λ t. get k t ≡ some a) (sym b) found) q);
}

-- What leaves the bookings and the payments as they are keeps the ledger.
Syncs-Kept : {S : Type 0} (v w : World S) → IsSound v.durable → Syncs v.durable w.durable → Kept v w
Syncs-Kept v w h s = (
  same_ledger-IsSound v.durable w.durable (sym s.business.5) (sym s.business.6) h,
  same_ledger-Evolves v.durable w.durable (sym s.business.5) (sym s.business.6),
)

module _ (O : Outside) (G : PaymentGateway O.State) (I : SearchIndex O.State)
    (contains : String → String → Bool) (dev_secret : String) where
  perform-Kept :
      (a : Action) (w : World O.State)
      → IsSound w.durable
      → Kept w (perform O G I contains dev_secret a w)
  unfolding perform
  perform-Kept (holding a) w = session-Kept (hold O a) w (λ c. hold-Safe O c a)
  perform-Kept (confirming id t token guests) w =
      session-Kept (confirm O G id t token guests) w (λ c. confirm-Safe O c G id t token guests)
  perform-Kept (releasing id t) w = session-Kept (release O id t) w (λ c. release-Safe O c id t)
  perform-Kept (cancelling id t) w = session-Kept (cancel O G id t) w (λ c. cancel-Safe O c G id t)
  perform-Kept expiring w = session-Kept (expire_stale_holds O) w (λ c. expire_stale_holds-Safe O c)
  perform-Kept (stripe_event e) w = session-Kept (apply_event O e) w (λ c. apply_event-Safe O c e)
  perform-Kept (hotel_event r) w = λ h.
      Syncs-Kept w (session (receive_webhook_event O I contains dev_secret r) w) h
        (receive-Syncs O I contains dev_secret r w)

  -- From a sound ledger, every sequence of booking requests, hold expiries, payment webhooks and
  -- deliveries of hotels leads to a sound one: rows stand under their keys, and each confirmed
  -- booking names a payment in the ledger that was made for this booking.
  pub perform_all-IsSound :
      (actions : List Action) (w : World O.State)
      → IsSound w.durable
      → IsSound (perform_all O G I contains dev_secret actions w).durable
  unfolding perform_all
  perform_all-IsSound [] w h = h
  perform_all-IsSound (a ∷ actions) w h =
      perform_all-IsSound actions (perform O G I contains dev_secret a w) (perform-Kept a w h).0

  -- From a sound ledger, such a sequence loses no booking and no payment, rewrites none of their
  -- fixed fields, and moves each status only along the permitted changes.
  pub perform_all-Evolves :
      (actions : List Action) (w : World O.State)
      → IsSound w.durable
      → LedgerEvolves w.durable (perform_all O G I contains dev_secret actions w).durable
  unfolding perform_all
  perform_all-Evolves [] w h = LedgerEvolves-refl w.durable
  perform_all-Evolves (a ∷ actions) w h =
      let step = perform-Kept a w h in
      LedgerEvolves-trans w.durable (perform O G I contains dev_secret a w).durable
        (perform_all O G I contains dev_secret actions
          (perform O G I contains dev_secret a w)).durable
        step.1 (perform_all-Evolves actions (perform O G I contains dev_secret a w) step.0)
