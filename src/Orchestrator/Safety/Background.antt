-- ===== src/Orchestrator/Safety/Background.antt =====
-- app/workers/hold_watch.py and app/api/routes/payments.py: the job that expires holds and the
-- receiver of Stripe's webhooks keep the ledger safe.
use hotels_aggregator.Prelude.{
  ℕ, String, arith, ◌≡◌, refl, subst, true, Option, none, some, inl, inr,
}
use mathlib.Core.Option.{some-injective}
use hotels_aggregator.Prelude.Tests.{◌==◌, nat_eq, string_eq, Bool-cases}
use hotels_aggregator.Text.{nonempty}
use hotels_aggregator.Json.{Json, text, object, truthy, member}
use hotels_aggregator.Table.{get, scalar, update_where}
use hotels_aggregator.Table.Laws.{get-update_where, updated}
use hotels_aggregator.Table.Keyed.{scalar-get, update_where-IsKeyed}
use hotels_aggregator.Models.Bookings.{
  BookingReference, BookingReferenceStatus, PaymentTransaction, PaymentStatus, held, confirmed,
  expired, is_held, failed, refunded,
}
use hotels_aggregator.Outside.{Outside}
use hotels_aggregator.Database.{Database}
use hotels_aggregator.Exec.{Exec, pure, in_session}
use hotels_aggregator.Exec.Keeps.{Keeps-calls, Keeps-subscript, Keeps-as_text}
use hotels_aggregator.Exec.Hoare.{
  Hoare, Frozen-stable, Frozen-ignores, Hoare-past, Hoare-reads, Hoare-throw, Hoare-pure,
  Hoare-modifies, Hoare-bind, Hoare-commit_last, Hoare-if,
}
use hotels_aggregator.Payment.Webhook.{
  has_ref, mark_found, mark_payment_status, mark_refunded, on_refund, handle_event, apply_event,
  receive_stripe_webhook,
}
use hotels_aggregator.Ledger.Evolves.{
  StatusReach, BookingEvolves, BookingEvolves-refl, BookingRow, PaymentReach, PaymentEvolves,
  PaymentRow-refl, LedgerEvolves-trans,
}
use hotels_aggregator.Ledger.Sound.{Safe, Safe-commit, Safe-write_payment, booking_key, payment_key}
use hotels_aggregator.HoldWatch.{is_stale, expire, expire_stale_holds}

stale_held : (s : BookingReferenceStatus) → is_held s ≡ true → StatusReach s expired
stale_held held h = StatusReach.run_out
stale_held _ h = absurd (cc h)

is_stale-held : (t : ℕ) (b : BookingReference) → is_stale t b ≡ true → is_held b.status ≡ true
unfolding is_stale
is_stale-held t b h = ground arith

expire-Evolves : (b : BookingReference) → StatusReach b.status expired → BookingEvolves b (expire b)
expire-Evolves b h = record {
  same_id = refl;
  same_traveler = refl;
  same_hotel = refl;
  same_hold = refl;
  same_room_type = refl;
  same_check_in = refl;
  same_check_out = refl;
  same_expiry = refl;
  moves = h;
}

expired-row : (t : ℕ) (o : Option BookingReference) → BookingRow o (updated (is_stale t) expire o)
expired-row t none = tt
expired-row t (some b) = elim (Bool-cases (is_stale t b)) [
  | inl e ↦ rw e (expire-Evolves b (stale_held b.status (is_stale-held t b e)))
  | inr e ↦ rw e (BookingEvolves-refl b)
]

-- A row that is confirmed after the update was so before.
confirmed_before :
    (t : ℕ) (o : Option BookingReference) (a : BookingReference)
    → updated (is_stale t) expire o ≡ some a
    → a.status ≡ confirmed
    → o ≡ some a
confirmed_before t none a h c = absurd (cc h)
confirmed_before t (some b) a h c = elim (Bool-cases (is_stale t b)) [
  | inl e ↦ absurd (cc (ap_status (some-injective _ _ (rw e at h)), c))
  | inr e ↦ rw e at h
]
  where
    ap_status : expire b ≡ a → a.status ≡ expired
    ap_status p = subst (λ x. x.status ≡ expired) p refl

expire-Safe :
    (c d u : Database) (t : ℕ)
    → Safe c d u
    → Safe c (record d { bookings = update_where (is_stale t) expire d.bookings }) u
expire-Safe c d u t h = record {
  sound = record {
    bookings_keyed =
        update_where-IsKeyed booking_key (is_stale t) expire d.bookings (λ b. refl)
          h.sound.bookings_keyed;
    payments_keyed = h.sound.payments_keyed;
    paid = λ k a found c.
        h.sound.paid k a
          (confirmed_before t (get k d.bookings) a
            (rw (get-update_where (is_stale t) expire k d.bookings) at found) c)
          c;
  };
  sound_durable = h.sound_durable;
  evolved = LedgerEvolves-trans c d _ h.evolved (record {
    bookings = λ k.
        rw (get-update_where (is_stale t) expire k d.bookings) (expired-row t (get k d.bookings));
    payments = λ k. PaymentRow-refl (get k d.payments);
  });
  evolved_durable = h.evolved_durable;
}

module _ (O : Outside) (c : Database) where
  open O use {State}

  in_session-Safe :
      {A : Type 0} (m : Exec State A)
      → Hoare (Safe c) m (λ _. Safe c)
      → Hoare (Safe c) (in_session m) (λ _. Safe c)
  unfolding in_session
  in_session-Safe m h = record {
    at = λ w p.
        let q = h.at w p in
        record {
          sound = q.sound_durable;
          sound_durable = q.sound_durable;
          evolved = q.evolved_durable;
          evolved_durable = q.evolved_durable;
        };
  }

  pub expire_stale_holds-Safe : Hoare (Safe c) (expire_stale_holds O) (λ _. Safe c)
  unfolding expire_stale_holds
  expire_stale_holds-Safe =
      Hoare-past _ _ (Keeps-calls Frozen-ignores _) (λ e d u h. h)
        (λ t. in_session-Safe _ (
          Hoare-modifies (Safe c) _ _ (λ d u h. expire-Safe c d u t h)
            (Hoare-commit_last (λ d u h. Safe-commit c d u h))))

  mark_found-Safe :
      (ref : String) (status : PaymentStatus) (found : Option PaymentTransaction)
      → ((s : PaymentStatus) → PaymentReach s status)
      → Hoare
          (λ d u. Safe c d u × (scalar (has_ref ref) d.payments ≡ found))
          (mark_found O status found)
          (λ _. Safe c)
  unfolding mark_found
  mark_found-Safe ref status none moves = Hoare-pure tt (λ d u h. h.0)
  mark_found-Safe ref status (some p) moves =
      Hoare-modifies (Safe c) _ _
        (λ d u h.
          Safe-write_payment c d u (record p { status = status }) h.0
            (rw (scalar-get payment_key (has_ref ref) d.payments p h.0.sound.payments_keyed h.1)
              marked))
        (Hoare-commit_last (λ d u h. Safe-commit c d u h))
    where
      marked : PaymentEvolves p (record p { status = status })
      marked = record {
        same_id = refl;
        same_booking = refl;
        same_amount = refl;
        same_currency = refl;
        same_ref = refl;
        moves = moves p.status;
      }

  mark_payment_status-Safe :
      (ref : String) (status : PaymentStatus)
      → ((s : PaymentStatus) → PaymentReach s status)
      → Hoare (Safe c) (mark_payment_status O ref status) (λ _. Safe c)
  unfolding mark_payment_status
  mark_payment_status-Safe ref status moves =
      Hoare-reads _ _ (λ found. mark_found-Safe ref status found moves)

  mark_refunded-Safe : (o : Option Json) → Hoare (Safe c) (mark_refunded O o) (λ _. Safe c)
  unfolding mark_refunded
  mark_refunded-Safe none = Hoare-pure tt (λ d u h. h)
  mark_refunded-Safe (some j) =
      Hoare-if (truthy j) _ (pure tt)
        (λ _.
          Hoare-past _ _ (Keeps-as_text Frozen-stable _) (λ e d u h. h)
            (λ ref. mark_payment_status-Safe ref refunded (λ s. PaymentReach.pay_back)))
        (λ _. Hoare-pure tt (λ d u h. h))

  on_refund-Safe : (j : Json) → Hoare (Safe c) (on_refund O j) (λ _. Safe c)
  unfolding on_refund
  on_refund-Safe (object fs) = mark_refunded-Safe (member "payment_intent" fs)
  on_refund-Safe _ = Hoare-throw _ (λ d u h. h)

  handle_event-Safe :
      (j event_type : Json) → Hoare (Safe c) (handle_event O j event_type) (λ _. Safe c)
  unfolding handle_event
  handle_event-Safe j (text t) =
      Hoare-if (t == "payment_intent.payment_failed") _ _
        (λ _.
          Hoare-past _ _ (Keeps-subscript Frozen-stable _ _) (λ e d u h. h)
            (λ id.
              Hoare-past _ _ (Keeps-as_text Frozen-stable _) (λ e d u h. h)
                (λ ref. mark_payment_status-Safe ref failed (λ s. PaymentReach.fail))))
        (λ _.
          Hoare-if (t == "charge.refunded") (on_refund O j) (pure tt) (λ _. on_refund-Safe j)
            (λ _. Hoare-pure tt (λ d u h. h)))
  handle_event-Safe j _ = Hoare-pure tt (λ d u h. h)

  pub apply_event-Safe : (o : Option Json) → Hoare (Safe c) (apply_event O o) (λ _. Safe c)
  unfolding apply_event
  apply_event-Safe none = Hoare-pure 401 (λ d u h. h)
  apply_event-Safe (some event) =
      Hoare-past _ _ (Keeps-subscript Frozen-stable _ _) (λ e d u h. h)
        (λ data_.
          Hoare-past _ _ (Keeps-subscript Frozen-stable _ _) (λ e d u h. h)
            (λ j.
              Hoare-past _ _ (Keeps-subscript Frozen-stable _ _) (λ e d u h. h)
                (λ t.
                  Hoare-bind (λ _. Safe c) _ _ (handle_event-Safe j t) (λ e d u h. h)
                    (λ _. Hoare-pure 200 (λ d u h. h)))))

  pub stripe_webhook-Safe :
      (construct : String → Option String → String → Option Json) (secret : Option String)
      (raw : String) (signature : Option String)
      → Hoare (Safe c) (receive_stripe_webhook O construct secret raw signature) (λ _. Safe c)
  unfolding receive_stripe_webhook
  stripe_webhook-Safe construct none raw signature = Hoare-pure 200 (λ d u h. h)
  stripe_webhook-Safe construct (some secret) raw signature =
      Hoare-if (nonempty secret) (apply_event O (construct raw signature secret)) (pure 200)
        (λ _. apply_event-Safe (construct raw signature secret)) (λ _. Hoare-pure 200 (λ d u h. h))
