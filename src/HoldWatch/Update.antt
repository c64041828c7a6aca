-- ===== src/HoldWatch/Update.antt =====
-- app/workers/hold_watch.py: what the job writes.
use hotels_aggregator.Prelude.{
  ℕ, ◌≤◌, ◌≡◌, ◌⊎◌, refl, true, false, Option, none, some, inl, inr, arith, ◌&&◌, subst,
}
use hotels_aggregator.Prelude.Tests.{nat_eq, leb, leb→le, Bool-cases}
use hotels_aggregator.Table.{get}
use hotels_aggregator.Table.Laws.{get-update_where, updated}
use hotels_aggregator.Models.Bookings.{
  BookingReference, BookingReferenceStatus, held, expired, is_held,
}
use hotels_aggregator.Outside.{Outside}
use hotels_aggregator.Exec.{World, in_session, ◌>>=◌}
use hotels_aggregator.HoldWatch.{is_stale, expire, expire_stale_holds}

-- A row before and after a run at an instant: a held one whose time has come has the status
-- `expired` and is otherwise the same, and any other is the same.
abbrev pub Expiry : ℕ → (before after : Option BookingReference) → Type 0
Expiry t none after = after ≡ none
Expiry t (some b) after =
    ((b.status ≡ held) × (b.hold_expires_at ≤ t) × (after ≡ some (record b { status = expired })))
    ⊎ (¬ ((b.status ≡ held) × (b.hold_expires_at ≤ t)) × (after ≡ some b))

stale_only :
    (s : BookingReferenceStatus) (t e : ℕ)
    → ((is_held s && leb e t) ≡ true → (s ≡ held) × (e ≤ t))
      × ((is_held s && leb e t) ≡ false → ¬ ((s ≡ held) × (e ≤ t)))
stale_only held t e = (λ h. (refl, leb→le e t h), λ h p. still h p.1)
  where
    still : leb e t ≡ false → e ≤ t → ⊥
    still h l = ground arith
stale_only _ t e = (λ h. absurd (cc h), λ h p. cc (p.0))

updated-Expiry : (t : ℕ) (o : Option BookingReference) → Expiry t o (updated (is_stale t) expire o)
unfolding is_stale
updated-Expiry t none = refl
updated-Expiry t (some b) =
    let only = stale_only b.status t b.hold_expires_at in
    elim (Bool-cases (is_stale t b)) [
      | inl e ↦ rw e (inl ((only.0 e).0, (only.0 e).1, refl))
      | inr e ↦ rw e (inr (only.1 e, refl))
    ]

module _ (O : Outside) where
  open O use {State, now}

  -- The job commits, for every booking that is held and whose time has come at the job's clock, the
  -- row with the status `expired`; every other booking has the row that it had, and no row is made;
  -- the session starts at the committed state.
  pub expire_stale_holds-Expiry :
      (w : World State) (id : ℕ)
      → w.db ≡ w.durable
      → Expiry
          (now w.outside).0
          (get id w.durable.bookings)
          (get id (expire_stale_holds O w).1.durable.bookings)
  unfolding expire_stale_holds in_session ◌>>=◌
  expire_stale_holds-Expiry w id fresh =
      let t = (now w.outside).0 in
      rw (get-update_where (is_stale t) expire id w.db.bookings) (
        subst
          (λ d. Expiry t (get id d.bookings) (updated (is_stale t) expire (get id w.db.bookings)))
          fresh (updated-Expiry t (get id w.db.bookings)))
