-- ===== src/HoldWatch.antt =====
-- app/workers/hold_watch.py: the job that expires stale holds.
pub mod Update
use hotels_aggregator.Prelude.{ℕ, Bool, ◌&&◌}
use hotels_aggregator.Prelude.Tests.{leb}
use hotels_aggregator.Table.{update_where}
use hotels_aggregator.Models.Bookings.{BookingReference, expired, is_held}
use hotels_aggregator.Outside.{Outside}
use hotels_aggregator.Exec.{Exec, calls, modifies, commit, in_session, ◌>>=◌, ◌>>◌}

-- The `where` clause of the update.
unfoldable pub is_stale : ℕ → BookingReference → Bool
is_stale now b = is_held b.status && leb b.hold_expires_at now

abbrev pub expire : BookingReference → BookingReference
expire b = record b { status = expired }

module _ (O : Outside) where
  open O use {State, now}

  unfoldable pub expire_stale_holds : Exec State (Unit {0})
  expire_stale_holds = do
    t ← calls now
    in_session (do
      modifies (λ d. record d { bookings = update_where (is_stale t) expire d.bookings })
      commit)
