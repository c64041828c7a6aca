-- ===== src/Reconciliation/Health.antt =====
-- app/workers/reconciliation.py: the sync health of a hotel and its circuit breaker.
use hotels_aggregator.Prelude.{ℕ, ◌+◌, String, Bool, false, Option, none, some}
use hotels_aggregator.Prelude.Tests.{nat_eq, leb, if◌then◌else◌}
use hotels_aggregator.Text.{◌<>◌, nonempty}
use hotels_aggregator.Table.{get, put}
use hotels_aggregator.Models.Hotels.{SyncHealth, healthy, degraded, down, new_sync_health}
use hotels_aggregator.Outside.{Outside}
use hotels_aggregator.Database.{Database}
use hotels_aggregator.Exec.{Exec, pure, reads, calls, tells, modifies, commit, ◌>>=◌, ◌>>◌}

-- The settings of the circuit breaker.
pub record Breaker : Type 0 where
  pub circuit_breaker_failure_threshold : ℕ
  pub circuit_breaker_cooldown_seconds : ℕ

-- How the job leaves a hotel: done or skipped, out of pages to read, or failed and rolled back.
pub data Turn : Type 0 where
  finished unfinished rolled_back : Turn

abbrev pub write_health : ℕ → SyncHealth → Database → Database
write_health hotel_id sh d = record d { sync_health = put hotel_id sh d.sync_health }

-- The row after one more failure.
unfoldable pub failed_row : (threshold : ℕ) → SyncHealth → SyncHealth
failed_row threshold sh = record sh {
  consecutive_failures = sh.consecutive_failures + 1;
  status = if leb threshold (sh.consecutive_failures + 1) then down else degraded;
}

-- The row after a run that came through.
unfoldable pub succeeded_row : (now : ℕ) → SyncHealth → SyncHealth
succeeded_row now sh = record sh {
  consecutive_failures = 0;
  status = healthy;
  last_reconciliation_at = some now;
}

abbrev is_set : Option String → Bool
is_set none = false
is_set (some s) = nonempty s

module _ (O : Outside) (B : Breaker) where
  open O use {State, now, uuid_text, redis_get, redis_set, redis_delete}

  unfoldable pub circuit_key : ℕ → String
  circuit_key hotel_id = "circuit:" <> uuid_text hotel_id

  -- `_circuit_open`
  unfoldable pub circuit_open : ℕ → Exec State Bool
  circuit_open hotel_id = do value ← calls (redis_get (circuit_key hotel_id)); pure (is_set value)

  unfoldable pub fail_row : ℕ → Option SyncHealth → Exec State (Unit {0})
  fail_row hotel_id none = pure tt
  fail_row hotel_id (some sh) = do
    modifies (write_health hotel_id (failed_row B.circuit_breaker_failure_threshold sh))
    if leb B.circuit_breaker_failure_threshold (sh.consecutive_failures + 1)
        then tells (redis_set (circuit_key hotel_id) "1" B.circuit_breaker_cooldown_seconds)
        else pure tt
    commit

  -- `_record_failure`
  unfoldable pub record_failure : ℕ → Exec State (Unit {0})
  unfolding fail_row
  record_failure hotel_id = do sh ← reads (λ d. get hotel_id d.sync_health); fail_row hotel_id sh

  -- `_record_success`, on the row that the session holds.
  unfoldable pub record_success : ℕ → SyncHealth → Exec State (Unit {0})
  record_success hotel_id sh = do
    t ← calls now
    modifies (write_health hotel_id (succeeded_row t sh))
    commit
    tells (redis_delete (circuit_key hotel_id))

  unfoldable pub health_or_new : ℕ → Option SyncHealth → Exec State SyncHealth
  health_or_new hotel_id (some sh) = pure sh
  health_or_new hotel_id none = do
    modifies (write_health hotel_id (new_sync_health hotel_id))
    commit
    pure (new_sync_health hotel_id)

  -- `_get_sync_health`
  unfoldable pub get_sync_health : ℕ → Exec State SyncHealth
  unfolding health_or_new
  get_sync_health hotel_id = do
    sh ← reads (λ d. get hotel_id d.sync_health)
    health_or_new hotel_id sh
