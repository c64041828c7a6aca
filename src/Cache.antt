-- ===== src/Cache.antt =====
-- app/cache.py: the quote of a hold, kept in Redis under the booking's id.
use hotels_aggregator.Prelude.{ℕ, String, Option, none, some, max}
use hotels_aggregator.Prelude.Tests.{if◌then◌else◌}
use hotels_aggregator.Text.{◌<>◌, nonempty}
use hotels_aggregator.Json.{Json}
use hotels_aggregator.Exceptions.{value_error}
use hotels_aggregator.Outside.{Outside}
use hotels_aggregator.Exec.{Exec, pure, calls, tells, some_or, ◌>>=◌}

module _ (O : Outside) where
  open O use {State, uuid_text, redis_get, redis_set, dumps, loads}

  unfoldable pub quote_key : ℕ → String
  quote_key agg_booking_id = "hold_quote:" <> uuid_text agg_booking_id

  unfoldable pub store_hold_quote : ℕ → Json → (ttl_seconds : ℕ) → Exec State (Unit {0})
  store_hold_quote agg_booking_id quote ttl_seconds =
      tells (redis_set (quote_key agg_booking_id) (dumps quote) (max ttl_seconds 60))

  -- `json.loads(raw) if raw else None`
  unfoldable pub read_quote : Option String → Exec State (Option Json)
  read_quote none = pure none
  read_quote (some raw) =
      if nonempty raw then (do j ← some_or value_error (loads raw); pure (some j)) else pure none

  unfoldable pub get_hold_quote : ℕ → Exec State (Option Json)
  unfolding read_quote
  get_hold_quote agg_booking_id = do
    raw ← calls (redis_get (quote_key agg_booking_id))
    read_quote raw
