-- ===== src/Reconciliation/Tests.antt =====
-- The jobs of the reconciliation in the sandbox, where the hotel does not answer as asked.
use hotels_aggregator.Prelude.{ℕ, String, Option, some, refl}
use hotels_aggregator.Sandbox.{Sandbox, sandbox}
use hotels_aggregator.History.{session}
use hotels_aggregator.History.Tests.{start_world, index, contains}
use hotels_aggregator.Reconciliation.Health.{Breaker}
use hotels_aggregator.Reconciliation.Jobs.{reconcile_room_types, full_availability_resync}
use hotels_aggregator.Reconciliation.Evolves.{Reconciles}
use hotels_aggregator.Reconciliation.Pages.{reconcile_room_types-Reconciles}
use hotels_aggregator.Reconciliation.Nights.{full_availability_resync-Reconciles}
use hotels_aggregator.Prelude.{zero, suc, none}
use hotels_aggregator.Prelude.Tests.{if◌then◌else◌, ◌==◌, string_eq}
use hotels_aggregator.Json.{Json, object, field, nil, text, member}
use hotels_aggregator.Outside.{Outside}
use hotels_aggregator.Sandbox.{answered}
use hotels_aggregator.Client.{HotelErpClient}

abbrev breaker : Breaker
breaker = record { circuit_breaker_failure_threshold = 5; circuit_breaker_cooldown_seconds = 300 }

abbrev today : Sandbox → ℕ × Sandbox
today s = (99, s)

abbrev day_of : String → Option ℕ
day_of s = some 100

reconcile_room_types-Reconciles_example :
    Reconciles 5 start_world.durable
      (session (reconcile_room_types sandbox breaker 10) start_world).durable
reconcile_room_types-Reconciles_example =
    reconcile_room_types-Reconciles sandbox breaker 10 start_world

full_availability_resync-Reconciles_example :
    Reconciles 5 start_world.durable
      (session
        (full_availability_resync sandbox breaker index contains today day_of)
        start_world).durable
full_availability_resync-Reconciles_example =
    full_availability_resync-Reconciles sandbox breaker index contains today day_of start_world
      (refl, refl, tt)

-- A hotel with three pages: what it sends for a cursor.
abbrev page_for : Option Json → Json
page_for none = object (field "next_cursor" (text "2") nil)
page_for (some (text s)) =
    if s == "2" then object (field "next_cursor" (text "3") nil) else object nil
page_for _ = object nil

abbrev cursor_param : Option Json → Option Json
cursor_param (some (object fs)) = member "cursor" fs
cursor_param _ = none

abbrev paging : Outside
paging = record sandbox { http_request = λ r s. (answered (page_for (cursor_param r.params)), s) }

abbrev client : HotelErpClient
client = record { base_url = "https://erp.example"; api_key = "key" }

abbrev cursors : ℕ → Option String
cursors zero = none
cursors (suc zero) = some "2"
cursors (suc (suc k)) = some "3"
