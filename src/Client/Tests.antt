-- ===== src/Client/Tests.antt =====
-- The theorem on the answers of a hotel, at one answer.
use hotels_aggregator.Prelude.{◌≡◌, ◌↔◌, ◌≤◌, ◌<◌}
use hotels_aggregator.Exceptions.{HotelErpError, hotel_erp_error}
use hotels_aggregator.Outside.{Response, no_content}
use hotels_aggregator.Exec.{ok, raised}
use hotels_aggregator.Client.Errors.{raise_for_error}
use hotels_aggregator.Client.Classes.{Tells, raise_for_error-Tells}
use hotels_aggregator.Sandbox.{sandbox}
use hotels_aggregator.History.Tests.{start_world}

abbrev bad_gateway : Response
bad_gateway = record { status_code = 502; content = no_content }

raise_for_error-Tells_example :
    (((raise_for_error sandbox bad_gateway start_world).0 ≡ ok tt) ↔ ((200 ≤ 502) × (502 < 300)))
    × ((e : HotelErpError)
        → (raise_for_error sandbox bad_gateway start_world).0 ≡ raised (hotel_erp_error e)
        → Tells 502 e)
raise_for_error-Tells_example = raise_for_error-Tells sandbox bad_gateway start_world
