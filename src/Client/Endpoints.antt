-- ===== src/Client/Endpoints.antt =====
-- app/clients/hotel_erp_client.py: the endpoints.
use hotels_aggregator.Prelude.{ℕ, String, Option, none, some}
use hotels_aggregator.Prelude.Int.{pos}
use hotels_aggregator.Prelude.Tests.{if◌then◌else◌}
use hotels_aggregator.Text.{◌<>◌, nonempty}
use hotels_aggregator.Json.{Json, int, text, object, nil, field, Fields}
use hotels_aggregator.Outside.{Outside}
use hotels_aggregator.Exec.{Exec, ◌>>=◌}
use hotels_aggregator.Client.{HotelErpClient, request, idem}

-- `if value: params[key] = value`
abbrev with_param : String → Option String → Fields → Fields
with_param k none fs = fs
with_param k (some v) fs = if nonempty v then field k (text v) fs else fs

module _ (O : Outside) where
  open O use {State}

  unfoldable pub list_room_types :
      HotelErpClient → (updated_since cursor : Option String) → (limit : ℕ) → Exec State Json
  list_room_types c updated_since cursor limit =
      request O c "GET" "/room-types"
        (some (
          object (
            field "limit" (int (pos limit))
              (with_param "updated_since" updated_since (with_param "cursor" cursor nil)))))
        none none

  unfoldable pub get_availability :
      HotelErpClient
      → (room_type_id check_in check_out : String) → (rooms adults children : ℕ) → Exec State Json
  get_availability c room_type_id check_in check_out rooms adults children =
      request O c "GET" "/availability"
        (some (
          object (
            field "room_type_id" (text room_type_id) (
              field "check_in" (text check_in) (
                field "check_out" (text check_out) (
                  field "rooms" (int (pos rooms)) (
                    field "adults" (int (pos adults))
                      (field "children" (int (pos children)) nil))))))))
        none none

  unfoldable pub create_hold : HotelErpClient → Json → Option String → Exec State Json
  create_hold c body key = do
    k ← idem O key
    request O c "POST" "/reservations/hold" none (some body) (some k)

  unfoldable pub confirm_hold : HotelErpClient → String → Json → Option String → Exec State Json
  confirm_hold c hold_id body key = do
    k ← idem O key
    request O c "POST" ("/reservations/" <> hold_id <> "/confirm") none (some body) (some k)

  unfoldable pub release_hold : HotelErpClient → String → Option String → Exec State Json
  release_hold c hold_id key = do
    k ← idem O key
    request O c "POST" ("/reservations/" <> hold_id <> "/release") none none (some k)

  unfoldable pub cancel_reservation : HotelErpClient → String → Option String → Exec State Json
  cancel_reservation c reservation_id key = do
    k ← idem O key
    request O c "POST" ("/reservations/" <> reservation_id <> "/cancel") none none (some k)
