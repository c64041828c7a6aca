-- ===== src/Orchestrator/Common.antt =====
-- app/services/orchestrator.py: what the operations share.
use hotels_aggregator.Prelude.{ℕ, String, Option, none, some}
use hotels_aggregator.Prelude.Tests.{◌!=◌, nat_eq, string_eq, if◌then◌else◌}
use hotels_aggregator.Text.{◌<>◌, replace_z}
use hotels_aggregator.Table.{get}
use hotels_aggregator.Models.Hotels.{Hotel, HotelCredential}
use hotels_aggregator.Models.Bookings.{BookingReference}
use hotels_aggregator.Exceptions.{
  Exn, orchestrator_error, value_error, HotelErpKind, hotel_unavailable,
}
use hotels_aggregator.Outside.{Outside}
use hotels_aggregator.Exec.{Exec, pure, throw, reads, some_or, ◌>>=◌}

abbrev pub orchestrator : (code message : String) (status : ℕ) → Exn
orchestrator code message status =
    orchestrator_error (record { code = code; message = message; status = status })

abbrev pub booking_not_found : Exn
booking_not_found = orchestrator "NOT_FOUND" "Booking not found" 404

module _ (O : Outside) where
  open O use {State, parse_datetime}

  -- `_parse_dt`
  unfoldable pub parse_dt : String → Exec State ℕ
  parse_dt value = some_or value_error (parse_datetime (replace_z value))

  -- `hotel is None or cred is None`
  abbrev pub both_found :
      Option Hotel → Option HotelCredential → Exec State (Hotel × HotelCredential)
  both_found (some hotel) (some cred) = pure (hotel, cred)
  both_found _ _ = throw (orchestrator "NOT_FOUND" "Hotel or credential not configured" 404)

  -- `_resolve_hotel`
  unfoldable pub resolve_hotel : String → Exec State (Hotel × HotelCredential)
  resolve_hotel global_room_type_id = do
    found ← reads (λ d. get global_room_type_id d.room_types)
    rt ← some_or (orchestrator "NOT_FOUND" ("Unknown room type " <> global_room_type_id) 404) found
    hotel ← reads (λ d. get rt.hotel_id d.hotels)
    cred ← reads (λ d. get rt.hotel_id d.credentials)
    both_found hotel cred

  -- `_get_booking`: a booking of another traveler is not found.
  unfoldable pub own_booking : ℕ → Option BookingReference → Exec State BookingReference
  own_booking traveler_id none = throw booking_not_found
  own_booking traveler_id (some b) =
      if b.traveler_id != traveler_id then throw booking_not_found else pure b

  unfoldable pub get_booking : (agg_booking_id traveler_id : ℕ) → Exec State BookingReference
  unfolding own_booking
  get_booking agg_booking_id traveler_id = do
    found ← reads (λ d. get agg_booking_id d.bookings)
    own_booking traveler_id found

-- `except HotelERPUnavailable`
abbrev pub on_unavailable {ℓ} : {A : Type ℓ} → HotelErpKind → A → A → A
on_unavailable hotel_unavailable yes_ no_ = yes_
on_unavailable _ yes_ no_ = no_
