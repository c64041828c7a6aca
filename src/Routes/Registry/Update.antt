-- ===== src/Routes/Registry/Update.antt =====
-- app/api/routes/hotels_admin.py: `update_hotel`.
use hotels_aggregator.Prelude.{ℕ, String, Option, none, some}
use hotels_aggregator.Prelude.Tests.{◌==◌, string_eq, nat_eq, if◌then◌else◌}
use hotels_aggregator.Table.{get, put}
use hotels_aggregator.Models.Hotels.{
  Hotel, HotelCredential, HotelStatus, onboarding, active, suspended,
}
use hotels_aggregator.Outside.{Outside}
use hotels_aggregator.Database.{Database}
use hotels_aggregator.Exec.{Exec, pure, reads, calls, modifies, commit, some_or, ◌>>=◌, ◌>>◌}
use hotels_aggregator.Schemas.Hotels.{HotelUpdate, HotelOut, hotel_out}
use hotels_aggregator.Security.Deps.{http_error}
use hotels_aggregator.Routes.Common.{assigned, assigned_some, hotel_of_slug}
use hotels_aggregator.Routes.Portal.{write_hotel}

-- `HotelStatus(payload.status)`; `none` is ValueError
unfoldable pub status_of : String → Option HotelStatus
status_of s =
    if s == "onboarding"
    then some onboarding
    else if s == "active"
    then some active
    else if s == "suspended"
    then some suspended
    else none

abbrev pub write_credential_of : ℕ → HotelCredential → Database → Database
write_credential_of hotel_id c d = record d { credentials = put hotel_id c d.credentials }

module _ (O : Outside) where
  open O use {State, upper, encrypt_secret}

  abbrev upper_of : Option String → Option String
  upper_of none = none
  upper_of (some s) = some (upper s)

  -- The assignments to the hotel, but for its status.
  unfoldable pub details : HotelUpdate → Hotel → Hotel
  details p h = record h {
    legal_name = assigned p.legal_name h.legal_name;
    display_name = assigned p.display_name h.display_name;
    city = assigned p.city h.city;
    lat = assigned_some p.lat h.lat;
    lon = assigned_some p.lon h.lon;
    star_rating = assigned_some p.star_rating h.star_rating;
    country = assigned (upper_of p.country) h.country;
  }

  unfoldable pub with_status : Option String → Hotel → Exec State Hotel
  with_status none h = pure h
  with_status (some s) h = do
    status ← some_or (http_error 400 "Invalid status") (status_of s)
    pure (record h { status = status })

  -- `encrypt_secret(value)` in place of the old ciphertext, if there is a value.
  unfoldable pub reencrypted : Option String → (old : String) → Exec State String
  reencrypted none old = pure old
  reencrypted (some value) old = calls (encrypt_secret value)

  unfoldable pub update_credential :
      HotelUpdate → ℕ → Option HotelCredential → Exec State (Unit {0})
  unfolding reencrypted
  update_credential p hotel_id none = pure tt
  update_credential p hotel_id (some cred) = do
    api_key ← reencrypted p.api_key cred.api_key_encrypted
    webhook_secret ← reencrypted p.webhook_secret cred.webhook_secret_encrypted
    modifies (
        write_credential_of hotel_id (record cred {
          api_base_url = assigned p.api_base_url cred.api_base_url;
          api_key_encrypted = api_key;
          webhook_secret_encrypted = webhook_secret;
          hold_ttl_seconds_default =
              assigned p.hold_ttl_seconds_default cred.hold_ttl_seconds_default;
        }))

  -- `update_hotel`
  unfoldable pub update_hotel : (slug : String) → HotelUpdate → Exec State HotelOut
  unfolding with_status update_credential
  update_hotel slug p = do
    found ← hotel_of_slug slug
    hotel ← with_status p.status (details p found)
    modifies (write_hotel hotel)
    cred ← reads (λ d. get hotel.hotel_id d.credentials)
    update_credential p hotel.hotel_id cred
    commit
    pure (hotel_out hotel)
