-- ===== src/Security/Deps.antt =====
-- app/api/deps.py: the authenticated traveler, hotel user or administrator of a request.
use hotels_aggregator.Prelude.{ℕ, String, Option, none, some}
use hotels_aggregator.Prelude.Tests.{◌==◌, nat_eq, string_eq, if◌then◌else◌}
use hotels_aggregator.Text.{nonempty}
use hotels_aggregator.Table.{get}
use hotels_aggregator.Models.Hotels.{TravelerAccount, HotelUser}
use hotels_aggregator.Exceptions.{Exn, http_exception, plain, type_error}
use hotels_aggregator.Outside.{Outside}
use hotels_aggregator.Exec.{Exec, pure, throw, reads, some_or, ◌>>=◌}
use hotels_aggregator.Webhook.Verify.{is_ascii}
use hotels_aggregator.Security.Auth.{decode_access_token, decode_hotel_access_token}

-- `HTTPException(status, detail="...")`
abbrev pub http_error : (status : ℕ) (detail : String) → Exn
http_error status detail = http_exception (record { status_code = status; detail = plain detail })

abbrev pub unauthorized : String → Exn
unauthorized detail = http_error 401 detail

module _ (O : Outside) where
  open O use {State}

  -- The token of `Authorization: Bearer`, which must not be missing or empty.
  unfoldable pub bearer_token : Option String → Exec State String
  bearer_token none = throw (unauthorized "Missing bearer token")
  bearer_token (some token) =
      if nonempty token then pure token else throw (unauthorized "Missing bearer token")

  unfoldable pub get_current_traveler : (credentials : Option String) → Exec State TravelerAccount
  unfolding bearer_token
  get_current_traveler credentials = do
    token ← bearer_token credentials
    decoded ← decode_access_token O token
    traveler_id ← some_or (unauthorized "Invalid or expired token") decoded
    traveler ← reads (λ d. get traveler_id d.travelers)
    some_or (unauthorized "Unknown traveler") traveler

  unfoldable pub get_current_hotel_user : (credentials : Option String) → Exec State HotelUser
  unfolding bearer_token
  get_current_hotel_user credentials = do
    token ← bearer_token credentials
    decoded ← decode_hotel_access_token O token
    hotel_user_id ← some_or (unauthorized "Invalid or expired token") decoded
    hotel_user ← reads (λ d. get hotel_user_id d.hotel_users)
    some_or (unauthorized "Unknown hotel user") hotel_user

  -- `hmac.compare_digest` on texts, which must be ASCII.
  unfoldable pub compare_key : (provided expected : String) → Exec State (Unit {0})
  compare_key provided expected =
      if is_ascii provided
      then (if is_ascii expected
          then (if provided == expected
              then pure tt
              else throw (unauthorized "Missing or invalid admin API key"))
          else throw type_error)
      else throw type_error

  unfoldable pub require_admin :
      (admin_api_key : String) → (x_admin_api_key : Option String) → Exec State (Unit {0})
  unfolding compare_key
  require_admin admin_api_key none = throw (unauthorized "Missing or invalid admin API key")
  require_admin admin_api_key (some key) =
      if nonempty key
      then compare_key key admin_api_key
      else throw (unauthorized "Missing or invalid admin API key")
