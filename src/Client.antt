-- ===== src/Client.antt =====
-- app/clients/hotel_erp_client.py: the client of one hotel's ERP. The HTTP library is
-- `Outside.http_request`; the per-call timeout is an option of that library and is not modelled.
pub mod Errors
pub mod Endpoints
pub mod Frozen
pub mod Classes
pub mod Tests
use hotels_aggregator.Prelude.{
  ℕ, String, Bool, true, false, ◌||◌, Option, none, some, List, [], ◌∷◌, ◌++◌,
}
use hotels_aggregator.Prelude.Int.{ℤ, pos}
use hotels_aggregator.Prelude.Tests.{nat_beq, if◌then◌else◌}
use hotels_aggregator.Text.{◌<>◌, nonempty, rstrip_slash}
use hotels_aggregator.Json.{Json, null, int, text, object, nil, field}
use hotels_aggregator.Exceptions.{Exn, hotel_erp_error, invalid_token, value_error}
use hotels_aggregator.Outside.{
  Outside, HttpRequest, HttpOutcome, response, transport_failure, Response, Content, no_content,
  not_json, json_body,
}
use hotels_aggregator.Models.Hotels.{HotelCredential}
use hotels_aggregator.Exec.{Exec, pure, throw, calls, some_or, ◌>>=◌, ◌>>◌}
use Errors.{unavailable, raise_for_error}

pub record HotelErpClient : Type 0 where
  pub base_url : String
  pub api_key : String

-- `HotelERPClient.__init__`
abbrev pub new_client : String → String → HotelErpClient
new_client api_base_url api_key = record { base_url = rstrip_slash api_base_url; api_key = api_key }

unfoldable pub headers : HotelErpClient → Option String → List (String × String)
headers c idempotency_key =
    ("Authorization", "Bearer " <> c.api_key)
    ∷ ("Accept", "application/json")
    ∷ (elim idempotency_key [
      | none ↦ []
      | some k ↦ if nonempty k then ("Idempotency-Key", k) ∷ [] else []
    ])

module _ (O : Outside) where
  open O use {State, http_request, uuid4, uuid_text, decrypt_secret}

  -- `HotelERPClient.from_credential`
  unfoldable pub from_credential : HotelCredential → Exec State HotelErpClient
  from_credential cred = do
    key ← some_or invalid_token (decrypt_secret cred.api_key_encrypted)
    pure (new_client cred.api_base_url key)

  unfoldable pub content_of : Content → Exec State Json
  content_of no_content = pure null
  content_of not_json = throw value_error
  content_of (json_body j) = pure j

  -- What `_request` returns for a successful response.
  unfoldable pub body_of : Response → Exec State Json
  unfolding content_of
  body_of r = if nat_beq r.status_code 204 then pure null else content_of r.content

  unfoldable pub receive : String → HttpOutcome → Exec State Json
  receive url (transport_failure name) =
      throw (hotel_erp_error (unavailable (text (name <> " calling " <> url)) 503))
  receive url (response r) = raise_for_error O r >> body_of r

  -- `HotelERPClient._request`
  unfoldable pub request :
      HotelErpClient
      → (method path : String) → (params json : Option Json) → Option String
      → Exec State Json
  unfolding receive
  request c method path params json idempotency_key = do
    outcome ← calls (
        http_request (record {
          method = method;
          url = c.base_url <> path;
          params = params;
          json = json;
          headers = headers c idempotency_key;
        }))
    receive (c.base_url <> path) outcome

  -- `HotelERPClient._idem`: `key or str(uuid.uuid4())`
  unfoldable pub idem : Option String → Exec State String
  idem none = do u ← calls uuid4; pure (uuid_text u)
  idem (some k) = if nonempty k then pure k else (do u ← calls uuid4; pure (uuid_text u))
