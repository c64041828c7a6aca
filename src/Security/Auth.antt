-- ===== src/Security/Auth.antt =====
-- app/security/auth.py: passwords and tokens. bcrypt and jose are parameters.
use hotels_aggregator.Prelude.{ℕ, ◌+◌, ◌*◌, ◌/◌, String, Bool, false, Option, none, some}
use hotels_aggregator.Prelude.Int.{pos}
use hotels_aggregator.Prelude.Tests.{◌==◌, string_eq, if◌then◌else◌}
use hotels_aggregator.Json.{Json, int, text, Fields, nil, field, member, truthy}
use hotels_aggregator.Exceptions.{type_error}
use hotels_aggregator.Outside.{Outside}
use hotels_aggregator.Exec.{Exec, pure, throw, calls, ◌>>=◌}

abbrev pub traveler_scope : String
traveler_scope = "traveler"

abbrev pub hotel_scope : String
hotel_scope = "hotel_portal"

-- `value == expected` where `value` may be anything.
abbrev pub is_text : String → Json → Bool
is_text expected (text s) = s == expected
is_text expected _ = false

-- `payload.get("scope", "traveler")`: a token without a scope is a traveler's.
unfoldable pub scope_of : Fields → Json
scope_of claims = elim (member "scope" claims) [ none ↦ text traveler_scope | some j ↦ j ]

module _ (O : Outside) where
  open O use {
    State, now, uuid_text, parse_uuid, bcrypt_hashpw, bcrypt_checkpw, jwt_encode, jwt_decode,
  }

  unfoldable pub hash_password : String → Exec State String
  hash_password plaintext = calls (bcrypt_hashpw plaintext)

  unfoldable pub verify_password : (plaintext hashed : String) → Bool
  verify_password plaintext hashed = elim (bcrypt_checkpw plaintext hashed) [
    | none ↦ false
    | some b ↦ b
  ]

  -- The claims of a token that is issued at an instant.
  unfoldable pub claims_of :
      (expiry_minutes subject : ℕ) → (email scope : String) → (instant : ℕ) → Fields
  claims_of expiry_minutes subject email scope instant = field "sub" (text (uuid_text subject)) (
      field "email" (text email) (
        field "scope" (text scope) (
          field "iat" (int (pos (instant / 1000000)))
            (field "exp" (int (pos ((instant + expiry_minutes * 60000000) / 1000000))) nil))))

  unfoldable pub create_access_token :
      (expiry_minutes subject : ℕ) → (email scope : String) → Exec State String
  create_access_token expiry_minutes subject email scope = do
    t ← calls now
    pure (jwt_encode (claims_of expiry_minutes subject email scope t))

  unfoldable pub create_hotel_access_token :
      (expiry_minutes hotel_user_id : ℕ) → (email : String) → Exec State String
  create_hotel_access_token expiry_minutes hotel_user_id email =
      create_access_token expiry_minutes hotel_user_id email hotel_scope

  -- `uuid.UUID(sub)`; what is no text has no `replace`.
  unfoldable pub uuid_of : Json → Exec State (Option ℕ)
  uuid_of (text s) = pure (parse_uuid s)
  uuid_of _ = throw type_error

  unfoldable pub subject_of : Option Json → Exec State (Option ℕ)
  unfolding uuid_of
  subject_of none = pure none
  subject_of (some sub) = if truthy sub then uuid_of sub else pure none

  unfoldable pub checked_subject : (expected_scope : String) → Option Fields → Exec State (Option ℕ)
  unfolding subject_of
  checked_subject expected_scope none = pure none
  checked_subject expected_scope (some claims) =
      if is_text expected_scope (scope_of claims)
      then subject_of (member "sub" claims)
      else pure none

  -- `_decode_subject`
  unfoldable pub decode_subject : (token expected_scope : String) → Exec State (Option ℕ)
  unfolding checked_subject
  decode_subject token expected_scope = do
    claims ← calls (jwt_decode token)
    checked_subject expected_scope claims

  unfoldable pub decode_access_token : String → Exec State (Option ℕ)
  unfolding decode_subject
  decode_access_token token = decode_subject token traveler_scope

  unfoldable pub decode_hotel_access_token : String → Exec State (Option ℕ)
  unfolding decode_subject
  decode_hotel_access_token token = decode_subject token hotel_scope
