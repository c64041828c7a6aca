-- ===== src/Security/Tests.antt =====
-- The theorems on tokens at tokens that are issued and read.
use hotels_aggregator.Prelude.{arith, ◌≡◌, ◌≢◌, refl, some, none, String}
use hotels_aggregator.Json.{member}
use hotels_aggregator.Models.Hotels.{TravelerAccount, HotelUser, owner}
use hotels_aggregator.Outside.{Outside}
use hotels_aggregator.Exec.{ok, ◌>>=◌}
use hotels_aggregator.Sandbox.{sandbox}
use hotels_aggregator.History.Tests.{start_world}
use hotels_aggregator.Security.Auth.{claims_of, create_access_token, decode_subject}
use hotels_aggregator.Security.Deps.{get_current_traveler, get_current_hotel_user}
use hotels_aggregator.Security.Scopes.{scopes_disjoint, token-roundtrip}

abbrev ann : TravelerAccount
ann = record {
  traveler_id = 77;
  name = "Ann";
  email = "ann@example.org";
  phone = none;
  hashed_password = "pw";
}

abbrev staff : HotelUser
staff = record {
  hotel_user_id = 77;
  hotel_id = 7;
  name = "Bob";
  email = "bob@example.org";
  hashed_password = "pw";
  role = owner;
}

scopes_disjoint_example : ¬ (
    ((get_current_traveler sandbox (some "traveler") start_world).0 ≡ ok ann)
    × ((get_current_hotel_user sandbox (some "traveler") start_world).0 ≡ ok staff))
scopes_disjoint_example = scopes_disjoint sandbox (some "traveler") ann staff start_world

-- A library whose token is the scope, read back with the other claims as they were issued.
abbrev reading : Outside
reading = record sandbox {
  jwt_decode = λ token s.
      (some (claims_of sandbox 60 77 "ann@example.org" token start_world.outside.clock), s);
}

token-roundtrip_example :
    ((decode_subject reading "traveler" "traveler" start_world).0 ≡ ok (some 77))
    × ((other : String)
        → "traveler" ≢ other
        → (decode_subject reading "traveler" other start_world).0 ≡ ok none)
unfolding create_access_token claims_of member ◌>>=◌
token-roundtrip_example =
    token-roundtrip reading 60 77 "ann@example.org" "traveler" "traveler" start_world start_world
      (λ s u h. refl) refl (λ e. absurd (cc e)) refl (omega arith)
