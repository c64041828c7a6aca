-- ===== src/Schemas/Travelers.antt =====
-- app/schemas/api.py: travelers and reviews.
use hotels_aggregator.Prelude.{ℕ, String, Option}
use hotels_aggregator.Models.Hotels.{TravelerAccount}
use hotels_aggregator.Models.Bookings.{Review}

pub record TravelerRegister : Type 0 where
  pub name : String
  pub email : String
  pub phone : Option String
  pub password : String

pub record TravelerLogin : Type 0 where
  pub email : String
  pub password : String

pub record TokenResponse : Type 0 where
  pub access_token : String
  pub token_type : String

pub record TravelerOut : Type 0 where
  pub traveler_id : ℕ
  pub name : String
  pub email : String
  pub phone : Option String

pub record TravelerUpdate : Type 0 where
  pub name : Option String
  pub email : Option String
  pub phone : Option String

pub record PasswordChange : Type 0 where
  pub current_password : String
  pub new_password : String

pub record ReviewCreate : Type 0 where
  pub agg_booking_id : ℕ
  pub rating : ℕ
  pub comment : Option String

pub record ReviewOut : Type 0 where
  pub review_id : ℕ
  pub agg_booking_id : ℕ
  pub hotel_id : ℕ
  pub rating : ℕ
  pub comment : Option String
  pub created_at : ℕ

-- `TokenResponse(access_token=...)`
abbrev pub token_response : String → TokenResponse
token_response token = record { access_token = token; token_type = "bearer" }

-- The answer of `me` and of `update_me`.
abbrev pub traveler_out : TravelerAccount → TravelerOut
traveler_out t = record {
  traveler_id = t.traveler_id;
  name = t.name;
  email = t.email;
  phone = t.phone;
}

-- `_to_out` of the reviews
abbrev pub review_out : Review → ReviewOut
review_out r = record {
  review_id = r.review_id;
  agg_booking_id = r.agg_booking_id;
  hotel_id = r.hotel_id;
  rating = r.rating;
  comment = r.comment;
  created_at = r.created_at;
}
