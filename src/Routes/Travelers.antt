-- ===== src/Routes/Travelers.antt =====
-- app/api/routes/travelers.py: the accounts of the travelers.
pub mod Taken
pub mod Own
use hotels_aggregator.Prelude.{ℕ, String, Bool, false, Option, none, some, List, map, ◌&&◌, not}
use hotels_aggregator.Prelude.Tests.{◌==◌, nat_eq, string_eq, if◌then◌else◌}
use hotels_aggregator.Table.{get, put, scalar, exists, select}
use hotels_aggregator.Models.Hotels.{TravelerAccount}
use hotels_aggregator.Models.Bookings.{BookingReference}
use hotels_aggregator.Exceptions.{integrity_error}
use hotels_aggregator.Outside.{Outside}
use hotels_aggregator.Database.{Database}
use hotels_aggregator.Exec.{Exec, pure, throw, reads, calls, modifies, commit, ◌>>=◌, ◌>>◌}
use hotels_aggregator.Schemas.Travelers.{
  TravelerRegister, TravelerLogin, TokenResponse, token_response, TravelerOut, traveler_out,
  TravelerUpdate, PasswordChange,
}
use hotels_aggregator.Schemas.Bookings.{BookingOut, booking_out}
use hotels_aggregator.Schemas.Hotels.{HotelOut, hotel_out}
use hotels_aggregator.Security.Auth.{
  create_access_token, hash_password, verify_password, traveler_scope,
}
use hotels_aggregator.Security.Deps.{http_error, unauthorized, get_current_traveler}
use hotels_aggregator.Routes.Common.{assigned, assigned_some, latest_first, hotel_of_slug}

abbrev pub has_email : String → TravelerAccount → Bool
has_email email t = t.email == email

abbrev pub write_traveler : TravelerAccount → Database → Database
write_traveler t d = record d { travelers = put t.traveler_id t d.travelers }

-- `traveler_account.email` is unique: another row has the email of the one that is written.
unfoldable pub email_taken : TravelerAccount → TravelerAccount → Bool
email_taken t row = (row.email == t.email) && not (row.traveler_id == t.traveler_id)

module _ (O : Outside) (jwt_expiry_minutes : ℕ) where
  open O use {State, uuid4}

  -- The flush of a new or a changed row.
  unfoldable pub flush_traveler : TravelerAccount → Exec State (Unit {0})
  flush_traveler t = do
    refused ← reads (λ d. exists (email_taken t) d.travelers)
    if refused then throw integrity_error else modifies (write_traveler t)

  abbrev pub token_for : TravelerAccount → Exec State TokenResponse
  token_for t = do
    token ← create_access_token O jwt_expiry_minutes t.traveler_id t.email traveler_scope
    pure (token_response token)

  -- The new account: its id must be new.
  unfoldable pub add_traveler : TravelerAccount → Option TravelerAccount → Exec State TokenResponse
  unfolding flush_traveler
  add_traveler t (some _) = throw integrity_error
  add_traveler t none = do flush_traveler t; commit; token_for t

  abbrev pub new_traveler : TravelerRegister → (id : ℕ) → (hashed : String) → TravelerAccount
  new_traveler p id hashed = record {
    traveler_id = id;
    name = p.name;
    email = p.email;
    phone = p.phone;
    hashed_password = hashed;
  }

  unfoldable pub register_new : TravelerRegister → Option TravelerAccount → Exec State TokenResponse
  unfolding add_traveler
  register_new p (some _) = throw (http_error 409 "Email already registered")
  register_new p none = do
    hashed ← hash_password O p.password
    id ← calls uuid4
    taken ← reads (λ d. get id d.travelers)
    add_traveler (new_traveler p id hashed) taken

  -- `register`
  unfoldable pub register : TravelerRegister → Exec State TokenResponse
  unfolding register_new
  register p = do
    existing ← reads (λ d. scalar (has_email p.email) d.travelers)
    register_new p existing

  unfoldable pub checked_login : TravelerLogin → Option TravelerAccount → Exec State TokenResponse
  checked_login p none = throw (unauthorized "Invalid credentials")
  checked_login p (some t) =
      if verify_password O p.password t.hashed_password
      then token_for t
      else throw (unauthorized "Invalid credentials")

  -- `login`
  unfoldable pub login : TravelerLogin → Exec State TokenResponse
  unfolding checked_login
  login p = do
    traveler ← reads (λ d. scalar (has_email p.email) d.travelers)
    checked_login p traveler

  -- `me`
  unfoldable pub me : (credentials : Option String) → Exec State TravelerOut
  me credentials = do traveler ← get_current_traveler O credentials; pure (traveler_out traveler)

  unfoldable pub updated : TravelerUpdate → TravelerAccount → TravelerAccount
  updated p t = record t {
    name = assigned p.name t.name;
    email = assigned p.email t.email;
    phone = assigned_some p.phone t.phone;
  }

  -- `payload.email is not None and payload.email != traveler.email`
  unfoldable pub is_new_email : Option String → TravelerAccount → Bool
  is_new_email none t = false
  is_new_email (some email) t = not (email == t.email)

  unfoldable pub update_unless :
      TravelerUpdate → TravelerAccount → Option TravelerAccount → Exec State TravelerOut
  unfolding flush_traveler updated
  update_unless p t (some _) = throw (http_error 409 "Email already registered")
  update_unless p t none = do
    flush_traveler (updated p t)
    commit
    pure (traveler_out (updated p t))

  unfoldable pub update_traveler : TravelerUpdate → TravelerAccount → Exec State TravelerOut
  unfolding update_unless is_new_email
  update_traveler p t =
      if is_new_email p.email t
      then reads (λ d. scalar (has_email (assigned p.email t.email)) d.travelers)
        >>= update_unless p t
      else update_unless p t none

  -- `update_me`
  unfoldable pub update_me : TravelerUpdate → (credentials : Option String) → Exec State TravelerOut
  unfolding update_traveler
  update_me p credentials = get_current_traveler O credentials >>= update_traveler p

  unfoldable pub set_password : PasswordChange → TravelerAccount → Exec State (Unit {0})
  unfolding flush_traveler
  set_password p t =
      if verify_password O p.current_password t.hashed_password
      then (do
        hashed ← hash_password O p.new_password
        flush_traveler (record t { hashed_password = hashed })
        commit)
      else throw (unauthorized "Current password is incorrect")

  -- `change_password`
  unfoldable pub change_password :
      PasswordChange → (credentials : Option String) → Exec State (Unit {0})
  unfolding set_password
  change_password p credentials = get_current_traveler O credentials >>= set_password p

  abbrev pub belongs_to : ℕ → BookingReference → Bool
  belongs_to traveler_id b = b.traveler_id == traveler_id

  -- `my_bookings`
  unfoldable pub my_bookings : (credentials : Option String) → Exec State (List BookingOut)
  my_bookings credentials = do
    traveler ← get_current_traveler O credentials
    rows ← reads (λ d. select (belongs_to traveler.traveler_id) d.bookings)
    pure (map booking_out (latest_first (λ b. b.created_at) rows))

  -- `hotel_detail`
  unfoldable pub hotel_detail : (slug : String) → Exec State HotelOut
  hotel_detail slug = do hotel ← hotel_of_slug slug; pure (hotel_out hotel)
