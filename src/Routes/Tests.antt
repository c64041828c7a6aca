-- ===== src/Routes/Tests.antt =====
-- The theorems on the endpoints at requests in the sandbox.
use hotels_aggregator.Prelude.{String, Bool, true, Option, none, some, [], ◌∷◌, ◌≡◌, refl}
use hotels_aggregator.Prelude.Int.{pos}
use hotels_aggregator.Models.Hotels.{HotelUser, Promotion, TravelerAccount, owner}
use hotels_aggregator.Database.{Database}
use hotels_aggregator.Exec.{World}
use hotels_aggregator.Sandbox.{Sandbox, sandbox}
use hotels_aggregator.History.Tests.{start_world, start_database}
use hotels_aggregator.Schemas.Hotels.{PromotionUpdate}
use hotels_aggregator.Routes.Portal.Safety.{updating, serve, OwnOutcome, serve-Own}
use hotels_aggregator.Prelude.{◌≢◌, inl, inr}
use hotels_aggregator.Prelude.Tests.{string_eq, nat_eq, Bool-cases, beq_eq}
use hotels_aggregator.Table.{get}
use hotels_aggregator.Text.{nonempty}
use hotels_aggregator.Exceptions.{Exn}
use hotels_aggregator.Exec.{raised}
use hotels_aggregator.Models.Bookings.{BookingReference, confirmed}
use hotels_aggregator.Webhook.Verify.{is_ascii}
use hotels_aggregator.History.{session}
use hotels_aggregator.Schemas.Hotels.{HotelCreate}
use hotels_aggregator.Schemas.Travelers.{
  TravelerRegister, TravelerUpdate, PasswordChange, ReviewCreate,
}
use hotels_aggregator.Security.Deps.{get_current_traveler}
use hotels_aggregator.Security.Sessions.{start, Admitted}
use hotels_aggregator.Routes.Travelers.{register, update_me, change_password}
use hotels_aggregator.Routes.Travelers.Taken.{Conflicts, taken_email-Conflicts}
use hotels_aggregator.Routes.Travelers.Own.{OwnAccount, account_writes-Own}
use hotels_aggregator.Routes.Reviews.{create_review}
use hotels_aggregator.Routes.Reviews.Own.{Reviewed, create_review-Own}
use hotels_aggregator.Routes.Registry.{create_hotel, as_admin}
use hotels_aggregator.Routes.Registry.Create.{WholeOrNothing, create_hotel-WholeOrNothing}
use hotels_aggregator.Routes.Registry.Guard.{as_admin-guards}
use mathlib.Core.Option.{some-injective}
use hotels_aggregator.Prelude.{subst}
use hotels_aggregator.Prelude.Tests.{KeyEq, ◌==◌, string_eq}
use hotels_aggregator.Routes.Registry.Delete.{delete_hotel}
use hotels_aggregator.Routes.Registry.Removal.{HasHotel, IsReferential}
use hotels_aggregator.Routes.Registry.Deletion.{GoneOrNothing, delete_hotel-GoneOrNothing}
use hotels_aggregator.Json.{Json, text, member, truthy}
use hotels_aggregator.Exec.{ok, ◌>>=◌}
use hotels_aggregator.Payment.Stripe
use hotels_aggregator.Schemas.Bookings.{ConfirmRequest}
use hotels_aggregator.Security.Auth.{scope_of, decode_access_token}
use hotels_aggregator.Routes.Bookings.{confirm_booking, release_booking, cancel_booking}
use hotels_aggregator.Routes.Bookings.Foreign.{IsNotFound, endpoints-foreign}

abbrev staff : HotelUser
staff = record {
  hotel_user_id = 77;
  hotel_id = 7;
  name = "Bob";
  email = "bob@example.org";
  hashed_password = "pw";
  role = owner;
}

abbrev offer : Promotion
offer = record {
  promotion_id = 5;
  hotel_id = 7;
  title = "Summer";
  description = none;
  discount_percentage = record { mantissa = pos 10; exponent = 0 };
  starts_on = 100;
  ends_on = 110;
  active = true;
}

abbrev ann : TravelerAccount
ann = record {
  traveler_id = 77;
  name = "Ann";
  email = "ann@example.org";
  phone = none;
  hashed_password = "pw";
}

abbrev database : Database
database = record start_database {
  hotel_users = record { entries = (77, staff) ∷ [] };
  promotions = record { entries = (5, offer) ∷ [] };
  travelers = record { entries = (77, ann) ∷ [] };
}

abbrev world : World Sandbox
world = record start_world { db = database; durable = database }

abbrev retitle : PromotionUpdate
retitle = record {
  title = some "Autumn";
  description = none;
  discount_percentage = none;
  starts_on = none;
  ends_on = none;
  active = none;
}

abbrev by_order : String → String → Bool
by_order a b = true

serve-Own_example :
    OwnOutcome sandbox by_order
      (some "hotel_portal")
      world
      (serve sandbox by_order (updating 5 retitle) (some "hotel_portal") world)
serve-Own_example =
    serve-Own sandbox by_order (updating 5 retitle) (some "hotel_portal") world
      (record { hotels_keyed = (refl, refl, tt); promotions_keyed = (refl, refl, tt) })

-- Eve has an account, and Ann asks for her email.
abbrev eve : TravelerAccount
eve = record ann { traveler_id = 78; email = "eve@example.org" }

abbrev two_accounts : World Sandbox
two_accounts = record world {
  db = record database { travelers = record { entries = (77, ann) ∷ (78, eve) ∷ [] } };
}

logged_in : (get_current_traveler sandbox (some "traveler") two_accounts).0 ≡ ok ann
unfolding get_current_traveler decode_access_token get member truthy scope_of nonempty ◌>>=◌
logged_in = refl

abbrev account_of_eve : TravelerRegister
account_of_eve = record {
  name = "Eve";
  email = "eve@example.org";
  phone = none;
  password = "12345678";
}

abbrev email_of_eve : TravelerUpdate
email_of_eve = record { name = none; email = some "eve@example.org"; phone = none }

taken_email-Conflicts_example :
    Conflicts (register sandbox 60 account_of_eve) two_accounts
    × Conflicts (update_me sandbox 60 email_of_eve (some "traveler")) two_accounts
unfolding get
taken_email-Conflicts_example =
    taken_email-Conflicts sandbox 60 account_of_eve email_of_eve (some "traveler") 78 ann eve
      two_accounts refl refl refl
      (λ e. cc ((string_eq.equal_iff "eve@example.org" "ann@example.org").1 e)) logged_in

abbrev profile_change : TravelerUpdate
profile_change = record { name = some "Anna"; email = none; phone = none }

abbrev password_change : PasswordChange
password_change = record { current_password = "pw"; new_password = "87654321" }

account_writes-Own_example :
    OwnAccount sandbox 60
      (some "traveler")
      world
      (session (update_me sandbox 60 profile_change (some "traveler")) world)
    × OwnAccount sandbox 60
        (some "traveler")
        world
        (session (change_password sandbox 60 password_change (some "traveler")) world)
account_writes-Own_example =
    account_writes-Own sandbox 60 (some "traveler") world profile_change password_change

abbrev stay : BookingReference
stay = record {
  agg_booking_id = 9;
  traveler_id = 77;
  hotel_id = 7;
  hotel_hold_id = "H1";
  hotel_reservation_id = some "R1";
  global_room_type_id = "grand.double";
  check_in = 100;
  check_out = 102;
  status = confirmed;
  payment_id = none;
  hold_expires_at = 0;
  created_at = 0;
}

abbrev booked : World Sandbox
booked = record world {
  durable = record database { bookings = record { entries = (9, stay) ∷ [] } };
}

abbrev praise : ReviewCreate
praise = record { agg_booking_id = 9; rating = 5; comment = none }

create_review-Own_example :
    Admitted
      (get_current_traveler sandbox (some "traveler"))
      (λ t. Reviewed t booked.durable)
      booked
      (session (create_review sandbox praise (some "traveler")) booked)
create_review-Own_example = create_review-Own sandbox praise (some "traveler") booked

abbrev lodge : HotelCreate
lodge = record {
  slug = "lodge";
  legal_name = "Lodge Ltd";
  display_name = "Lodge";
  city = "Jinja";
  country = "ug";
  lat = none;
  lon = none;
  star_rating = none;
  api_base_url = "https://lodge.example";
  api_key = "key2";
  webhook_secret = "secret2";
  oauth_client_id = none;
  hold_ttl_seconds_default = pos 300;
}

create_hotel-WholeOrNothing_example :
    WholeOrNothing sandbox lodge world.durable
      (create_hotel sandbox lodge (start world)).0
      (create_hotel sandbox lodge (start world)).1.durable
create_hotel-WholeOrNothing_example = create_hotel-WholeOrNothing sandbox lodge world (λ s x. refl)

as_admin-guards_example :
    (as_admin sandbox "admin" (some "admin") (create_hotel sandbox lodge) world
      ≡ create_hotel sandbox lodge world)
    × ((header : Option String)
        → header ≢ some "admin"
        → (e : Exn) × (as_admin sandbox "admin" header (create_hotel sandbox lodge) world
            ≡ (raised e, world)))
unfolding nonempty is_ascii
as_admin-guards_example =
    as_admin-guards sandbox "admin" (create_hotel sandbox lodge) world refl refl

-- A hotel with a credential, a room type and a portal user.
abbrev listed : Database
listed = record start_database { hotel_users = record { entries = (77, staff) ∷ [] } }

one_row :
    {K V : Type 0} ⦃e : KeyEq K⦄ (j k : K) (v x : V)
    → get k (record { entries = (j, v) ∷ [] }) ≡ some x
    → (j ≡ k) × (v ≡ x)
unfolding get
one_row j k v x h = elim (Bool-cases (j == k)) [
  | inl q ↦ (beq_eq j k q, some-injective _ _ (rw q at h))
  | inr q ↦ absurd (cc (rw q at h))
]

here : HasHotel 7 listed
unfolding get
here = (_, refl)

listed-IsReferential : IsReferential listed
unfolding get
listed-IsReferential = record {
  room_types_keyed = (refl, refl, tt);
  rates_keyed = tt;
  users_keyed = (refl, refl, tt);
  promotions_keyed = tt;
  of_credentials = λ k c found. subst (λ x. HasHotel x listed) (one_row 7 k _ c found).0 here;
  of_health = λ k s found. absurd (cc found);
  of_users =
      λ k u found. subst (λ x. HasHotel x.hotel_id listed) (one_row 77 k staff u found).1 here;
  of_promotions = λ k p found. absurd (cc found);
  of_room_types = λ k rt found.
      subst (λ x. HasHotel x.hotel_id listed) (one_row "grand.double" k _ rt found).1 here;
  of_rates = λ k r found. absurd (cc found);
  of_bookings = λ k b found. absurd (cc found);
  of_reviews = λ k r found. absurd (cc found);
  of_inbox = λ k e found. absurd (cc found);
}

abbrev listed_world : World Sandbox
listed_world = record world { durable = listed }

delete_hotel-GoneOrNothing_example :
    GoneOrNothing sandbox "grand" listed
      (delete_hotel sandbox "grand" (start listed_world)).0
      (delete_hotel sandbox "grand" (start listed_world)).1.durable
    × IsReferential (delete_hotel sandbox "grand" (start listed_world)).1.durable
delete_hotel-GoneOrNothing_example =
    delete_hotel-GoneOrNothing sandbox "grand" listed listed_world refl listed-IsReferential

-- A booking of another traveler.
abbrev others : World Sandbox
others = record world {
  db = record database {
    bookings = record { entries = (9, record stay { traveler_id = 3 }) ∷ [] };
  };
}

abbrev printed : Json → String
printed (text s) = s
printed _ = ""

abbrev card : ConfirmRequest
card = record {
  payment_method_token = "pm_1";
  guests = record { name = "Ann"; phone = none; email = none } ∷ [];
}

ann_is_in : (get_current_traveler sandbox (some "traveler") others).0 ≡ ok ann
unfolding get_current_traveler decode_access_token get member truthy scope_of nonempty ◌>>=◌
ann_is_in = refl

endpoints-foreign_example :
    IsNotFound sandbox printed
      (confirm_booking sandbox (Stripe.gateway sandbox) 9 card (some "traveler"))
      others
    × IsNotFound sandbox printed
        (release_booking sandbox (Stripe.gateway sandbox) 9 (some "traveler"))
        others
    × IsNotFound sandbox printed
        (cancel_booking sandbox (Stripe.gateway sandbox) 9 (some "traveler"))
        others
unfolding get
endpoints-foreign_example =
    endpoints-foreign sandbox printed (Stripe.gateway sandbox) 9 card (some "traveler") ann
      (record stay { traveler_id = 3 }) others (λ s. refl) ann_is_in refl (λ e. absurd (cc e))
