-- ===== src/Routes/Promotions.antt =====
-- app/api/routes/hotel_portal.py: the promotions of a hotel.
use hotels_aggregator.Prelude.{ℕ, String, true, Option, none, some, List, map}
use hotels_aggregator.Prelude.Tests.{◌==◌, nat_eq, ltb, if◌then◌else◌}
use hotels_aggregator.Table.{get, put, delete, select}
use hotels_aggregator.Models.Hotels.{HotelUser, Promotion}
use hotels_aggregator.Exceptions.{Exn, integrity_error}
use hotels_aggregator.Outside.{Outside}
use hotels_aggregator.Database.{Database}
use hotels_aggregator.Exec.{Exec, pure, throw, reads, calls, modifies, commit, ◌>>=◌, ◌>>◌}
use hotels_aggregator.Schemas.Hotels.{PromotionCreate, PromotionUpdate, PromotionOut, promotion_out}
use hotels_aggregator.Security.Deps.{http_error, get_current_hotel_user}
use hotels_aggregator.Routes.Common.{assigned, assigned_some, latest_first}

abbrev pub write_promotion : Promotion → Database → Database
write_promotion p d = record d { promotions = put p.promotion_id p d.promotions }

abbrev pub remove_promotion : ℕ → Database → Database
remove_promotion id d = record d { promotions = delete id d.promotions }

-- `promo.ends_on < promo.starts_on`
abbrev pub bad_dates : Exn
bad_dates = http_error 400 "ends_on must not be before starts_on"

abbrev pub no_promotion : Exn
no_promotion = http_error 404 "Promotion not found"

abbrev pub new_promotion : PromotionCreate → (hotel_id id : ℕ) → Promotion
new_promotion p hotel_id id = record {
  promotion_id = id;
  hotel_id = hotel_id;
  title = p.title;
  description = p.description;
  discount_percentage = p.discount_percentage;
  starts_on = p.starts_on;
  ends_on = p.ends_on;
  active = true;
}

-- The assignments of `update_promotion`.
unfoldable pub changed : PromotionUpdate → Promotion → Promotion
changed p promo = record promo {
  title = assigned p.title promo.title;
  description = assigned_some p.description promo.description;
  discount_percentage = assigned p.discount_percentage promo.discount_percentage;
  starts_on = assigned p.starts_on promo.starts_on;
  ends_on = assigned p.ends_on promo.ends_on;
  active = assigned p.active promo.active;
}

module _ (O : Outside) where
  open O use {State, uuid4}

  -- `list_promotions`
  unfoldable pub list_promotions : (credentials : Option String) → Exec State (List PromotionOut)
  list_promotions credentials = do
    user ← get_current_hotel_user O credentials
    rows ← reads (λ d. select (λ p. p.hotel_id == user.hotel_id) d.promotions)
    pure (map promotion_out (latest_first (λ p. p.starts_on) rows))

  -- The insert is refused when the id is taken.
  unfoldable pub insert_promotion : Promotion → Option Promotion → Exec State PromotionOut
  insert_promotion promo (some _) = throw integrity_error
  insert_promotion promo none = do
    modifies (write_promotion promo)
    commit
    pure (promotion_out promo)

  unfoldable pub create_for : PromotionCreate → HotelUser → Exec State PromotionOut
  unfolding insert_promotion
  create_for p user = if ltb p.ends_on p.starts_on then throw bad_dates else (do
    id ← calls uuid4
    taken ← reads (λ d. get id d.promotions)
    insert_promotion (new_promotion p user.hotel_id id) taken)

  -- `create_promotion`
  unfoldable pub create_promotion :
      PromotionCreate → (credentials : Option String) → Exec State PromotionOut
  unfolding create_for
  create_promotion p credentials = get_current_hotel_user O credentials >>= create_for p

  unfoldable pub own_promotion : HotelUser → Option Promotion → Exec State Promotion
  own_promotion user none = throw no_promotion
  own_promotion user (some promo) =
      if promo.hotel_id == user.hotel_id then pure promo else throw no_promotion

  -- `_get_own_promotion`
  unfoldable pub get_own_promotion : (promotion_id : ℕ) → HotelUser → Exec State Promotion
  unfolding own_promotion
  get_own_promotion promotion_id user = do
    promo ← reads (λ d. get promotion_id d.promotions)
    own_promotion user promo

  -- The changed row is written by the commit; without it the session's end drops the change.
  unfoldable pub save_promotion : Promotion → Exec State PromotionOut
  save_promotion promo =
      if ltb promo.ends_on promo.starts_on
      then throw bad_dates
      else (do modifies (write_promotion promo); commit; pure (promotion_out promo))

  unfoldable pub update_of :
      (promotion_id : ℕ) → PromotionUpdate → HotelUser → Exec State PromotionOut
  unfolding get_own_promotion save_promotion
  update_of promotion_id p user = do
    promo ← get_own_promotion promotion_id user
    save_promotion (changed p promo)

  -- `update_promotion`
  unfoldable pub update_promotion :
      (promotion_id : ℕ) → PromotionUpdate → (credentials : Option String) → Exec State PromotionOut
  unfolding update_of
  update_promotion promotion_id p credentials =
      get_current_hotel_user O credentials >>= update_of promotion_id p

  unfoldable pub delete_of : (promotion_id : ℕ) → HotelUser → Exec State (Unit {0})
  unfolding get_own_promotion
  delete_of promotion_id user = do
    promo ← get_own_promotion promotion_id user
    modifies (remove_promotion promo.promotion_id)
    commit

  -- `delete_promotion`
  unfoldable pub delete_promotion :
      (promotion_id : ℕ) → (credentials : Option String) → Exec State (Unit {0})
  unfolding delete_of
  delete_promotion promotion_id credentials =
      get_current_hotel_user O credentials >>= delete_of promotion_id
