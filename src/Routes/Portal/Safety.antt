-- ===== src/Routes/Portal/Safety.antt =====
-- app/api/routes/hotel_portal.py: whoever is logged in to the portal of one hotel reaches only this
-- hotel's data.
use hotels_aggregator.Prelude.{
  ℕ, String, Bool, ◌≡◌, refl, sym, ◌∙◌, subst, Option, none, some, inl, inr,
}
use mathlib.Core.Option.{some-injective}
use hotels_aggregator.Prelude.Tests.{◌==◌, nat_eq, Bool-cases, beq_eq, ltb}
use hotels_aggregator.Table.{get}
use hotels_aggregator.Table.Keyed.{get-keyed}
use hotels_aggregator.Models.Hotels.{HotelUser, Promotion}
use hotels_aggregator.Outside.{Outside}
use hotels_aggregator.Database.{Database}
use hotels_aggregator.Exec.{
  World, Result, ok, raised, Exec, pure, throw, continue, in_session, ◌>>=◌, ◌>>◌,
}
use hotels_aggregator.Exec.Hoare.{
  Hoare-found, Pred, Hoare, Hoare-bind, Hoare-past, Hoare-reads, Hoare-modifies, Hoare-commit,
  Hoare-commit_last, Hoare-pure, Hoare-throw, Hoare-if,
}
use hotels_aggregator.Client.Frozen.{frozen_rules}
use hotels_aggregator.History.{session}
use hotels_aggregator.Schemas.Hotels.{HotelProfileUpdate, PromotionCreate, PromotionUpdate}
use hotels_aggregator.Security.Deps.{http_error, get_current_hotel_user}
use hotels_aggregator.Security.Sessions.{Fresh, Admitted, authenticated}
use hotels_aggregator.Security.Frozen.{get_current_hotel_user-Frozen}
use hotels_aggregator.Routes.Portal.{
  write_hotel, profile, own_hotel, update_hotel_of, update_my_hotel,
}
use hotels_aggregator.Routes.Promotions.{
  write_promotion, remove_promotion, new_promotion, changed, insert_promotion, create_for,
  create_promotion, own_promotion, get_own_promotion, save_promotion, update_of, update_promotion,
  delete_of, delete_promotion,
}
use hotels_aggregator.Routes.Portal.Own.{
  Own, Own-refl, IsPortalKeyed, Own-profile, Own-write_promotion, Own-remove_promotion,
}

-- The endpoints of the portal that write.
pub data PortalRequest : Type 0 where
  updating_hotel : HotelProfileUpdate → PortalRequest
  creating : PromotionCreate → PortalRequest
  updating : (promotion_id : ℕ) → PromotionUpdate → PortalRequest
  deleting : (promotion_id : ℕ) → PortalRequest

abbrev Durable : ℕ → Database → Pred
Durable hotel_id c d u = Own hotel_id c u

module _ (O : Outside) (lte : String → String → Bool) (c : Database) (keyed : IsPortalKeyed c) where
  open O use {State}

  nothing_written : (hotel_id : ℕ) (d u : Database) → Fresh c d u → Own hotel_id c u
  nothing_written hotel_id d u p = subst (λ x. Own hotel_id c x) (sym p.1) (Own-refl hotel_id c)

  -- A write, its commit, and an answer.
  write_then :
      {A : Type 0} (P : Pred) (hotel_id : ℕ) (f : Database → Database) (a : A)
      → ((d u : Database) → P d u → Own hotel_id c (f d))
      → Hoare {S = State} P
          (hotels_aggregator.Exec.modifies f >> (hotels_aggregator.Exec.commit >> pure a))
          (λ _. Durable hotel_id c)
  write_then P hotel_id f a step =
      Hoare-modifies (λ d u. Own hotel_id c d) _ _ step
        (Hoare-commit (λ d u. Own hotel_id c u) _ (λ d u p. p) (Hoare-pure a (λ d u p. p)))

  update_hotel_of-Own :
      (p : HotelProfileUpdate) (user : HotelUser)
      → Hoare (Fresh c) (update_hotel_of O lte p user) (λ _. Durable user.hotel_id c)
  unfolding update_hotel_of own_hotel
  update_hotel_of-Own p user =
      Hoare-bind _ _ _
        (Hoare-found _ (λ d. get user.hotel_id d.hotels) (http_error 404 "Hotel not found"))
        (λ e d u q. nothing_written user.hotel_id d u q.0)
        (λ h. write_then _ user.hotel_id _ _ (λ d u q.
          subst (λ x. Own user.hotel_id c (write_hotel (profile p h) x)) (sym q.0.0)
            (Own-profile user.hotel_id c p h keyed (rw q.0.0 at (q.1 h refl)))))

  insert_promotion-Own :
      (hotel_id : ℕ) (promo : Promotion) (found : Option Promotion)
      → promo.hotel_id ≡ hotel_id
      → Hoare
          (λ d u. Fresh c d u × (get promo.promotion_id d.promotions ≡ found))
          (insert_promotion O promo found)
          (λ _. Durable hotel_id c)
  unfolding insert_promotion
  insert_promotion-Own hotel_id promo (some _) own =
      Hoare-throw _ (λ d u q. nothing_written hotel_id d u q.0)
  insert_promotion-Own hotel_id promo none own = write_then _ hotel_id _ _ (λ d u q.
      subst (λ x. Own hotel_id c (write_promotion promo x)) (sym q.0.0)
        (Own-write_promotion hotel_id c promo own (λ old f. absurd (cc (f, (rw q.0.0 at q.1))))))

  create_for-Own :
      (p : PromotionCreate) (user : HotelUser)
      → Hoare (Fresh c) (create_for O p user) (λ _. Durable user.hotel_id c)
  unfolding create_for
  create_for-Own p user =
      Hoare-if (ltb p.ends_on p.starts_on) _ _
        (λ _. Hoare-throw _ (λ d u q. nothing_written user.hotel_id d u q))
        (λ _.
          Hoare-past _ _ (search frozen_rules) (λ e d u q. nothing_written user.hotel_id d u q)
            (λ id. Hoare-reads _ _ (λ found.
              insert_promotion-Own user.hotel_id (new_promotion p user.hotel_id id) found refl)))

  -- The promotion that a request names is one of the user's hotel.
  abbrev OwnPromotion : ℕ → HotelUser → Promotion → Type 0
  OwnPromotion id user promo = (get id c.promotions ≡ some promo) × (promo.hotel_id ≡ user.hotel_id)

  own_promotion-Own :
      (id : ℕ) (user : HotelUser) (found : Option Promotion)
      → Hoare
          (λ d u. Fresh c d u × (get id d.promotions ≡ found))
          (own_promotion O user found)
          (λ r d u. Fresh c d u × ((promo : Promotion) → r ≡ ok promo → OwnPromotion id user promo))
  unfolding own_promotion
  own_promotion-Own id user none = Hoare-throw _ (λ d u q. (q.0, λ promo h. absurd (cc h)))
  own_promotion-Own id user (some promo) = elim (Bool-cases (promo.hotel_id == user.hotel_id)) [
    | inl e ↦ rw e (
        Hoare-pure promo (λ d u q. (
          q.0,
          λ a h.
              subst (OwnPromotion id user) (cc h)
                ((rw q.0.0 at q.1), beq_eq promo.hotel_id user.hotel_id e),
        )))
    | inr e ↦ rw e (Hoare-throw _ (λ d u q. (q.0, λ a h. absurd (cc h))))
  ]

  get_own_promotion-Own :
      (id : ℕ) (user : HotelUser)
      → Hoare
          (Fresh c)
          (get_own_promotion O id user)
          (λ r d u. Fresh c d u × ((promo : Promotion) → r ≡ ok promo → OwnPromotion id user promo))
  unfolding get_own_promotion
  get_own_promotion-Own id user = Hoare-reads _ _ (own_promotion-Own id user)

  save_promotion-Own :
      (hotel_id : ℕ) (promo old : Promotion)
      → promo.hotel_id ≡ hotel_id
      → old.hotel_id ≡ hotel_id
      → get promo.promotion_id c.promotions ≡ some old
      → Hoare (Fresh c) (save_promotion O promo) (λ _. Durable hotel_id c)
  unfolding save_promotion
  save_promotion-Own hotel_id promo old own own_before there =
      Hoare-if (ltb promo.ends_on promo.starts_on) _ _
        (λ _. Hoare-throw _ (λ d u q. nothing_written hotel_id d u q))
        (λ _. write_then _ hotel_id _ _ (λ d u q.
          subst (λ x. Own hotel_id c (write_promotion promo x)) (sym q.0)
            (Own-write_promotion hotel_id c promo own (λ a f.
              subst (λ x. x.hotel_id ≡ hotel_id) (some-injective _ _ (sym there ∙ f)) own_before))))

  -- With its key, a promotion that a request names.
  own_key :
      (id : ℕ) (user : HotelUser) (promo : Promotion)
      → OwnPromotion id user promo
      → get promo.promotion_id c.promotions ≡ some promo
  own_key id user promo q =
      subst (λ x. get x c.promotions ≡ some promo)
        (sym (get-keyed (λ x. x.promotion_id) c.promotions id promo keyed.promotions_keyed q.0)) q.0

  update_of-Own :
      (id : ℕ) (p : PromotionUpdate) (user : HotelUser)
      → Hoare (Fresh c) (update_of O id p user) (λ _. Durable user.hotel_id c)
  unfolding update_of changed
  update_of-Own id p user =
      Hoare-bind _ _ _ (get_own_promotion-Own id user)
        (λ e d u q. nothing_written user.hotel_id d u q.0)
        (λ promo. record {
          at = λ w q.
              let own = q.1 promo refl in
              (save_promotion-Own user.hotel_id (changed p promo) promo own.1 own.1
                  (own_key id user promo own)).at
                w q.0;
        })

  delete_of-Own :
      (id : ℕ) (user : HotelUser)
      → Hoare (Fresh c) (delete_of O id user) (λ _. Durable user.hotel_id c)
  unfolding delete_of
  delete_of-Own id user =
      Hoare-bind _ _ _ (get_own_promotion-Own id user)
        (λ e d u q. nothing_written user.hotel_id d u q.0)
        (λ promo.
          Hoare-modifies (λ d u. Own user.hotel_id c d) _ _
            (λ d u q.
              let own = q.1 promo refl in
              subst (λ x. Own user.hotel_id c (remove_promotion promo.promotion_id x)) (sym q.0.0)
                (Own-remove_promotion user.hotel_id c promo.promotion_id (λ a f.
                  subst (λ x. x.hotel_id ≡ user.hotel_id)
                    (some-injective _ _ (sym (own_key id user promo own) ∙ f)) own.1)))
            (Hoare-commit_last (λ d u q. q)))

-- The request as the portal runs it, in a session of its own.
module _ (O : Outside) (lte : String → String → Bool) where
  open O use {State}

  abbrev pub serve : PortalRequest → (credentials : Option String) → World State → World State
  serve (updating_hotel p) credentials = session (update_my_hotel O lte p credentials)
  serve (creating p) credentials = session (create_promotion O p credentials)
  serve (updating id p) credentials = session (update_promotion O id p credentials)
  serve (deleting id) credentials = session (delete_promotion O id credentials)

  -- Nothing is committed, or the credentials are those of a user, and the changes are in the user's
  -- own hotel.
  abbrev pub OwnOutcome : (credentials : Option String) (w v : World State) → Type 0
  OwnOutcome credentials w v =
      Admitted (get_current_hotel_user O credentials) (λ user. Own user.hotel_id w.durable) w v

  authenticated-Own :
      {A : Type 0} (k : HotelUser → Exec State A) (credentials : Option String) (w : World State)
      → ((user : HotelUser)
          → Hoare (Fresh w.durable) (k user) (λ _. Durable user.hotel_id w.durable))
      → OwnOutcome credentials w (session (get_current_hotel_user O credentials >>= k) w)
  authenticated-Own k credentials w h =
      authenticated (get_current_hotel_user O credentials) _ k w
        (get_current_hotel_user-Frozen O credentials) h

  -- A request to the portal, on tables whose hotels and promotions stand under their keys, commits
  -- nothing, or its credentials are those of a user of the portal and all that it commits is in the
  -- user's own hotel: no other hotel's row and no other hotel's promotion is changed, added or
  -- removed, the hotel's own slug, legal name, country and status are as they were, and so are the
  -- credentials, the sync health, the users, the travelers, the room types, the rates, the bookings,
  -- the payments, the reviews and the received events.
  pub serve-Own :
      (r : PortalRequest) (credentials : Option String) (w : World State)
      → IsPortalKeyed w.durable
      → OwnOutcome credentials w (serve r credentials w)
  unfolding update_my_hotel create_promotion update_promotion delete_promotion
  serve-Own (updating_hotel p) credentials w keyed =
      authenticated-Own _ credentials w (update_hotel_of-Own O lte w.durable keyed p)
  serve-Own (creating p) credentials w keyed =
      authenticated-Own _ credentials w (create_for-Own O lte w.durable keyed p)
  serve-Own (updating id p) credentials w keyed =
      authenticated-Own _ credentials w (update_of-Own O lte w.durable keyed id p)
  serve-Own (deleting id) credentials w keyed =
      authenticated-Own _ credentials w (delete_of-Own O lte w.durable keyed id)
