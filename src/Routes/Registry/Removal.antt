-- ===== src/Routes/Registry/Removal.antt =====
-- app/api/routes/hotels_admin.py and app/db/models.py: a hotel that is deleted leaves no row that
-- names it.
use hotels_aggregator.Prelude.{
  ℕ, String, Bool, true, false, ◌≡◌, refl, sym, ◌∙◌, ap, subst, none, some, inl, inr, ◌||◌,
}
use hotels_aggregator.Prelude.Tests.{◌==◌, nat_eq, string_eq, Bool-cases, beq_eq, beq_self}
use hotels_aggregator.Table.{Table, get, exists, delete, delete_where}
use hotels_aggregator.Table.Laws.{get-delete}
use hotels_aggregator.Table.Keyed.{IsKeyed, get-keyed, get-none_passes}
use hotels_aggregator.Table.Deletion.{get-delete_where, get-survivor, delete_where-IsKeyed}
use hotels_aggregator.Models.Hotels.{Hotel, HotelCredential, SyncHealth, HotelUser, Promotion}
use hotels_aggregator.Models.Indexes.{
  RoomTypeIndex, RateKey, RateAvailabilityIndex, WebhookInbox, rate_key_eq,
}
use hotels_aggregator.Models.Bookings.{BookingReference, Review}
use hotels_aggregator.Database.{Database}
use hotels_aggregator.Routes.Registry.Delete.{is_room_type_of, is_referenced, remove_hotel}

abbrev pub HasHotel : ℕ → Database → Type 0
HasHotel id d = (h : Hotel) × (get id d.hotels ≡ some h)

abbrev pub HasRoomType : String → Database → Type 0
HasRoomType id d = (rt : RoomTypeIndex) × (get id d.room_types ≡ some rt)

abbrev pub rate_key_of : RateAvailabilityIndex → RateKey
rate_key_of r = record {
  room_type = r.global_room_type_id;
  night = r.date;
  rate_plan = r.rate_plan_code;
}

-- The foreign keys: every row that names a hotel or a room type names one that is there.
pub record IsReferential (d : Database) : Type 0 where
  pub room_types_keyed : IsKeyed (λ rt. rt.global_room_type_id) d.room_types
  pub rates_keyed : IsKeyed rate_key_of d.rates
  pub users_keyed : IsKeyed (λ u. u.hotel_user_id) d.hotel_users
  pub promotions_keyed : IsKeyed (λ p. p.promotion_id) d.promotions
  pub of_credentials : (k : ℕ) (c : HotelCredential) → get k d.credentials ≡ some c → HasHotel k d
  pub of_health : (k : ℕ) (s : SyncHealth) → get k d.sync_health ≡ some s → HasHotel k d
  pub of_users : (k : ℕ) (u : HotelUser) → get k d.hotel_users ≡ some u → HasHotel u.hotel_id d
  pub of_promotions : (k : ℕ) (p : Promotion) → get k d.promotions ≡ some p → HasHotel p.hotel_id d
  pub of_room_types :
      (k : String) (rt : RoomTypeIndex) → get k d.room_types ≡ some rt → HasHotel rt.hotel_id d
  pub of_rates :
      (k : RateKey) (r : RateAvailabilityIndex) → get k d.rates ≡ some r → HasRoomType k.room_type d
  pub of_bookings :
      (k : ℕ) (b : BookingReference)
      → get k d.bookings ≡ some b
      → HasHotel b.hotel_id d × HasRoomType b.global_room_type_id d
  pub of_reviews : (k : ℕ) (r : Review) → get k d.reviews ≡ some r → HasHotel r.hotel_id d
  pub of_inbox : (k : ℕ) (e : WebhookInbox) → get k d.inbox ≡ some e → HasHotel e.hotel_id d

neither : (a b : Bool) → (a || b) ≡ false → (a ≡ false) × (b ≡ false)
neither false false h = (refl, refl)
neither true b h = absurd (cc h)
neither false true h = absurd (cc h)

of_found :
    (id : ℕ) (rt : RoomTypeIndex) (k : String) (t : Table String RoomTypeIndex)
    → get k t ≡ some rt
    → is_room_type_of id t k ≡ (rt.hotel_id == id)
unfolding is_room_type_of
of_found id rt k t found = ap (λ o. elim o [ none ↦ false | some x ↦ x.hotel_id == id ]) found

module _ (id : ℕ) (d : Database) (h : IsReferential d) where
  -- Another hotel is there still.
  hotel_left : (j : ℕ) → HasHotel j d → (j == id) ≡ false → HasHotel j (remove_hotel id d)
  unfolding remove_hotel
  hotel_left j (x, found) other = (x, rw (get-delete j id d.hotels, turned) found)
    where
      turned : (id == j) ≡ false
      turned = elim (Bool-cases (id == j)) [
        | inl e ↦
            absurd (cc (sym other ∙ subst (λ x. (x == id) ≡ true) (beq_eq id j e) (beq_self id)))
        | inr e ↦ e
      ]

  -- A room type of another hotel is there still.
  room_type_left :
      (k : String)
      → HasRoomType k d
      → is_room_type_of id d.room_types k ≡ false
      → HasRoomType k (remove_hotel id d)
  unfolding remove_hotel
  room_type_left k (rt, found) other = (
    rt,
    get-delete_where (λ x. x.global_room_type_id) (λ x. x.hotel_id == id) k d.room_types
          h.room_types_keyed
        ∙ rw (found, sym (of_found id rt k d.room_types found) ∙ other) refl,
  )

  unreferenced : (a b c : Bool) → (a || b || c) ≡ false → (a ≡ false) × (b ≡ false) × (c ≡ false)
  unreferenced false false false e = (refl, refl, refl)
  unreferenced true b c e = absurd (cc e)
  unreferenced false true c e = absurd (cc e)
  unreferenced false false true e = absurd (cc e)

  -- A row of a table that loses the hotel's rows.
  left_of :
      {V : Type 0} (key : V → ℕ) (of : V → ℕ) (k : ℕ) (v : V) (t : Table ℕ V)
      → IsKeyed key t
      → ((j : ℕ) (x : V) → get j t ≡ some x → HasHotel (of x) d)
      → get k (delete_where (λ x. of x == id) t) ≡ some v
      → HasHotel (of v) (remove_hotel id d)
  left_of key of k v t keyed names found =
      let s = get-survivor key (λ x. of x == id) k v t keyed found in
      hotel_left (of v) (names k v s.0) s.1

  -- A row that stands under the hotel's id.
  left_under :
      {V : Type 0} (k : ℕ) (v : V) (t : Table ℕ V)
      → ((j : ℕ) (x : V) → get j t ≡ some x → HasHotel j d)
      → get k (delete id t) ≡ some v
      → HasHotel k (remove_hotel id d)
  left_under k v t names found = elim (Bool-cases (id == k)) [
    | inl e ↦ absurd (cc (rw (get-delete k id t, e) at found))
    | inr e ↦ hotel_left k (names k v (rw (get-delete k id t, e) at found)) (swapped e)
  ]
    where
      swapped : (id == k) ≡ false → (k == id) ≡ false
      swapped e = elim (Bool-cases (k == id)) [
        | inl q ↦
            absurd (cc (sym e ∙ subst (λ x. (id == x) ≡ true) (sym (beq_eq k id q)) (beq_self id)))
        | inr q ↦ q
      ]

  rate_left :
      (k : RateKey) (r : RateAvailabilityIndex)
      → get k (remove_hotel id d).rates ≡ some r
      → HasRoomType k.room_type (remove_hotel id d)
  unfolding remove_hotel
  rate_left k r found =
      let s =
        get-survivor rate_key_of (λ x. is_room_type_of id d.room_types x.global_room_type_id) k r
          d.rates h.rates_keyed found in
      room_type_left k.room_type (h.of_rates k r s.0) (
        subst (λ x. is_room_type_of id d.room_types x ≡ false)
          (ap (λ x. x.room_type) (get-keyed rate_key_of d.rates k r h.rates_keyed s.0)) s.1)

  abbrev books : BookingReference → Bool
  books b = (b.hotel_id == id) || is_room_type_of id d.room_types b.global_room_type_id

  abbrev reviews_it : Review → Bool
  reviews_it r = r.hotel_id == id

  abbrev is_its : WebhookInbox → Bool
  is_its e = e.hotel_id == id

  pub remove_hotel-IsReferential : is_referenced id d ≡ false → IsReferential (remove_hotel id d)
  unfolding is_referenced remove_hotel
  remove_hotel-IsReferential free =
      let none_of =
        unreferenced (exists books d.bookings) (exists reviews_it d.reviews) (exists is_its d.inbox)
          free in
      record {
        room_types_keyed =
            delete_where-IsKeyed (λ rt. rt.global_room_type_id) _ d.room_types h.room_types_keyed;
        rates_keyed = delete_where-IsKeyed rate_key_of _ d.rates h.rates_keyed;
        users_keyed = delete_where-IsKeyed (λ u. u.hotel_user_id) _ d.hotel_users h.users_keyed;
        promotions_keyed =
            delete_where-IsKeyed (λ p. p.promotion_id) _ d.promotions h.promotions_keyed;
        of_credentials = λ k c found. left_under k c d.credentials h.of_credentials found;
        of_health = λ k s found. left_under k s d.sync_health h.of_health found;
        of_users = λ k u found.
            left_of (λ x. x.hotel_user_id) (λ x. x.hotel_id) k u d.hotel_users h.users_keyed
              h.of_users found;
        of_promotions = λ k p found.
            left_of (λ x. x.promotion_id) (λ x. x.hotel_id) k p d.promotions h.promotions_keyed
              h.of_promotions found;
        of_room_types = λ k rt found.
            let s =
              get-survivor (λ x. x.global_room_type_id) (λ x. x.hotel_id == id) k rt d.room_types
                h.room_types_keyed found in
            hotel_left rt.hotel_id (h.of_room_types k rt s.0) s.1;
        of_rates = rate_left;
        of_bookings = λ k b found.
            let names = h.of_bookings k b found in
            let other = neither _ _ (get-none_passes books d.bookings k b none_of.0 found) in
            (
              hotel_left b.hotel_id names.0 other.0,
              room_type_left b.global_room_type_id names.1 other.1,
            );
        of_reviews = λ k r found.
            hotel_left r.hotel_id (h.of_reviews k r found)
              (get-none_passes reviews_it d.reviews k r none_of.1 found);
        of_inbox = λ k e found.
            hotel_left e.hotel_id (h.of_inbox k e found)
              (get-none_passes is_its d.inbox k e none_of.2 found);
      }
