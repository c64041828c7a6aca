-- ===== src/Security/Scopes.antt =====
-- app/security/auth.py and app/api/deps.py: a token serves one scope only.
use hotels_aggregator.Prelude.{
  ℕ, ◌+◌, ◌*◌, ◌≤◌, String, true, Option, none, some, ◌≡◌, ◌≢◌, refl, sym, ◌∙◌, subst, inl, inr,
}
use mathlib.Core.Option.{some-injective}
use hotels_aggregator.Prelude.Tests.{nat_eq, string_eq, Bool-cases, beq_eq, beq_ne, beq_self}
use hotels_aggregator.Text.{nonempty}
use hotels_aggregator.Json.{
  Json, text, null, boolean, int, float, array, object, Fields, member, truthy,
}
use hotels_aggregator.Models.Hotels.{TravelerAccount, HotelUser}
use hotels_aggregator.Exceptions.{Exn}
use hotels_aggregator.Outside.{Outside}
use hotels_aggregator.Exec.{World, Result, ok, raised, Exec, continue, pure, throw, some_or, ◌>>=◌}
use hotels_aggregator.Security.Auth.{
  is_text, scope_of, traveler_scope, hotel_scope, claims_of, create_access_token, uuid_of,
  subject_of, checked_subject, decode_subject, decode_access_token, decode_hotel_access_token,
}
use hotels_aggregator.Security.Deps.{bearer_token, get_current_traveler, get_current_hotel_user}

-- One value is not two texts.
one_text : (a b : String) (j : Json) → is_text a j ≡ true → is_text b j ≡ true → a ≡ b
one_text a b (text s) h k = sym (beq_eq s a h) ∙ beq_eq s b k
one_text a b null h k = absurd (cc h)
one_text a b (boolean _) h k = absurd (cc h)
one_text a b (int _) h k = absurd (cc h)
one_text a b (float _) h k = absurd (cc h)
one_text a b (array _) h k = absurd (cc h)
one_text a b (object _) h k = absurd (cc h)

module _ (O : Outside) where
  open O use {State, now, uuid_text, parse_uuid, jwt_decode, jwt_encode}

  -- What the library reads in a token at this time has the scope.
  pub record Scoped (scope token : String) (s : State) : Type 0 where
    pub claims : Fields
    pub decoded : (jwt_decode token s).0 ≡ some claims
    pub scoped : is_text scope (scope_of claims) ≡ true

  checked_subject-Scoped :
      (scope : String) (claims : Option Fields) (id : ℕ) (w : World State)
      → (checked_subject O scope claims w).0 ≡ ok (some id)
      → (fs : Fields) × (claims ≡ some fs) × (is_text scope (scope_of fs) ≡ true)
  unfolding checked_subject pure
  checked_subject-Scoped scope none id w h = absurd (cc h)
  checked_subject-Scoped scope (some fs) id w h = elim (Bool-cases (is_text scope (scope_of fs))) [
    | inl e ↦ (fs, refl, e)
    | inr e ↦ absurd (cc (rw e at h))
  ]

  decode_subject-Scoped :
      (scope token : String) (id : ℕ) (w : World State)
      → (decode_subject O token scope w).0 ≡ ok (some id)
      → Scoped scope token w.outside
  unfolding decode_subject ◌>>=◌
  decode_subject-Scoped scope token id w h =
      let q =
        checked_subject-Scoped scope (jwt_decode token w.outside).0 id
          (record w { outside = (jwt_decode token w.outside).1 }) h in
      record { claims = q.0; decoded = q.1; scoped = q.2 }

  -- A token that decodes under two scopes has one.
  Scoped-unique : (a b token : String) (s : State) → Scoped a token s → Scoped b token s → a ≡ b
  Scoped-unique a b token s p q =
      let same : p.claims ≡ q.claims = some-injective _ _ (sym p.decoded ∙ q.decoded) in
      one_text a b (scope_of q.claims) (rw same at p.scoped) q.scoped

  decoded_some :
      {A : Type 0} (e : Exn) (k : ℕ → Exec State A) (r : Result (Option ℕ)) (v : World State)
      (a : A)
      → (continue r (λ decoded. some_or e decoded >>= k) v).0 ≡ ok a
      → (id : ℕ) × (r ≡ ok (some id))
  unfolding ◌>>=◌ some_or throw pure
  decoded_some e k (raised x) v a h = absurd (cc h)
  decoded_some e k (ok none) v a h = absurd (cc h)
  decoded_some e k (ok (some id)) v a h = (id, refl)

  -- What every authentication begins with.
  token_of :
      {A : Type 0} (scope : String) (e : Exn) (k : ℕ → Exec State A) (c : Option String) (a : A)
      (w : World State)
      → ((bearer_token O c >>= λ token.
            decode_subject O token scope >>= λ decoded. some_or e decoded >>= k)
          w).0
        ≡ ok a
      → (token : String) × (c ≡ some token) × Scoped scope token w.outside
  unfolding bearer_token ◌>>=◌ pure throw
  token_of scope e k none a w h = absurd (cc h)
  token_of scope e k (some token) a w h = elim (Bool-cases (nonempty token)) [
    | inr n ↦ absurd (cc (rw n at h))
    | inl n ↦
        let q =
          decoded_some e k (decode_subject O token scope w).0 (decode_subject O token scope w).1 a
            (rw n at h) in
        (token, refl, decode_subject-Scoped scope token q.0 w q.1)
  ]

  -- No credentials are accepted as a traveler's and as a hotel user's at the same time.
  pub scopes_disjoint :
      (credentials : Option String) (t : TravelerAccount) (u : HotelUser) (w : World State)
      → ¬ (
          ((get_current_traveler O credentials w).0 ≡ ok t)
          × ((get_current_hotel_user O credentials w).0 ≡ ok u))
  unfolding get_current_traveler get_current_hotel_user decode_access_token
      decode_hotel_access_token
  scopes_disjoint credentials t u w (h, k) =
      let p = token_of traveler_scope _ _ credentials t w h in
      let q = token_of hotel_scope _ _ credentials u w k in
      let same : p.0 ≡ q.0 = some-injective _ _ (sym p.1 ∙ q.1) in
      absurd (
        cc (
          Scoped-unique traveler_scope hotel_scope q.0 w.outside
            (subst (λ x. Scoped traveler_scope x w.outside) same p.2) q.2))

  -- For a library that decodes the token of given claims to those claims until their time of expiry
  -- has passed, and UUIDs that are read as they are written: a token that create_access_token issues
  -- for a subject and a scope, and that has not expired, decodes under its own scope to the subject,
  -- and under any other it is refused.
  pub token-roundtrip :
      (expiry_minutes id : ℕ) (email scope token : String) (w v : World State)
      → ((s : String) (u : State)
          → (now u).0 ≤ (now w.outside).0 + expiry_minutes * 60000000
          → (jwt_decode (jwt_encode (claims_of O expiry_minutes id email s (now w.outside).0)) u).0
            ≡ some (claims_of O expiry_minutes id email s (now w.outside).0))
      → parse_uuid (uuid_text id) ≡ some id
      → uuid_text id ≢ ""
      → (create_access_token O expiry_minutes id email scope w).0 ≡ ok token
      → (now v.outside).0 ≤ (now w.outside).0 + expiry_minutes * 60000000
      → ((decode_subject O token scope v).0 ≡ ok (some id))
        × ((other : String) → scope ≢ other → (decode_subject O token other v).0 ≡ ok none)
  unfolding create_access_token decode_subject checked_subject subject_of uuid_of claims_of scope_of
      member truthy pure ◌>>=◌
  token-roundtrip expiry_minutes id email scope token w v reads uuid written issued in_time =
      let t = (now w.outside).0 in
      let is_token : jwt_encode (claims_of O expiry_minutes id email scope t) ≡ token = cc issued in
      let decoded : (jwt_decode token v.outside).0
          ≡ some (claims_of O expiry_minutes id email scope t) =
        subst (λ x. (jwt_decode x v.outside).0 ≡ some (claims_of O expiry_minutes id email scope t))
          is_token (reads scope v.outside in_time) in
      (
        rw (decoded, beq_self scope, beq_ne (uuid_text id) "" written, uuid) refl,
        λ other ne. rw (decoded, beq_ne scope other ne) refl,
      )
