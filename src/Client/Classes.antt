-- ===== src/Client/Classes.antt =====
-- app/clients/hotel_erp_client.py: which answers of a hotel count as unavailable, and so are retried.
use hotels_aggregator.Prelude.{
  ℕ, String, ◌≡◌, ◌≢◌, ◌≤◌, ◌<◌, ◌&&◌, ◌↔◌, refl, sym, ap, ◌∙◌, Bool, true, false, Option, none,
  some, inl, inr, arith,
}
use hotels_aggregator.Prelude.Tests.{leb, ltb, Bool-cases}
use hotels_aggregator.Json.{Json, text}
use hotels_aggregator.Exceptions.{hotel_erp_error, HotelErpKind, HotelErpError, hotel_unavailable}
use mathlib.Core.Option.{some-injective}
use hotels_aggregator.Outside.{Outside, Response}
use hotels_aggregator.Exec.{Result, ok, raised, World, pure, throw}
use hotels_aggregator.Client.Errors.{
  kind_of_code, ErrorFields, throw_typed, raise_for_error, code_exceptions,
}

is_unavailable : HotelErpKind → Bool
is_unavailable hotel_unavailable = true
is_unavailable _ = false

code_exceptions-retried : (code : String) → is_unavailable (code_exceptions code) ≡ false
unfolding code_exceptions is_unavailable
code_exceptions-retried code = ground arith

kind_of_code-retried :
    (code : Json) (k : HotelErpKind) → kind_of_code code ≡ some k → is_unavailable k ≡ false
unfolding kind_of_code is_unavailable
kind_of_code-retried (text code) k h = rw⁻¹ (some-injective _ _ h) (code_exceptions-retried code)
kind_of_code-retried (Json.array _) k h = absurd (cc h)
kind_of_code-retried (Json.object _) k h = absurd (cc h)
kind_of_code-retried _ k h = rw⁻¹ (some-injective _ _ h) refl

-- What an exception tells of the answer it was raised for.
pub record Tells (status : ℕ) (e : HotelErpError) : Type 0 where
  pub same_status : e.status ≡ status
  pub retried : e.kind ≡ hotel_unavailable → 500 ≤ status
  pub only_retried : 500 ≤ status → e.kind ≡ hotel_unavailable

not_retried : (k : HotelErpKind) → is_unavailable k ≡ false → k ≢ hotel_unavailable
unfolding is_unavailable
not_retried k h e = absurd (cc (rw e at h))

abbrev raises : HotelErpError → Result (Unit {0})
raises e = raised (hotel_erp_error e)

error_of : {a b : HotelErpError} → raises a ≡ raises b → a ≡ b
error_of q = cc q

module _ (O : Outside) where
  open O use {State}

  throw_typed-Tells :
      (status : ℕ) (f : ErrorFields) (k : Option HotelErpKind) (w : World State) (e : HotelErpError)
      → status < 500
      → ((j : HotelErpKind) → k ≡ some j → is_unavailable j ≡ false)
      → (throw_typed O status f k w).0 ≡ raised (hotel_erp_error e)
      → Tells status e
  unfolding throw
  throw_typed-Tells status f none w e low kinds h = absurd (cc h)
  throw_typed-Tells status f (some k) w e low kinds h =
      let same = error_of h in
      record {
        same_status = ap (λ x. x.status) (sym same);
        retried = λ q. absurd (not_retried k (kinds k refl) (ap (λ x. x.kind) same ∙ q));
        only_retried = λ q. absurd (ground arith);
      }

  throw_typed_raises :
      (status : ℕ) (f : ErrorFields) (k : Option HotelErpKind) (w : World State)
      → (throw_typed O status f k w).0 ≢ ok tt
  unfolding throw
  throw_typed_raises status f none w h = cc h
  throw_typed_raises status f (some k) w h = cc h

  -- An answer of the hotel raises nothing exactly if its status is from 200 to 299; and each
  -- exception of the hotel's client that it raises carries this status, and is the one that the
  -- orchestrator retries exactly if the status is 500 or more.
  pub raise_for_error-Tells :
      (r : Response) (w : World State)
      → (((raise_for_error O r w).0 ≡ ok tt) ↔ ((200 ≤ r.status_code) × (r.status_code < 300)))
        × ((e : HotelErpError)
            → (raise_for_error O r w).0 ≡ raised (hotel_erp_error e)
            → Tells r.status_code e)
  unfolding raise_for_error pure throw
  raise_for_error-Tells r w = elim (Bool-cases (leb 200 r.status_code && ltb r.status_code 300)) [
    | inl good ↦ rw good ((λ h. (ground arith, ground arith), λ h. refl), λ e h. absurd (cc h))
    | inr bad ↦ elim (Bool-cases (leb 500 r.status_code)) [
      | inl high ↦
          rw (bad, high)
            (
              (λ h. absurd (cc h), λ h. absurd (ground arith)),
              λ e h. record {
                same_status = ap (λ x. x.status) (sym (error_of h));
                retried = λ q. ground arith;
                only_retried = λ q. ap (λ x. x.kind) (sym (error_of h));
              },
            )
      | inr low ↦
          rw (bad, low)
            (
              (λ h. absurd (throw_typed_raises _ _ _ w h), λ h. absurd (ground arith)),
              λ e h.
                  throw_typed-Tells r.status_code _ _ w e (ground arith) (kind_of_code-retried _) h,
            )
    ]
  ]
