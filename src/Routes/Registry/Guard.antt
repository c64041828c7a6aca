-- ===== src/Routes/Registry/Guard.antt =====
-- app/api/routes/hotels_admin.py: the operator's key.
use hotels_aggregator.Prelude.{String, true, ◌≡◌, ◌≢◌, refl, ap, Option, none, some, inl, inr}
use hotels_aggregator.Prelude.Tests.{string_eq, Bool-cases, beq_self, beq_ne}
use hotels_aggregator.Text.{nonempty}
use hotels_aggregator.Exceptions.{Exn}
use hotels_aggregator.Outside.{Outside}
use hotels_aggregator.Exec.{World, raised, Exec, throw, pure, ◌>>=◌}
use hotels_aggregator.Webhook.Verify.{is_ascii}
use hotels_aggregator.Security.Deps.{compare_key, require_admin}
use hotels_aggregator.Routes.Registry.{as_admin}

module _ (O : Outside) {A : Type 0} (admin_api_key : String) (m : Exec O.State A)
    (w : World O.State) where
  refused_key :
      (key : String)
      → key ≢ admin_api_key
      → (e : Exn) × (as_admin O admin_api_key (some key) m w ≡ (raised e, w))
  unfolding as_admin require_admin compare_key ◌>>=◌ throw pure
  refused_key key ne = elim (Bool-cases (nonempty key)) [
    | inr n ↦ rw n (_, refl)
    | inl n ↦ elim (Bool-cases (is_ascii key)) [
      | inr a ↦ rw (n, a) (_, refl)
      | inl a ↦ elim (Bool-cases (is_ascii admin_api_key)) [
        | inr b ↦ rw (n, a, b) (_, refl)
        | inl b ↦ rw (n, a, b, beq_ne key admin_api_key ne) (_, refl)
      ]
    ]
  ]

  refused :
      (header : Option String)
      → header ≢ some admin_api_key
      → (e : Exn) × (as_admin O admin_api_key header m w ≡ (raised e, w))
  unfolding as_admin require_admin ◌>>=◌ throw
  refused none ne = (_, refl)
  refused (some key) ne = refused_key key (λ e. ne (ap some e))

  -- Behind a key that is not empty and is ASCII, a route of the registry runs exactly as it is for a
  -- request that carries this key; for any other request it raises, and neither the database nor
  -- anything outside is touched.
  pub as_admin-guards :
      nonempty admin_api_key ≡ true
      → is_ascii admin_api_key ≡ true
      → (as_admin O admin_api_key (some admin_api_key) m w ≡ m w)
        × ((header : Option String)
            → header ≢ some admin_api_key
            → (e : Exn) × (as_admin O admin_api_key header m w ≡ (raised e, w)))
  unfolding as_admin require_admin compare_key ◌>>=◌ throw pure
  as_admin-guards filled ascii = (rw (filled, ascii, beq_self admin_api_key) refl, refused)
