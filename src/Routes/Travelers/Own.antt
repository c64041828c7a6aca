-- ===== src/Routes/Travelers/Own.antt =====
-- app/api/routes/travelers.py: who may change an account.
use hotels_aggregator.Prelude.{ℕ, String, ◌≡◌, ◌≢◌, refl, sym, subst, Option, none, some}
use hotels_aggregator.Prelude.Tests.{nat_eq, beq_ne}
use hotels_aggregator.Table.{get}
use hotels_aggregator.Table.Laws.{get-put}
use hotels_aggregator.Models.Hotels.{TravelerAccount}
use hotels_aggregator.Exceptions.{integrity_error}
use hotels_aggregator.Outside.{Outside}
use hotels_aggregator.Database.{Database}
use hotels_aggregator.Exec.{World, throw, modifies}
use hotels_aggregator.Exec.Hoare.{
  Pred, Hoare, Hoare-bind, Hoare-past, Hoare-reads, Hoare-commit, Hoare-commit_last, Hoare-pure,
  Hoare-throw, Hoare-if, Hoare-modify,
}
use hotels_aggregator.Client.Frozen.{frozen_rules}
use hotels_aggregator.History.{session}
use hotels_aggregator.Schemas.Travelers.{TravelerUpdate, PasswordChange}
use hotels_aggregator.Security.Auth.{hash_password, verify_password}
use hotels_aggregator.Security.Deps.{get_current_traveler}
use hotels_aggregator.Security.Frozen.{get_current_traveler-Frozen}
use hotels_aggregator.Security.Sessions.{Fresh, Admitted, authenticated}
use hotels_aggregator.Routes.Travelers.{
  write_traveler, flush_traveler, update_unless, update_traveler, update_me, set_password,
  change_password, updated, is_new_email,
}

-- No table but the accounts is written, and there only the row of one traveler.
pub record OnlyAccount (id : ℕ) (c d : Database) : Type 0 where
  pub same : d ≡ record c { travelers = d.travelers }
  pub other_accounts : (j : ℕ) → id ≢ j → get j d.travelers ≡ get j c.travelers

OnlyAccount-refl : (id : ℕ) (c : Database) → OnlyAccount id c c
OnlyAccount-refl id c = record { same = refl; other_accounts = λ j n. refl }

OnlyAccount-write :
    (c : Database) (t : TravelerAccount) → OnlyAccount t.traveler_id c (write_traveler t c)
OnlyAccount-write c t = record {
  same = refl;
  other_accounts = λ j n. rw (get-put j t.traveler_id t c.travelers, beq_ne t.traveler_id j n) refl;
}

module _ (O : Outside) (jwt_expiry_minutes : ℕ) (c : Database) where
  open O use {State}

  -- Flushed and not committed.
  abbrev Flushed : ℕ → Pred
  Flushed id d u = OnlyAccount id c d × OnlyAccount id c u

  fresh_account : (id : ℕ) (d u : Database) → Fresh c d u → OnlyAccount id c u
  fresh_account id d u p = subst (OnlyAccount id c) (sym p.1) (OnlyAccount-refl id c)

  flush_traveler-Only :
      (t : TravelerAccount)
      → Hoare (Fresh c) (flush_traveler O jwt_expiry_minutes t) (λ _. Flushed t.traveler_id)
  unfolding flush_traveler
  flush_traveler-Only t = Hoare-reads _ _ (λ refused.
      Hoare-if refused (throw integrity_error) (modifies (write_traveler t))
        (λ _. Hoare-throw _ (λ d u q. (
          subst (OnlyAccount t.traveler_id c) (sym q.0.0) (OnlyAccount-refl t.traveler_id c),
          fresh_account t.traveler_id d u q.0,
        )))
        (λ _. Hoare-modify (write_traveler t) (λ d u q. (
          subst (λ x. OnlyAccount t.traveler_id c (write_traveler t x)) (sym q.0.0)
              (OnlyAccount-write c t),
          fresh_account t.traveler_id d u q.0,
        ))))

  abbrev Only : ℕ → Pred
  Only id d u = OnlyAccount id c u

  update_unless-Only :
      (p : TravelerUpdate) (t : TravelerAccount) (found : Option TravelerAccount)
      → Hoare (Fresh c) (update_unless O jwt_expiry_minutes p t found) (λ _. Only t.traveler_id)
  unfolding update_unless updated
  update_unless-Only p t (some _) = Hoare-throw _ (λ d u q. fresh_account t.traveler_id d u q)
  update_unless-Only p t none =
      Hoare-bind _ _ _ (flush_traveler-Only (updated O jwt_expiry_minutes p t)) (λ e d u q. q.1)
        (λ _. Hoare-commit (Only t.traveler_id) _ (λ d u q. q.0) (Hoare-pure _ (λ d u q. q)))

  pub update_traveler-Only :
      (p : TravelerUpdate) (t : TravelerAccount)
      → Hoare (Fresh c) (update_traveler O jwt_expiry_minutes p t) (λ _. Only t.traveler_id)
  unfolding update_traveler
  update_traveler-Only p t =
      Hoare-if (is_new_email O jwt_expiry_minutes p.email t) _ _
        (λ _.
          Hoare-past _ _ (search frozen_rules) (λ e d u q. fresh_account t.traveler_id d u q)
            (update_unless-Only p t))
        (λ _. update_unless-Only p t none)

  pub set_password-Only :
      (p : PasswordChange) (t : TravelerAccount)
      → Hoare (Fresh c) (set_password O jwt_expiry_minutes p t) (λ _. Only t.traveler_id)
  unfolding set_password hash_password
  set_password-Only p t =
      Hoare-if (verify_password O p.current_password t.hashed_password) _ _
        (λ _.
          Hoare-past _ _ (search frozen_rules) (λ e d u q. fresh_account t.traveler_id d u q)
            (λ hashed.
              Hoare-bind _ _ _ (flush_traveler-Only (record t { hashed_password = hashed }))
                (λ e d u q. q.1) (λ _. Hoare-commit_last (λ d u q. q.0))))
        (λ _. Hoare-throw _ (λ d u q. fresh_account t.traveler_id d u q))

module _ (O : Outside) (jwt_expiry_minutes : ℕ) (credentials : Option String)
    (w : World O.State) where
  -- Nothing is committed, or the credentials are a traveler's and only the traveler's account is
  -- changed.
  abbrev pub OwnAccount : World O.State → Type 0
  OwnAccount v =
      Admitted (get_current_traveler O credentials) (λ t. OnlyAccount t.traveler_id w.durable) w v

  -- An update of a profile or of a password commits nothing, or its credentials are those of a
  -- traveler, and all that it commits is in this traveler's account.
  pub account_writes-Own :
      (p : TravelerUpdate) (change : PasswordChange)
      → OwnAccount (session (update_me O jwt_expiry_minutes p credentials) w)
        × OwnAccount (session (change_password O jwt_expiry_minutes change credentials) w)
  unfolding update_me change_password
  account_writes-Own p change = (
    authenticated _ _ _ w (get_current_traveler-Frozen O credentials)
        (update_traveler-Only O jwt_expiry_minutes w.durable p),
    authenticated _ _ _ w (get_current_traveler-Frozen O credentials)
        (set_password-Only O jwt_expiry_minutes w.durable change),
  )
