-- ===== src/Webhook/Genuine.antt =====
-- app/webhooks/verify.py: which deliveries are accepted.
use Prim.Native.Char.{code}
use text.Mathlib.TextEquality.{Char-path}
use text.Mathlib.TextLemmas.{nil-append, cons-append}
use mathlib.Core.Option.{some-injective}
use hotels_aggregator.Prelude.{
  ap, suc, ◌+◌, ◌<◌, ℕ, ◌≤◌, ◌≡◌, refl, ◌↔◌, String, true, false, Option, none, some, inl, inr,
  arith,
}
use hotels_aggregator.Prelude.Int.{ℤ, pos, negsuc}
use hotels_aggregator.Prelude.Tests.{
  ltb→lt, nat_beq, nat_beq_iff, ltb, ◌==◌, string_eq, Bool-cases, beq_eq, beq_self,
}
use hotels_aggregator.Text.{◌<>◌, strip_prefix}
use hotels_aggregator.Outside.{Outside}
use hotels_aggregator.Webhook.Verify.{
  replay_window_seconds, accepted, distance, is_ascii, expected_digest, check_digest,
  check_timestamp, header_int, check_signature, header_digest, verify_webhook_signature,
}

-- At most 300 seconds apart.
abbrev pub Within : (now : ℕ) → (instant : ℤ) → Type 0
Within now (pos t) = (t ≤ now + 300) × (now ≤ t + 300)
Within now (negsuc t) = now + suc t ≤ 300

abbrev pub Ascii : String → Type 0
Ascii String.[] = Unit
Ascii (String.◌∷◌ c s) = (code c < 128) × Ascii s

distance-Within : (now : ℕ) (t : ℤ) → (distance now t ≤ 300) ↔ Within now t
unfolding distance
distance-Within now (pos t) = ground arith
distance-Within now (negsuc t) = ground arith

is_ascii-Ascii : (s : String) → (is_ascii s ≡ true) ↔ Ascii s
unfolding is_ascii
is_ascii-Ascii String.[] = (λ h. tt, λ h. refl)
is_ascii-Ascii (String.◌∷◌ c s) = elim (Bool-cases (ltb (code c) 128)) [
  | inl e ↦
      rw e (λ h. (ltb→lt (code c) 128 e, (is_ascii-Ascii s).0 h), λ h. (is_ascii-Ascii s).1 h.1)
  | inr e ↦ rw e (λ h. absurd (cc h), λ h. absurd (not_less e h.0))
]
  where
    not_less : ltb (code c) 128 ≡ false → code c < 128 → ⊥
    not_less e l = ground arith

strip_prefix-prefixed : (p s d : String) → strip_prefix p s ≡ some d → s ≡ p <> d
unfolding strip_prefix
strip_prefix-prefixed String.[] s d h = rw (nil-append d) (some-injective _ _ h)
strip_prefix-prefixed (String.◌∷◌ c p) String.[] d h = absurd (cc h)
strip_prefix-prefixed (String.◌∷◌ c p) (String.◌∷◌ k s) d h =
    elim (Bool-cases (nat_beq (code c) (code k))) [
      | inl e ↦
          let same : c ≡ k = Char-path c k ((nat_beq_iff (code c) (code k)).0 e) in
          let rest = strip_prefix-prefixed p s d (rw e at h) in
          rw (cons-append c p d, same, rest) refl
      | inr e ↦ absurd (cc (rw e at h))
    ]

prefixed-strip_prefix : (p d : String) → strip_prefix p (p <> d) ≡ some d
unfolding strip_prefix
prefixed-strip_prefix String.[] d = rw (nil-append d) refl
prefixed-strip_prefix (String.◌∷◌ c p) d =
    rw (cons-append c p d, (nat_beq_iff (code c) (code c)).1 refl) (prefixed-strip_prefix p d)

-- The headers carry a timestamp within the window and the digest of it and the body.
pub record Genuine (O : Outside) (secret raw_body : String) (signature timestamp : Option String)
    (now : ℕ) : Type 0 where
  pub digits : String
  pub instant : ℤ
  pub stated : timestamp ≡ some digits
  pub parsed : O.parse_int digits ≡ some instant
  pub recent : Within now instant
  pub signed :
      signature
      ≡ some ("sha256=" <> O.hmac_sha256_hex secret (O.signed_text instant <> "." <> raw_body))
  pub plain : Ascii (O.hmac_sha256_hex secret (O.signed_text instant <> "." <> raw_body))

module _ (O : Outside) (secret raw_body : String) (now : ℕ) where
  check_digest-accepted :
      (expected provided : String)
      → check_digest O expected provided ≡ accepted
      → (is_ascii provided ≡ true) × (expected ≡ provided)
  unfolding check_digest
  check_digest-accepted expected provided h = elim (Bool-cases (is_ascii provided)) [
    | inr e ↦ absurd (cc (rw e at h))
    | inl e ↦ elim (Bool-cases (expected == provided)) [
      | inl q ↦ (e, beq_eq expected provided q)
      | inr q ↦ absurd (cc (rw (e, q) at h))
    ]
  ]

  digest_accepted : (d : String) → is_ascii d ≡ true → check_digest O d d ≡ accepted
  unfolding check_digest
  digest_accepted d h = rw (h, beq_self d)

  header_digest-signed :
      (signature : Option String) (d : String)
      → header_digest O signature ≡ some d
      → signature ≡ some ("sha256=" <> d)
  unfolding header_digest
  header_digest-signed none d h = absurd (cc h)
  header_digest-signed (some s) d h = ap some (strip_prefix-prefixed "sha256=" s d h)

  header_int-stated :
      (timestamp : Option String) (t : ℤ)
      → header_int O timestamp ≡ some t
      → (digits : String) × (timestamp ≡ some digits) × (O.parse_int digits ≡ some t)
  unfolding header_int
  header_int-stated none t h = absurd (cc h)
  header_int-stated (some s) t h = (s, refl, h)

  check_timestamp-Genuine :
      (signature timestamp : Option String) (provided : String) (stamp : Option ℤ)
      → header_digest O signature ≡ some provided
      → header_int O timestamp ≡ stamp
      → check_timestamp O secret raw_body provided now stamp ≡ accepted
      → Genuine O secret raw_body signature timestamp now
  unfolding check_timestamp expected_digest
  check_timestamp-Genuine signature timestamp provided none hd hi h = absurd (cc h)
  check_timestamp-Genuine signature timestamp provided (some t) hd hi h =
      elim (Bool-cases (ltb replay_window_seconds (distance now t))) [
        | inl e ↦ absurd (cc (rw e at h))
        | inr e ↦
            let q =
              check_digest-accepted (expected_digest O secret raw_body t) provided (rw e at h) in
            let stamp_of = header_int-stated timestamp t hi in
            record {
              digits = stamp_of.0;
              instant = t;
              stated = stamp_of.1;
              parsed = stamp_of.2;
              recent = (distance-Within now t).0 (in_window e);
              signed =
                  header_digest-signed signature (expected_digest O secret raw_body t) (rw q.1 hd);
              plain = (is_ascii-Ascii (expected_digest O secret raw_body t)).0 (rw q.1 q.0);
            }
      ]
    where
      in_window : ltb replay_window_seconds (distance now t) ≡ false → distance now t ≤ 300
      in_window e = ground arith

  check_signature-Genuine :
      (signature timestamp provided : Option String)
      → header_digest O signature ≡ provided
      → check_signature O secret raw_body now timestamp provided ≡ accepted
      → Genuine O secret raw_body signature timestamp now
  unfolding check_signature
  check_signature-Genuine signature timestamp none hd h = absurd (cc h)
  check_signature-Genuine signature timestamp (some provided) hd h =
      check_timestamp-Genuine signature timestamp provided (header_int O timestamp) hd refl h

  -- A delivery is accepted exactly when its headers carry a timestamp at most 300 seconds from the
  -- receiver's clock and the digest, under the secret, of that timestamp and the raw body, and this
  -- digest is ASCII text.
  pub verify-Genuine :
      (signature timestamp : Option String)
      → (verify_webhook_signature O secret raw_body signature timestamp now ≡ accepted)
        ↔ Genuine O secret raw_body signature timestamp now
  unfolding verify_webhook_signature check_signature check_timestamp header_int header_digest
      expected_digest
  verify-Genuine signature timestamp = (
    λ h. check_signature-Genuine signature timestamp (header_digest O signature) refl h,
    λ g.
        rw
          (
            g.signed,
            g.stated,
            prefixed-strip_prefix "sha256="
                (O.hmac_sha256_hex secret (O.signed_text g.instant <> "." <> raw_body)),
            g.parsed,
            not_late ((distance-Within now g.instant).1 g.recent),
          )
          (digest_accepted (O.hmac_sha256_hex secret (O.signed_text g.instant <> "." <> raw_body)) (
            (is_ascii-Ascii
                (O.hmac_sha256_hex secret (O.signed_text g.instant <> "." <> raw_body))).1
              g.plain)),
  )
    where
      not_late : {n : ℕ} → n ≤ replay_window_seconds → ltb replay_window_seconds n ≡ false
      not_late h = ground arith
