-- ===== src/Webhook/Verify.antt =====
-- app/webhooks/verify.py: the signature over the raw body, within the replay window.
use Prim.Native.Char.{code}
use hotels_aggregator.Prelude.{ℕ, suc, ◌+◌, ◌-◌, String, Bool, true, false, Option, none, some}
use hotels_aggregator.Prelude.Int.{ℤ, pos, negsuc}
use hotels_aggregator.Prelude.Tests.{ltb, leb, ◌==◌, string_eq, if◌then◌else◌}
use hotels_aggregator.Text.{◌<>◌, strip_prefix}
use hotels_aggregator.Outside.{Outside}

abbrev pub replay_window_seconds : ℕ
replay_window_seconds = 300

pub data AuthError : Type 0 where
  bad_signature_header bad_timestamp_header replay_window_exceeded signature_mismatch : AuthError

-- A signature is accepted, refused by a WebhookAuthError, or `compare_digest` raises TypeError on
-- a text that is not ASCII.
pub data Verdict : Type 0 where
  accepted : Verdict
  refused : AuthError → Verdict
  not_ascii : Verdict

-- `abs(a - b)` for an instant and a timestamp of the sender.
unfoldable pub distance : ℕ → ℤ → ℕ
distance a (pos b) = if leb a b then b - a else a - b
distance a (negsuc b) = a + suc b

unfoldable pub is_ascii : String → Bool
is_ascii String.[] = true
is_ascii (String.◌∷◌ c s) = let rest = is_ascii s in if ltb (code c) 128 then rest else false

module _ (O : Outside) where
  open O use {parse_int, signed_text, hmac_sha256_hex}

  -- The digest that the sender must have sent.
  unfoldable pub expected_digest : (secret raw_body : String) → (timestamp : ℤ) → String
  expected_digest secret raw_body timestamp =
      hmac_sha256_hex secret (signed_text timestamp <> "." <> raw_body)

  unfoldable pub check_digest : (expected provided : String) → Verdict
  unfolding is_ascii
  check_digest expected provided =
      if is_ascii provided
      then (if expected == provided then accepted else refused signature_mismatch)
      else not_ascii

  unfoldable pub check_timestamp :
      (secret raw_body provided : String) → (now : ℕ) → Option ℤ → Verdict
  unfolding check_digest expected_digest distance
  check_timestamp secret raw_body provided now none = refused bad_timestamp_header
  check_timestamp secret raw_body provided now (some timestamp) =
      if ltb replay_window_seconds (distance now timestamp)
      then refused replay_window_exceeded
      else check_digest (expected_digest secret raw_body timestamp) provided

  -- `int(timestamp_header)`; a missing header is a TypeError.
  unfoldable pub header_int : Option String → Option ℤ
  header_int none = none
  header_int (some s) = parse_int s

  unfoldable pub check_signature :
      (secret raw_body : String)
      → (now : ℕ) → (timestamp_header : Option String) → Option String
      → Verdict
  unfolding check_timestamp header_int
  check_signature secret raw_body now timestamp_header none = refused bad_signature_header
  check_signature secret raw_body now timestamp_header (some provided) =
      check_timestamp secret raw_body provided now (header_int timestamp_header)

  -- The digest of a header that begins with `sha256=`.
  unfoldable pub header_digest : Option String → Option String
  header_digest none = none
  header_digest (some s) = strip_prefix "sha256=" s

  -- `verify_webhook_signature`, at the second `now`.
  unfoldable pub verify_webhook_signature :
      (secret raw_body : String)
      → (signature_header timestamp_header : Option String) → (now : ℕ) → Verdict
  unfolding check_signature header_digest
  verify_webhook_signature secret raw_body signature_header timestamp_header now =
      check_signature secret raw_body now timestamp_header (header_digest signature_header)
