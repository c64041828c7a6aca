-- ===== src/Sandbox.antt =====
-- A world outside on which the definitions run: a clock, a counter for ids, a script of HTTP
-- answers, a script of the payment provider's answers, one stored text, and a log of requests.
-- It instantiates `Outside` for the tests and the examples.
use hotels_aggregator.Prelude.{
  true, ℕ, ◌+◌, ◌*◌, ◌/◌, String, Bool, false, Option, none, some, List, [], ◌∷◌,
}
use hotels_aggregator.Prelude.Int.{ℤ, pos, negsuc, pos_part}
use hotels_aggregator.Prelude.Tests.{◌==◌, string_eq, ltb, nat_beq, if◌then◌else◌}
use hotels_aggregator.Json.{Json, Decimal, int, object, field, nil, text, member}
use hotels_aggregator.Outside.{
  Outside, HttpRequest, HttpOutcome, response, transport_failure, json_body, StripeOutcome,
  stripe_error,
}

pub record Sandbox : Type 0 where
  pub clock : ℕ
  pub next_id : ℕ
  pub answers : List HttpOutcome
  pub charges : List StripeOutcome
  pub sent : List HttpRequest
  pub captured : List String
  pub broken : Bool

abbrev pub quote : Json
quote = object (field "total_amount_minor" (int (pos 12000)) (field "currency" (text "USD") nil))

abbrev answer : List HttpOutcome → HttpOutcome × List HttpOutcome
answer [] = (transport_failure "ConnectTimeout", [])
answer (a ∷ rest) = (a, rest)

abbrev charge : List StripeOutcome → StripeOutcome × List StripeOutcome
charge [] = (stripe_error "no answer", [])
charge (a ∷ rest) = (a, rest)

abbrev as_float : Json → Option Decimal
as_float (int n) = some (record { mantissa = n; exponent = 0 })
as_float _ = none

abbrev positive : Decimal → Bool
positive d = elim (d.mantissa) [ pos n ↦ ltb 0 n | negsuc n ↦ false ]

-- A share in percent of an amount, without rounding up.
abbrev hundredths : ℤ → Decimal → ℤ
hundredths a p = pos (pos_part a * pos_part p.mantissa / 100)

abbrev pub sandbox : Outside
sandbox = record {
  State = Sandbox;
  now = λ s. (s.clock, s);
  uuid4 = λ s. (s.next_id, record s { next_id = s.next_id + 1 });
  sleep = λ t s. record s { clock = s.clock + t };
  http_request =
      λ r s. ((answer s.answers).0, record s { answers = (answer s.answers).1; sent = r ∷ s.sent });
  redis_get = λ k s. (some "quote", s);
  redis_set = λ k v ex s. s;
  redis_delete = λ k s. s;
  stripe_create_intent =
      λ a c t s. ((charge s.charges).0, record s { charges = (charge s.charges).1 });
  stripe_capture = λ r s. (
    (charge s.charges).0,
    record s { charges = (charge s.charges).1; captured = r ∷ s.captured },
  );
  stripe_refund = λ r a s. ((charge s.charges).0, record s { charges = (charge s.charges).1 });
  decrypt_secret = λ s. some s;
  uuid_text = λ n. "id";
  date_text = λ n. if nat_beq n 100 then "2026-04-11" else "2026-04-12";
  parse_datetime = λ s. some 900000000;
  dumps = λ j. "quote";
  loads = λ s. some quote;
  int_text = λ n. "n";
  to_float = as_float;
  is_positive = positive;
  percent_of = hundredths;
  lower = λ s. s;
  upper = λ s. s;
  datetime_text = λ t. "2026-01-01T00:00:00+00:00";
  parse_int = λ s. some (pos 1);
  signed_text = λ n. "1";
  parse_uuid = λ s. some 77;
  hmac_sha256_hex = λ k m. k;
  database_fails = λ s. (s.broken, s);
  expired_read_fails = λ s. (true, s);
  encrypt_secret = λ p s. (p, s);
  bcrypt_hashpw = λ p s. (p, s);
  bcrypt_checkpw = λ p h. some (p == h);
  jwt_encode = λ claims. (elim (member "scope" claims) [ some (text s) ↦ s | _ ↦ "none" ]);
  jwt_decode = λ token s. (some (field "scope" (text token) (field "sub" (text "id") nil)), s);
}

abbrev pub answered : Json → HttpOutcome
answered j = response (record { status_code = 200; content = json_body j })

abbrev pub failed_with : ℕ → Json → HttpOutcome
failed_with status j = response (record { status_code = status; content = json_body j })
