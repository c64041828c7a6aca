-- ===== src/Worker.antt =====
-- app/workers/arq_worker.py: when the jobs run.
pub mod Schedule
pub mod Tests
use hotels_aggregator.Prelude.{
  ℕ, zero, suc, ◌+◌, ◌/◌, max, String, Bool, true, false, Option, none, some, List, [], ◌∷◌,
}
use hotels_aggregator.Prelude.Int.{ℤ}
use hotels_aggregator.Prelude.Tests.{◌==◌, nat_beq, ltb, string_eq, if◌then◌else◌}
use hotels_aggregator.Text.{◌<>◌}
use hotels_aggregator.Outside.{Outside}
use Prim.Native.Char.{Char, code}

abbrev push : Char → List String → List String
push c [] = String.◌∷◌ c "" ∷ []
push c (w ∷ ws) = String.◌∷◌ c w ∷ ws

-- `value.split(",")`
unfoldable pub split_commas : String → List String
split_commas String.[] = "" ∷ []
split_commas (String.◌∷◌ c s) =
    let rest = split_commas s in if nat_beq (code c) b',' then "" ∷ rest else push c rest

-- The arguments of arq's `cron`; none is every value.
pub record CronFields : Type 0 where
  pub minute : Option (List ℤ)
  pub hour : Option (List ℤ)
  pub day : Option (List ℤ)
  pub month : Option (List ℤ)
  pub weekday : Option (List ℤ)

-- The first ValueError ends the parsing.
infixl 5 ◌>>=◌
abbrev ◌>>=◌ : {A B : Type 0} → Option A → (A → Option B) → Option B
none >>= f = none
some a >>= f = f a

module _ (O : Outside) (words : String → List String) where
  open O use {parse_int}

  -- `{int(p) for p in ...}`; `none` is ValueError
  unfoldable pub ints : List String → Option (List ℤ)
  ints [] = some []
  ints (p ∷ ps) = do n ← parse_int p; ns ← ints ps; some (n ∷ ns)

  -- `_f`
  unfoldable pub cron_field : String → Option (Option (List ℤ))
  unfolding ints
  cron_field value =
      if value == "*" then some none else (do ns ← ints (split_commas value); some (some ns))

  unfoldable pub fields_of_words : List String → Option CronFields
  unfolding cron_field
  fields_of_words (m ∷ h ∷ dom ∷ mon ∷ dow ∷ []) = do
    minute ← cron_field m
    hour ← cron_field h
    day ← cron_field dom
    month ← cron_field mon
    weekday ← cron_field dow
    some (record { minute = minute; hour = hour; day = day; month = month; weekday = weekday })
  fields_of_words _ = none

  -- `_cron_fields`, on Python's `expr.split()`
  unfoldable pub cron_fields : String → Option CronFields
  cron_fields expr = fields_of_words (words expr)

-- `_poll_minutes`
unfoldable pub poll_minutes : (reconciliation_poll_interval_seconds : ℕ) → ℕ
poll_minutes interval = max (interval / 60) 1

-- `range(start, stop, step)`, of so many elements at most.
unfoldable pub range_up : (n start stop step : ℕ) → List ℕ
range_up zero start stop step = []
range_up (suc n) start stop step =
    let rest = range_up n (start + step) stop step in if ltb start stop then start ∷ rest else []

-- The minutes of `cron(reconcile_room_types, ...)`: an hour has sixty.
unfoldable pub poll_schedule : (reconciliation_poll_interval_seconds : ℕ) → List ℕ
poll_schedule interval = range_up 60 0 60 (poll_minutes interval)
