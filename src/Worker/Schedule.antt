-- ===== src/Worker/Schedule.antt =====
-- app/workers/arq_worker.py: when the poll of the room types runs.
use hotels_aggregator.Prelude.{
  ℕ, zero, suc, ◌+◌, ◌*◌, ◌≤◌, ◌<◌, max, arith, false, List, [], ◌∷◌, ◌≡◌, ◌⊎◌, inl, inr,
}
use hotels_aggregator.Prelude.Tests.{ltb, ltb→lt, Bool-cases}
use hotels_aggregator.Prelude.Lists.{All}
use hotels_aggregator.Worker.{poll_minutes, range_up, poll_schedule}

-- Some element is so.
abbrev pub Some : (ℕ → Type 0) → List ℕ → Type 0
Some P [] = ⊥
Some P (x ∷ xs) = P x ⊎ Some P xs

-- A poll at the minute or before it, so that no more than the interval, or than one minute, goes by
-- from that poll to the end of the minute.
abbrev pub Polled : (interval minute : ℕ) → List ℕ → Type 0
Polled interval minute l =
    Some (λ s. (s ≤ minute) × ((minute + 1) * 60 ≤ s * 60 + max interval 60)) l

-- Each of the minutes comes later than the one before it by more than the interval less a minute.
abbrev pub Follows : (interval last : ℕ) → List ℕ → Type 0
Follows interval last [] = Unit
Follows interval last (m ∷ ms) = (interval + last * 60 < m * 60 + 60) × Follows interval m ms

abbrev pub Spaced : (interval : ℕ) → List ℕ → Type 0
Spaced interval [] = Unit
Spaced interval (m ∷ ms) = Follows interval m ms

-- The step in minutes is the interval, rounded down, and one at least.
poll_minutes-between :
    (interval : ℕ)
    → (1 ≤ poll_minutes interval)
      × (poll_minutes interval * 60 ≤ max interval 60)
      × (interval < poll_minutes interval * 60 + 60)
unfolding poll_minutes
poll_minutes-between interval = (ground arith, ground arith, ground arith)

range_up-Polled :
    (n start stop step interval m : ℕ)
    → 1 ≤ step
    → step * 60 ≤ max interval 60
    → start ≤ m
    → m < stop
    → stop ≤ start + n
    → Polled interval m (range_up n start stop step)
unfolding range_up
range_up-Polled zero start stop step interval m pos_ small low high enough =
    absurd (omega (arith, low, high, enough))
range_up-Polled (suc n) start stop step interval m pos_ small low high enough =
    elim (Bool-cases (ltb start stop)) [
      | inr e ↦ absurd (passed e)
      | inl e ↦ elim (Bool-cases (ltb m (start + step))) [
        | inl f ↦ rw e (inl (low, in_time (ltb→lt m (start + step) f)))
        | inr f ↦ rw e (
            inr (
              range_up-Polled n (start + step) stop step interval m pos_ small (not_before f) high
                (omega (arith, pos_, enough))))
      ]
    ]
  where
    passed : ltb start stop ≡ false → ⊥
    passed e = ground arith

    in_time : m < start + step → (m + 1) * 60 ≤ start * 60 + max interval 60
    in_time f = omega (arith, f, small)

    not_before : ltb m (start + step) ≡ false → start + step ≤ m
    not_before f = ground arith

range_up-below : (n start stop step : ℕ) → All (λ s. s < stop) (range_up n start stop step)
unfolding range_up
range_up-below zero start stop step = tt
range_up-below (suc n) start stop step = elim (Bool-cases (ltb start stop)) [
  | inl e ↦ rw e (ltb→lt start stop e, range_up-below n (start + step) stop step)
  | inr e ↦ rw e tt
]

range_up-Follows :
    (n start stop step interval : ℕ)
    → interval < step * 60 + 60
    → Follows interval start (range_up n (start + step) stop step)
unfolding range_up
range_up-Follows zero start stop step interval large = tt
range_up-Follows (suc n) start stop step interval large =
    elim (Bool-cases (ltb (start + step) stop)) [
      | inl e ↦
          rw e (omega (arith, large), range_up-Follows n (start + step) stop step interval large)
      | inr e ↦ rw e tt
    ]

poll_schedule-Spaced : (interval : ℕ) → Spaced interval (poll_schedule interval)
unfolding poll_schedule range_up
poll_schedule-Spaced interval =
    range_up-Follows 59 0 60 (poll_minutes interval) interval (poll_minutes-between interval).2

-- Whatever the configured interval in seconds: the poll runs at minutes of the hour only; from the
-- last poll up to any minute of the hour to the end of that minute no more than the interval goes
-- by, or than a minute; and between two polls of the hour in a row more goes by than the interval less a
-- minute.
pub poll_schedule-Polled :
    (interval minute : ℕ)
    → minute < 60
    → All (λ s. s < 60) (poll_schedule interval)
      × Polled interval minute (poll_schedule interval)
      × Spaced interval (poll_schedule interval)
unfolding poll_schedule
poll_schedule-Polled interval minute low =
    let between = poll_minutes-between interval in
    (
      range_up-below 60 0 60 (poll_minutes interval),
      range_up-Polled 60 0 60 (poll_minutes interval) interval minute between.0 between.1
          (omega arith) low (omega arith),
      poll_schedule-Spaced interval,
    )
