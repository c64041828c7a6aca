-- ===== src/Worker/Tests.antt =====
-- The schedules at the default settings.
use hotels_aggregator.Prelude.{◌<◌, arith}
use hotels_aggregator.Prelude.Lists.{All}
use hotels_aggregator.Worker.{poll_schedule}
use hotels_aggregator.Worker.Schedule.{Polled, Spaced, poll_schedule-Polled}

poll_schedule-Polled_example :
    All (λ s. s < 60) (poll_schedule 900)
    × Polled 900 59 (poll_schedule 900)
    × Spaced 900 (poll_schedule 900)
poll_schedule-Polled_example = poll_schedule-Polled 900 59 (omega arith)
