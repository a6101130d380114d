-- ===== src/Loss/Samples.antt =====
-- The loss reporters of telemetry/bcc at a short series of polls.
use linux_xai_security_assis.Base.{arith, ◌≡◌, refl, none, some, List, [], ◌∷◌}
use linux_xai_security_assis.Loss.{Reading, poll_all, flush, new_poller}
use linux_xai_security_assis.Loss.Totals.{lost_total, growth, counters, NeverFalls, flush-growth}

-- Five lost, an unreadable poll, nine in all, and a recreated map with two.
abbrev readings : List Reading
readings =
    record { now = 1; wall_clock = 101; counter = some 5 }
    ∷ record { now = 2; wall_clock = 102; counter = none }
    ∷ record { now = 3; wall_clock = 103; counter = some 9 }
    ∷ record { now = 9; wall_clock = 109; counter = some 2 }
    ∷ []

flush-growth_example :
    lost_total (flush 10 110 (poll_all 5 readings new_poller)).reporter.printed
    ≡ growth 0 (counters readings)
flush-growth_example = flush-growth 5 10 110 readings

nine_are_reported : growth 0 (counters readings) ≡ 9
nine_are_reported = refl

abbrev steady : List Reading
steady =
    record { now = 1; wall_clock = 101; counter = some 5 }
    ∷ record { now = 2; wall_clock = 102; counter = some 7 }
    ∷ []

steady-NeverFalls : NeverFalls 0 (counters steady)
steady-NeverFalls = ground arith
