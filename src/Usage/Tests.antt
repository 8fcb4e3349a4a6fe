-- ===== src/Usage/Tests.antt =====
-- A small history of calls, over two days.
use smallpieclaw.Prelude.{◌≡◌, refl, List, [], ◌∷◌, arith, ◌+◌}
use smallpieclaw.Usage.{Call, get_today_totals, replay}
use smallpieclaw.Usage.Totals.{prompt_on, completion_on, get_today_totals-replay}

abbrev calls : List Call
calls =
    record { day = 1; model = "small"; prompt = 100; completion = 10 }
    ∷ record { day = 2; model = "large"; prompt = 30; completion = 3 }
    ∷ record { day = 2; model = "small"; prompt = 5; completion = 1 }
    ∷ []

get_today_totals-replay_example : get_today_totals 2 (replay calls []) ≡ record {
  prompt = prompt_on 2 calls;
  completion = completion_on 2 calls;
  total = prompt_on 2 calls + completion_on 2 calls;
}
get_today_totals-replay_example = get_today_totals-replay 2 1 calls (omega arith)

totals : get_today_totals 2 (replay calls []) ≡ record { prompt = 35; completion = 4; total = 39 }
unfolding get_today_totals replay
totals = refl
