-- ===== src/Threads/InitOnce/Tests.antt =====
-- Runs of `avs_init_once`, and the witnesses: the thread 1 initializes while the thread 2 waits.
use avs_commons.Threads.{System, run, start}
use avs_commons.Threads.Exclusion.{Reach-run}
use avs_commons.Threads.InitOnce.{
  InitState, initialized, Pc, running, returned, Event, step, init, at_work,
}
use avs_commons.Threads.InitOnce.Once.{once}
use avs_commons.Threads.InitOnce.Progress.{CanReturn, can_return}
use avs_commons.Common.{ℕ, true, false, List, [], ◌∷◌, ◌≡◌, refl}
use avs_commons.Common.Int.{pos, negsuc}

abbrev lucky : Event
lucky = record { spurious = false; result = pos 0 }

abbrev spurious : Event
spurious = record { spurious = true; result = pos 0 }

abbrev failing : Event
failing = record { spurious = false; result = negsuc 0 }

-- The thread 2 calls, and the exchange of the thread 1 succeeds at the second attempt.
abbrev entering : List (ℕ × Event)
entering = (1, lucky) ∷ (2, lucky) ∷ (1, spurious) ∷ (1, lucky) ∷ (2, lucky) ∷ []

abbrev finishing : List (ℕ × Event)
finishing = (1, lucky) ∷ (1, lucky) ∷ []

abbrev working : System InitState Pc
working = run step entering init

abbrev finished : System InitState Pc
finished = run step finishing working

-- After a failure of the function another call may try again.
failed : (run step ((1, failing) ∷ (1, failing) ∷ (2, lucky) ∷ []) working).pc 2 ≡ running
unfolding step
failed = refl

waiter_returns : (run step ((2, lucky) ∷ []) finished).pc 2 ≡ returned (pos 0)
unfolding step
waiter_returns = refl

once_example :
    ((run step ((2, lucky) ∷ []) finished).shared ≡ initialized)
    × (at_work ((run step ((2, lucky) ∷ []) finished).pc 3) ≡ false)
unfolding step
once_example =
    once finished 1 ((2, lucky) ∷ []) 3
      (Reach-run step finishing working (Reach-run step entering init start)) refl

can_return_example : CanReturn 2 working
unfolding step
can_return_example = can_return working 2 (Reach-run step entering init start) refl
