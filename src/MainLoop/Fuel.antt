-- ===== src/MainLoop/Fuel.antt =====
-- How much fuel the main loop needs.
use projeto_rci.Base.{ℕ, suc, ◌≤◌, Bool, arith}
use projeto_rci.Node.{Result, ok, stop}
use projeto_rci.Machine.{System, State}
use projeto_rci.Frame.{HaltsOr, After}
use projeto_rci.Ring.Knot.{conn_printf}
use projeto_rci.Ring.Fuel.{FailsAtMost, fuelled, fuelled-IsLoose, printf}
use projeto_rci.MainLoop.{Select, turns}
use projeto_rci.MainLoop.Loose.{rounds-Keeps}

-- If no more than `k` writes fail, that is, if all writes succeed once `k` have failed, then `k +
-- 1` units of fuel are enough: whatever the user types and whatever is received, any number of
-- rounds of the main loop return, or stop for another reason than lack of fuel.
pub turns-Halts :
    (sys : System) (k fuel : ℕ) (selects : Select) (n : ℕ) (s : State)
    → FailsAtMost sys k
    → k ≤ fuel
    → HaltsOr (turns sys (conn_printf sys (suc fuel)) selects n s)
turns-Halts sys k fuel selects n s few enough =
    go (turns sys (conn_printf sys (suc fuel)) selects n s) (
      (rounds-Keeps (fuelled 0) (fuelled-IsLoose 0) sys (conn_printf sys (suc fuel))
          (printf sys k few fuel 0 (omega arith)) selects n).run
        s (omega arith))
  where
    go : (r : Result (Bool × State)) → After (fuelled 0) s r → HaltsOr r
    go (ok x) h = tt
    go (stop e) h = h
