-- ===== src/Failures.antt =====
-- The writes that failed.
use projeto_rci.Base.{ℕ, suc, ◌+◌, ◌≤◌, false, [], ◌∷◌, arith, if◌then◌else◌}
use projeto_rci.Node.{Text}
use projeto_rci.Machine.{Socket, Event, wrote, History}

-- One for a write that failed
unfoldable pub failed : Event → ℕ
failed (wrote socket text b) = if b then 0 else 1
failed e = 0

unfoldable pub failures : History → ℕ
failures [] = 0
failures (e ∷ h) = failed e + failures h

pub failures_le : (h : History) → failures h ≤ failures h
failures_le h = omega arith

pub logged_twice_le : (e e' : Event) (h : History) → failures h ≤ failures (e ∷ e' ∷ h)
unfolding failures
logged_twice_le e e' h = omega arith

pub logged_le : (e : Event) (h : History) → failures h ≤ failures (e ∷ h)
unfolding failures
logged_le e h = omega arith

pub failed_le :
    (socket : Socket) (text : Text) (h : History) (m : ℕ)
    → m ≤ failures h
    → suc m ≤ failures (wrote socket text false ∷ h)
unfolding failures failed
failed_le socket text h m le = omega arith
