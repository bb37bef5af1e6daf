-- ===== src/Ring/Fuel.antt =====
-- How much fuel a message needs: a call of `conn_printf` is nested in another one only where a write has
-- failed.
use projeto_rci.Base.{ℕ, zero, suc, ◌+◌, ◌≤◌, ◌<◌, ◌≡◌, Bool, true, false, take, arith, ◌∷◌}
use projeto_rci.Node.{Text, Result, ok, stop}
use projeto_rci.Machine.{Socket, History, wrote, with_history, System, State}
use projeto_rci.Failures.{failures, logged_le, failed_le}
use projeto_rci.Frame.{Frame, Halts, After, Keeps, then-Keeps, pure-Keeps}
use projeto_rci.Connections.{max_message_length, write_message}
use projeto_rci.Ring.Loose.{IsLoose, removes}
use projeto_rci.Ring.KeptBroken.{handle_broken_socket-Keeps}
use projeto_rci.Ring.Knot.{conn_printf, after_write}

-- No more than `k` writes fail.
abbrev pub FailsAtMost : System → ℕ → Type 0
FailsAtMost sys k =
    (h : History) (socket : Socket) (text : Text) → k ≤ failures h → sys.writes h socket text ≡ true

-- States in which `m` writes have failed. A function may stop, but not for lack of fuel.
abbrev pub fuelled : ℕ → Frame
fuelled m = record {
  Good = λ s. m ≤ failures s.history;
  Rel = λ s s'. (m ≤ failures s'.history) × (failures s.history ≤ failures s'.history);
  Stops = Halts;
  halts = λ e h. h;
  stays = λ s s' g t n v w l. (omega arith, l);
  compose = λ a b c p q. (q.0, omega arith);
  good = λ s s' h. h.0;
}

pub fuelled-IsLoose : (m : ℕ) → IsLoose (fuelled m)
fuelled-IsLoose m s s' g p w l = (omega arith, l)

-- What keeps to the frame after another failed write does so from before it.
earlier :
    {A : Type 0} (m : ℕ) (s t : State) (r : Result (A × State))
    → m ≤ failures s.history
    → failures s.history ≤ failures t.history
    → After (fuelled (suc m)) t r
    → After (fuelled m) s r
earlier m s t (ok (a, s')) g l h = (omega arith, omega arith)
earlier m s t (stop e) g l h = h

below : (k n : ℕ) → (k ≤ n → false ≡ true) → n < k
below k n e = ground arith

module _ (sys : System) (k : ℕ) (few : FailsAtMost sys k) where
  -- A write that fails leaves one failure less to come.
  after_failure :
      (n m : ℕ) (socket : Socket) (text : Text) (s : State)
      → ((other : Socket) (message : Text)
          → Keeps (fuelled (suc m)) (conn_printf sys (suc n) other message))
      → m ≤ failures s.history
      → After (fuelled m) s (
          after_write sys
            (conn_printf sys (suc n))
            socket
            false
            (with_history s (wrote socket text false ∷ s.history)))
  after_failure n m socket text s inner g =
      let t = with_history s (wrote socket text false ∷ s.history) in
      let F = fuelled (suc m) in
      earlier m s t (after_write sys (conn_printf sys (suc n)) socket false t) g
        (logged_le (wrote socket text false) s.history)
        ((then-Keeps F
            (handle_broken_socket-Keeps F (conn_printf sys (suc n)) inner
              (removes F (fuelled-IsLoose (suc m)) (conn_printf sys (suc n)) inner) sys socket)
            (pure-Keeps F false)).run
          t (failed_le socket text s.history m g))

  -- Two cases of a write, the second only as long as fewer than `k` have failed.
  by_answer :
      (n m : ℕ) (socket : Socket) (text : Text) (s : State) (b : Bool)
      → m ≤ failures s.history
      → (k ≤ failures s.history → b ≡ true)
      → ((failures s.history < k)
          → After (fuelled m) s (
              after_write sys
                (conn_printf sys n)
                socket
                false
                (with_history s (wrote socket text false ∷ s.history))))
      → After (fuelled m) s (
          after_write sys
            (conn_printf sys n)
            socket
            b
            (with_history s (wrote socket text b ∷ s.history)))
  by_answer n m socket text s true g e fails =
      let l = logged_le (wrote socket text true) s.history in (omega (arith, l), l)
  by_answer n m socket text s false g e fails = fails (below k (failures s.history) e)

  -- So do calls of `conn_printf` with a unit of fuel more than there are failures still to come.
  pub printf :
      (n m : ℕ)
      → k ≤ m + n
      → (socket : Socket) (text : Text) → Keeps (fuelled m) (conn_printf sys (suc n) socket text)
  unfolding conn_printf write_message
  printf zero m le socket text = record {
    run = λ s g.
        let message = take max_message_length text in
        by_answer zero m socket message s (sys.writes s.history socket message) g
          (few s.history socket message) (λ lt. absurd (omega arith));
  }
  printf (suc n) m le socket text = record {
    run = λ s g.
        let message = take max_message_length text in
        by_answer (suc n) m socket message s (sys.writes s.history socket message) g
          (few s.history socket message)
          (λ lt. after_failure n m socket message s (printf n (suc m) (omega arith)) g);
  }
