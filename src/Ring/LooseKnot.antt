-- ===== src/Ring/LooseKnot.antt =====
-- `conn_printf`, whatever its fuel, keeps to every frame that asks nothing of the tables.
use projeto_rci.Base.{ℕ, zero, suc, Bool, true, false}
use projeto_rci.Node.{Text, out_of_fuel}
use projeto_rci.Machine.{Socket, System, M}
use projeto_rci.Frame.{Frame, Keeps, bind-Keeps, then-Keeps, pure-Keeps}
use projeto_rci.Ring.Loose.{IsLoose, removes}
use projeto_rci.Ring.Kept.{write_message-Keeps}
use projeto_rci.Ring.KeptBroken.{handle_broken_socket-Keeps}
use projeto_rci.Ring.Knot.{conn_printf, after_write}

module _ (F : Frame) (loose : IsLoose F) (may_stop : F.Stops out_of_fuel) (sys : System) where
  after_write-Keeps :
      (printf : Socket → Text → M Bool)
      → ((socket : Socket) (text : Text) → Keeps F (printf socket text))
      → (socket : Socket) (b : Bool) → Keeps F (after_write sys printf socket b)
  after_write-Keeps printf h socket true = pure-Keeps F true
  after_write-Keeps printf h socket false =
      then-Keeps F (handle_broken_socket-Keeps F printf h (removes F loose printf h) sys socket)
        (pure-Keeps F false)

  -- Failed writes, and the new connections that they lead to, included
  pub loose_printf :
      (fuel : ℕ) (socket : Socket) (text : Text) → Keeps F (conn_printf sys fuel socket text)
  unfolding conn_printf
  loose_printf zero socket text = record { run = λ s g. may_stop }
  loose_printf (suc fuel) socket text =
      bind-Keeps F (write_message-Keeps F sys socket text)
        (after_write-Keeps (conn_printf sys fuel) (loose_printf fuel) socket)
