-- ===== src/Ring/Joined.antt =====
-- ring.c: the end of a join, and the order of the SUCC and the PRED message.
use projeto_rci.Base.{◌≡◌, refl, Bool, true, false, ◌==ℤ◌}
use projeto_rci.Node.{Text, Node, ok}
use projeto_rci.Machine.{Socket, System, State, M, connecting, ◌>>◌}
use projeto_rci.Ring.Join.{on_join_end}
use projeto_rci.Ring.Messages.{handle_succ}
use projeto_rci.Ring.NewNode.{pred_known}

-- A node that joins a ring and has received neither message
pub record IsJoining (s : State) : Type 0 where
  pub joining : s.connection_state ≡ connecting
  pub no_succ : s.awaiting_succ ≡ true
  pub no_pred : s.awaiting_pred ≡ true

module _ (sys : System) (conn_printf : Socket → Text → M Bool) where
  -- A node that is CONNECTING and has received neither of the two messages that it waits for joins
  -- the ring in the same way whichever comes first: the SUCC message of a second successor other
  -- than the successor, or the PRED message, once the predecessor has been greeted. The first one
  -- does not end the join, and with the second `on_join_end` is called in the state that has the
  -- second successor and awaits nothing.
  pub handle_succ-pred_known :
      (node : Node) (s : State)
      → IsJoining s
      → (node.id ==ℤ s.succ.id) ≡ false
      → (handle_succ sys conn_printf node s
          ≡ ok (tt, record s { second_succ = node; awaiting_succ = false }))
        × (pred_known sys conn_printf s ≡ ok (tt, record s { awaiting_pred = false }))
        × ((handle_succ sys conn_printf node >> pred_known sys conn_printf) s
            ≡ on_join_end sys
                (record s { second_succ = node; awaiting_succ = false; awaiting_pred = false }))
        × ((pred_known sys conn_printf >> handle_succ sys conn_printf node) s
            ≡ on_join_end sys
                (record s { second_succ = node; awaiting_succ = false; awaiting_pred = false }))
  unfolding handle_succ
  handle_succ-pred_known node s j other = (
    rw (other, j.no_pred, j.joining) refl,
    rw (j.no_succ, j.joining) refl,
    rw (other, j.no_pred, j.joining) refl,
    rw (j.no_succ, j.joining, other) refl,
  )
