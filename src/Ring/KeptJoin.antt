-- ===== src/Ring/KeptJoin.antt =====
-- The messages that a node waits for while it joins, and the end of the join, keep to every frame.
use projeto_rci.Base.{◌⊎◌, ◌≡◌, refl, inl, inr, Bool, true, false, not, ◌&&◌, Bool-cases}
use projeto_rci.Node.{Text, Node}
use projeto_rci.Machine.{
  ConnectionState, disconnected, awaiting_node_list, awaiting_user_selection, connecting, connected,
  Socket, System, State, M,
}
use projeto_rci.Failures.{failures_le}
use projeto_rci.Frame.{Frame, After, Keeps}
use projeto_rci.Ring.Awaiting.{Awaits}
use projeto_rci.Ring.Join.{is_connecting}
use projeto_rci.Ring.Messages.{succ_known}
use projeto_rci.Ring.NewNode.{pred_known}
use projeto_rci.Ring.Kept.{on_join_end-After}

-- With the SUCC message there, the join waits for the PRED message, unless it may end.
pred_missing :
    (state : ConnectionState) (b : Bool)
    → (is_connecting state && not b) ≡ false
    → Awaits state false b
pred_missing disconnected b e = tt
pred_missing awaiting_node_list b e = tt
pred_missing awaiting_user_selection b e = tt
pred_missing connecting true e = refl
pred_missing connecting false e = absurd (cc e)
pred_missing connected b e = tt

only_succ_missing :
    (state : ConnectionState) (b : Bool)
    → (is_connecting state && not b) ≡ false
    → Awaits state b false
only_succ_missing disconnected b e = tt
only_succ_missing awaiting_node_list b e = tt
only_succ_missing awaiting_user_selection b e = tt
only_succ_missing connecting true e = refl
only_succ_missing connecting false e = absurd (cc e)
only_succ_missing connected b e = tt

module _ (F : Frame) (sys : System) (conn_printf : Socket → Text → M Bool) where
  pub succ_known-Keeps : (node : Node) → Keeps F (succ_known sys conn_printf node)
  succ_known-Keeps node = record { run = λ s g. at s g (Bool-cases _) }
    where
      seen : State → State
      seen s = record s { second_succ = node; awaiting_succ = false }

      at :
          (s : State)
          → F.Good s
          → ((is_connecting s.connection_state && not s.awaiting_pred) ≡ true)
            ⊎ ((is_connecting s.connection_state && not s.awaiting_pred) ≡ false)
          → After F s (succ_known sys conn_printf node s)
      at s g (inl e) =
          rw e (on_join_end-After F sys s (seen s) g refl refl (λ v. v) (failures_le s.history))
      at s g (inr e) = rw e (
          F.stays s (seen s) g refl refl (λ v. v)
            (λ w. pred_missing s.connection_state s.awaiting_pred e) (failures_le s.history))

  pub pred_known-Keeps : Keeps F (pred_known sys conn_printf)
  pred_known-Keeps = record { run = λ s g. at s g (Bool-cases _) }
    where
      seen : State → State
      seen s = record s { awaiting_pred = false }

      at :
          (s : State)
          → F.Good s
          → ((is_connecting s.connection_state && not s.awaiting_succ) ≡ true)
            ⊎ ((is_connecting s.connection_state && not s.awaiting_succ) ≡ false)
          → After F s (pred_known sys conn_printf s)
      at s g (inl e) =
          rw e (on_join_end-After F sys s (seen s) g refl refl (λ v. v) (failures_le s.history))
      at s g (inr e) = rw e (
          F.stays s (seen s) g refl refl (λ v. v)
            (λ w. only_succ_missing s.connection_state s.awaiting_succ e) (failures_le s.history))
