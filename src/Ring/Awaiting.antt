-- ===== src/Ring/Awaiting.antt =====
-- ring.c: what a node that joins a ring waits for, `awaiting_succ` and `awaiting_pred`.
use projeto_rci.Base.{◌≡◌, refl, Bool, true, ◌||◌}
use projeto_rci.Machine.{
  ConnectionState, disconnected, awaiting_node_list, awaiting_user_selection, connecting, connected,
  State,
}

-- A node that joins waits for the SUCC message, for the PRED message, or for both.
abbrev pub Awaits : ConnectionState → Bool → Bool → Type 0
Awaits connecting awaiting_succ awaiting_pred = (awaiting_succ || awaiting_pred) ≡ true
Awaits state awaiting_succ awaiting_pred = Unit

abbrev pub IsAwaiting : State → Type 0
IsAwaiting s = Awaits s.connection_state s.awaiting_succ s.awaiting_pred

pub succ_missing :
    (state : ConnectionState) (awaiting_pred : Bool) → Awaits state true awaiting_pred
succ_missing disconnected p = tt
succ_missing awaiting_node_list p = tt
succ_missing awaiting_user_selection p = tt
succ_missing connecting p = refl
succ_missing connected p = tt
