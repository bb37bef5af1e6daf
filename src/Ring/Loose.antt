-- ===== src/Ring/Loose.antt =====
-- Frames that ask nothing of the tables: the functions that change them keep to such a frame, too.
use projeto_rci.Base.{ℕ, ◌≤◌, Bool, Option, none, some}
use projeto_rci.Node.{NodeId, NodeIndex, Text}
use projeto_rci.Routing.Path.{RoutePath}
use projeto_rci.Ring.Awaiting.{IsAwaiting}
use projeto_rci.Connections.Laws.{PointersOpen}
use projeto_rci.Machine.{Socket, State, M, modify}
use projeto_rci.Failures.{failures}
use projeto_rci.Frame.{Frame, Keeps, keeps}
use projeto_rci.Halts.{halting}
use projeto_rci.Announce.{
  update_routing_and_announce_given_new_path, announce_new_path, drop_path, remove_column,
  remove_routing_neighbor,
}
use projeto_rci.Ring.Join.{remove_neighbor_connection}
use projeto_rci.Ring.Kept.{announce_new_path-Keeps, find_by_node_id-Keeps}

-- The relation holds wherever the pointers, what a join waits for and the failed writes are as a frame
-- asks.
abbrev pub IsLoose : Frame → Type 0
IsLoose F =
    (s s' : State)
    → F.Good s
    → (PointersOpen s → PointersOpen s')
    → (IsAwaiting s → IsAwaiting s')
    → failures s.history ≤ failures s'.history
    → F.Rel s s'

module _ (F : Frame) (loose : IsLoose F) where
  pub modify-Keeps :
      (f : State → State)
      → ((s : State) → PointersOpen s → PointersOpen (f s))
      → ((s : State) → IsAwaiting s → IsAwaiting (f s))
      → ((s : State) → failures s.history ≤ failures (f s).history)
      → Keeps F (modify f)
  modify-Keeps f p w l = record { run = λ s g. loose s (f s) g (p s) (w s) (l s) }

  module _ (conn_printf : Socket → Text → M Bool)
      (printf : (socket : Socket) (text : Text) → Keeps F (conn_printf socket text)) where
    announces : (id : NodeId) → Keeps F (announce_new_path conn_printf id)
    announces = announce_new_path-Keeps F conn_printf printf

    pub updates :
        (neighbor_id recipient_id : NodeId) (path : Option RoutePath)
        → Keeps F
            (update_routing_and_announce_given_new_path conn_printf neighbor_id recipient_id path)
    unfolding update_routing_and_announce_given_new_path
    updates neighbor_id recipient_id path =
        search (keeps, halting, modify-Keeps, announces) depth 20 fits 4000

    drops : (id : NodeId) (r : ℕ) → Keeps F (drop_path conn_printf id r)
    drops id r = search (keeps, updates) depth 20 fits 4000

    column-Keeps : (id : NodeId) (i : NodeIndex) → Keeps F (remove_column conn_printf id i)
    column-Keeps id none = search keeps
    column-Keeps id (some k) = search (keeps, drops, modify-Keeps) depth 20 fits 4000

    pub neighbor-Keeps : (id : NodeId) → Keeps F (remove_routing_neighbor conn_printf id)
    unfolding remove_routing_neighbor
    neighbor-Keeps id = search (keeps, halting, column-Keeps) depth 20 fits 4000

    pub removes : (id : NodeId) → Keeps F (remove_neighbor_connection conn_printf id)
    unfolding remove_neighbor_connection
    removes id = search (keeps, neighbor-Keeps, find_by_node_id-Keeps) depth 20 fits 4000
