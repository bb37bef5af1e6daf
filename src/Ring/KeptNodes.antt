-- ===== src/Ring/KeptNodes.antt =====
-- The handlers of messages by the role of the connection keep to every frame that `conn_printf`, `remove_neighbor_connection` and
-- `update_routing_and_announce_given_new_path` keep to.
use projeto_rci.Base.{ℕ, Bool, Option, none, some}
use projeto_rci.Node.{NodeId, Text, codes, Node}
use projeto_rci.Routing.Path.{RoutePath}
use projeto_rci.Machine.{Socket, Pointer, System, M}
use projeto_rci.Frame.{Frame, Keeps, keeps}
use projeto_rci.Ring.Broken.{close_chord_to, connect_to_succ}
use projeto_rci.Announce.{send_shortest_paths, update_routing_and_announce_given_new_path}
use projeto_rci.Wire.Scan.{read, scan_node, scan_named}
use projeto_rci.Ring.Join.{remove_neighbor_connection, greet}
use projeto_rci.Ring.Messages.{
  unless, set_node_id, handle_message_from_any_node, handle_succ, handle_succ_entry,
  succ_entry_read, succ_read, handle_message_from_succ, handle_message_from_pred,
}
use projeto_rci.Ring.NewNode.{
  close_new_node, greet_alone, accept_alone, handle_entry_alone, replace_pred, tell_entry,
  handle_entry_in_ring, handle_entry, greet_pred, handle_pred, handle_chord, chord_read, pred_read,
  entry_read, handle_message_from_new_node, handle_message_from_chord, handle_message,
}
use projeto_rci.Ring.Kept.{
  close_connection-Keeps, find_by_socket-Keeps, find_by_node_id-Keeps, leave_ring-Keeps,
  greet-Keeps, send_shortest_paths-Keeps,
}
use projeto_rci.Ring.KeptJoin.{succ_known-Keeps, pred_known-Keeps}
use projeto_rci.Connections.Laws.{moving}
use projeto_rci.Ring.KeptConnect.{connect_succ-Keeps}
use projeto_rci.Ring.KeptMessages.{any_node-Keeps, set_node_id-Keeps, unless-Keeps}
use projeto_rci.Ring.KeptBroken.{close_chord_to-Keeps, connect_to_succ-Keeps}

module _ (F : Frame) (conn_printf : Socket → Text → M Bool)
    (printf : (socket : Socket) (text : Text) → Keeps F (conn_printf socket text))
    (removes : (id : NodeId) → Keeps F (remove_neighbor_connection conn_printf id)) (sys : System)
    (updates : (neighbor_id recipient_id : NodeId) (path : Option RoutePath)
      → Keeps F (
          update_routing_and_announce_given_new_path conn_printf neighbor_id recipient_id
            path)) where
  any-Keeps :
      (message : Text) (conn : Pointer)
      → Keeps F (handle_message_from_any_node sys conn_printf message conn)
  any-Keeps = any_node-Keeps F conn_printf printf removes sys updates

  chord_to-Keeps : (id : NodeId) → Keeps F (close_chord_to sys conn_printf id)
  chord_to-Keeps = close_chord_to-Keeps F conn_printf printf removes sys

  to_succ-Keeps : Keeps F (connect_to_succ sys conn_printf)
  to_succ-Keeps = connect_to_succ-Keeps F conn_printf printf removes sys

  greets : (conn : ℕ) (message : Text) → Keeps F (greet conn_printf conn message)
  greets = greet-Keeps F conn_printf printf

  node_id-Keeps : (i : ℕ) (id : NodeId) → Keeps F (set_node_id i id)
  node_id-Keeps = set_node_id-Keeps F conn_printf printf removes sys

  or-Keeps : {m : M (Unit {0})} (b : Bool) → Keeps F m → Keeps F (unless b m)
  or-Keeps = unless-Keeps F conn_printf printf removes sys

  succ-Keeps : (node : Node) → Keeps F (handle_succ sys conn_printf node)
  unfolding handle_succ
  succ-Keeps node = search (keeps, or-Keeps, succ_known-Keeps) depth 20 fits 4000

  succ_entry-Keeps : (node : Node) → Keeps F (handle_succ_entry sys conn_printf node)
  unfolding handle_succ_entry
  succ_entry-Keeps node =
      search
        (
          keeps, find_by_node_id-Keeps, leave_ring-Keeps, printf, close_connection-Keeps, removes,
          to_succ-Keeps,
        )
        depth 30 fits 8000

  succ_entry_read-Keeps :
      (message : Text) (r : Option Node) → Keeps F (succ_entry_read sys conn_printf message r)
  succ_entry_read-Keeps message none = search (keeps, any-Keeps) depth 20 fits 4000
  succ_entry_read-Keeps message (some node) = succ_entry-Keeps node

  succ_read-Keeps :
      (message : Text) (r : Option Node) → Keeps F (succ_read sys conn_printf message r)
  succ_read-Keeps message none =
      succ_entry_read-Keeps message (read (scan_node (codes "ENTRY")) message)
  succ_read-Keeps message (some node) = succ-Keeps node

  from_succ-Keeps : (message : Text) → Keeps F (handle_message_from_succ sys conn_printf message)
  unfolding handle_message_from_succ
  from_succ-Keeps message = succ_read-Keeps message (read (scan_node (codes "SUCC")) message)

  from_pred-Keeps : (message : Text) → Keeps F (handle_message_from_pred sys conn_printf message)
  unfolding handle_message_from_pred
  from_pred-Keeps message = search (keeps, any-Keeps, leave_ring-Keeps) depth 20 fits 4000

  close_new-Keeps : Keeps F close_new_node
  close_new-Keeps = search (keeps, close_connection-Keeps) depth 20

  greet_alone-Keeps : (p : Pointer) → Keeps F (greet_alone sys conn_printf p)
  greet_alone-Keeps none = leave_ring-Keeps F sys
  greet_alone-Keeps (some conn) = search (keeps, moving, greets) depth 20 fits 4000

  alone-Keeps : (conn : ℕ) (node : Node) → Keeps F (handle_entry_alone sys conn_printf conn node)
  unfolding handle_entry_alone accept_alone
  alone-Keeps conn node =
      search (keeps, node_id-Keeps, close_new-Keeps, printf, connect_succ-Keeps, greet_alone-Keeps)
        depth 30 fits 8000

  replace-Keeps : Keeps F (replace_pred sys conn_printf)
  unfolding replace_pred
  replace-Keeps = search (keeps, moving, close_connection-Keeps, removes) depth 20 fits 4000

  sends : (conn : ℕ) → Keeps F (send_shortest_paths conn_printf conn)
  sends = send_shortest_paths-Keeps F conn_printf printf

  tell_entry-Keeps : (conn : ℕ) (node : Node) → Keeps F (tell_entry sys conn_printf conn node)
  tell_entry-Keeps conn node = search (keeps, printf, sends) depth 30 fits 8000

  entry-Keeps : (node : Node) → Keeps F (handle_entry sys conn_printf node)
  unfolding handle_entry handle_entry_in_ring
  entry-Keeps node =
      search (keeps, alone-Keeps, node_id-Keeps, tell_entry-Keeps, replace-Keeps, close_new-Keeps)
        depth 30 fits 8000

  pred-Keeps : (id : NodeId) → Keeps F (handle_pred sys conn_printf id)
  unfolding handle_pred greet_pred
  pred-Keeps id =
      search
        (
          keeps, moving, close_new-Keeps, close_connection-Keeps, chord_to-Keeps, node_id-Keeps,
          greets, pred_known-Keeps,
        )
        depth 30 fits 8000

  chord-Keeps : (id : NodeId) → Keeps F (handle_chord sys conn_printf id)
  unfolding handle_chord
  chord-Keeps id =
      search (keeps, moving, find_by_node_id-Keeps, node_id-Keeps, sends) depth 30 fits 8000

  chord_read-Keeps : (r : Option NodeId) → Keeps F (chord_read sys conn_printf r)
  chord_read-Keeps none = search keeps
  chord_read-Keeps (some id) = chord-Keeps id

  pred_read-Keeps :
      (message : Text) (r : Option NodeId) → Keeps F (pred_read sys conn_printf message r)
  pred_read-Keeps message none = chord_read-Keeps (read (scan_named (codes "CHORD")) message)
  pred_read-Keeps message (some id) = pred-Keeps id

  entry_read-Keeps :
      (message : Text) (r : Option Node) → Keeps F (entry_read sys conn_printf message r)
  entry_read-Keeps message none = pred_read-Keeps message (read (scan_named (codes "PRED")) message)
  entry_read-Keeps message (some node) = entry-Keeps node

  from_new-Keeps : (message : Text) → Keeps F (handle_message_from_new_node sys conn_printf message)
  unfolding handle_message_from_new_node
  from_new-Keeps message = entry_read-Keeps message (read (scan_node (codes "ENTRY")) message)

  from_chord-Keeps :
      (message : Text) (conn : Pointer)
      → Keeps F (handle_message_from_chord sys conn_printf message conn)
  unfolding handle_message_from_chord
  from_chord-Keeps message conn = search (keeps, any-Keeps) depth 20 fits 4000

  pub handle_message-Keeps :
      (socket : Socket) (message : Text) → Keeps F (handle_message sys conn_printf socket message)
  unfolding handle_message
  handle_message-Keeps socket message =
      search
        (
          keeps, find_by_socket-Keeps, from_new-Keeps, from_pred-Keeps, from_succ-Keeps,
          from_chord-Keeps,
        )
        depth 20 fits 4000
