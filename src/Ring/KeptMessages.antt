-- ===== src/Ring/KeptMessages.antt =====
-- The handlers of messages keep to every frame that `conn_printf`, `remove_neighbor_connection` and
-- `update_routing_and_announce_given_new_path` keep to.
use projeto_rci.Base.{ℕ, Bool, true, false, Option, none, some, [], ◌∷◌}
use projeto_rci.Node.{NodeId, Text}
use projeto_rci.Routing.Path.{RoutePath}
use projeto_rci.Machine.{Socket, Pointer, System, M}
use projeto_rci.Halts.{halting}
use projeto_rci.Frame.{Frame, Keeps, keeps, pure-Keeps}
use projeto_rci.Announce.{update_routing_and_announce_given_new_path}
use projeto_rci.Wire.Scan.{read, scan_route, scan_chat, scan_route_path}
use projeto_rci.Ring.Join.{remove_neighbor_connection}
use projeto_rci.Ring.Messages.{
  unless, set_node_id, route_read, handle_route_path, handle_route, handle_chat, chat_read,
  no_path_read, path_read, handle_message_from_any_node,
}
use projeto_rci.Ring.Kept.{forward_message-Keeps}

module _ (F : Frame) (conn_printf : Socket → Text → M Bool)
    (printf : (socket : Socket) (text : Text) → Keeps F (conn_printf socket text))
    (removes : (id : NodeId) → Keeps F (remove_neighbor_connection conn_printf id))
    (sys : System) where
  pub unless-Keeps : {m : M (Unit {0})} (b : Bool) → Keeps F m → Keeps F (unless b m)
  unless-Keeps true p = pure-Keeps F tt
  unless-Keeps false p = p

  pub set_node_id-Keeps : (i : ℕ) (id : NodeId) → Keeps F (set_node_id i id)
  set_node_id-Keeps i id = search keeps depth 20

  module _
      (updates : (neighbor_id recipient_id : NodeId) (path : Option RoutePath)
        → Keeps F (
            update_routing_and_announce_given_new_path conn_printf neighbor_id recipient_id
              path)) where
    route_read-Keeps :
        (neighbor_id recipient_id : NodeId) (path : Option RoutePath)
        → Keeps F (route_read sys conn_printf neighbor_id recipient_id path)
    route_read-Keeps neighbor_id recipient_id none = search keeps
    route_read-Keeps neighbor_id recipient_id (some path) =
        search (keeps, halting, updates) depth 20

    route_path-Keeps :
        (conn : Pointer) (neighbor_id recipient_id : NodeId) (text : Text)
        → Keeps F (handle_route_path sys conn_printf conn neighbor_id recipient_id text)
    unfolding handle_route_path
    route_path-Keeps conn neighbor_id recipient_id text =
        search (keeps, halting, unless-Keeps, route_read-Keeps) depth 20 fits 4000

    route-Keeps :
        (conn : Pointer) (neighbor_id recipient_id : NodeId)
        → Keeps F (handle_route sys conn_printf conn neighbor_id recipient_id)
    unfolding handle_route
    route-Keeps conn neighbor_id recipient_id =
        search (keeps, halting, unless-Keeps, updates) depth 20 fits 4000

    chat-Keeps :
        (sender_id recipient_id : NodeId) (text : Text)
        → Keeps F (handle_chat sys conn_printf sender_id recipient_id text)
    unfolding handle_chat
    chat-Keeps sender_id recipient_id text =
        search (keeps, halting, forward_message-Keeps F conn_printf printf) depth 20 fits 4000

    chat_read-Keeps :
        (r : Option ((NodeId × NodeId) × Text)) → Keeps F (chat_read sys conn_printf r)
    chat_read-Keeps none = search keeps
    chat_read-Keeps (some (ids, [])) = search keeps
    chat_read-Keeps (some ((sender_id, recipient_id), c ∷ text)) =
        search (keeps, halting, chat-Keeps) depth 20 fits 4000

    no_path_read-Keeps :
        (conn : Pointer) (message : Text) (r : Option (NodeId × NodeId))
        → Keeps F (no_path_read sys conn_printf conn message r)
    no_path_read-Keeps conn message none = chat_read-Keeps (scan_chat message)
    no_path_read-Keeps conn message (some (neighbor_id, recipient_id)) =
        search (keeps, halting, route-Keeps) depth 20

    path_read-Keeps :
        (conn : Pointer) (message : Text) (r : Option (NodeId × NodeId × Text))
        → Keeps F (path_read sys conn_printf conn message r)
    path_read-Keeps conn message none = no_path_read-Keeps conn message (read scan_route message)
    path_read-Keeps conn message (some (neighbor_id, recipient_id, text)) =
        search (keeps, halting, route_path-Keeps) depth 20

    pub any_node-Keeps :
        (message : Text) (conn : Pointer)
        → Keeps F (handle_message_from_any_node sys conn_printf message conn)
    unfolding handle_message_from_any_node
    any_node-Keeps message conn = path_read-Keeps conn message (read scan_route_path message)
