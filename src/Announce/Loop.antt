-- ===== src/Announce/Loop.antt =====
-- What `announce_new_path` of routing.c writes, where all writes succeed.
use projeto_rci.Base.{
  ℕ, zero, suc, ◌≡◌, refl, sym, ap, ◌∙◌, ◌≢◌, Bool, true, false, Option, none, some, ◌∷◌, ◌==ℤ◌,
  if◌then◌else◌, Bool-cases, inl, inr, take,
}
use projeto_rci.Node.{NodeId, NodeIndex, Text, no_node_id, max_recipients, Result, ok, stop}
use projeto_rci.Machine.{
  Socket, no_socket, max_connections, Connection, wrote, History, with_history, System, State, M,
  lift, bind_ok, for_loop, ◌>>=◌,
}
use projeto_rci.Routing.Path.{RoutePath}
use projeto_rci.Routing.Tables.{Tables, find_recipient, get_recipient_index, recipient_or_new}
use projeto_rci.Routing.Indices.{held}
use projeto_rci.Routing.Invariant.{IsValid}
use projeto_rci.Wire.Print.{get_route_message}
use projeto_rci.Connections.{max_message_length, write_message}
use projeto_rci.Announce.{
  announce_new_path, announce_path, path_to_announce, path_to_send, send_if_open,
}
use projeto_rci.Ring.Knot.{conn_printf}

abbrev pub AllWritten : System → Type 0
AllWritten sys = (h : History) (socket : Socket) (text : Text) → sys.writes h socket text ≡ true

abbrev pub logged : Socket → Text → History → History
logged socket text h = wrote socket (take max_message_length text) true ∷ h

-- The history after the message was written to the open ones of `n` connections from `i` on.
abbrev pub announced : ℕ → ℕ → (ℕ → Connection) → Text → History → History
announced zero i conns msg h = h
announced (suc n) i conns msg h =
    let later = if (conns i).socket ==ℤ no_socket then h else logged (conns i).socket msg h in
    announced n (suc i) conns msg later

module _ (sys : System) (fuel : ℕ) where
  -- A write that succeeds: with one unit of fuel or more, `conn_printf` returns, the message, cut
  -- to the buffer, has been written, and nothing but the history changes.
  pub conn_printf-writes :
      (socket : Socket) (text : Text) (s : State)
      → sys.writes s.history socket (take max_message_length text) ≡ true
      → conn_printf sys (suc fuel) socket text s
        ≡ ok (true, with_history s (logged socket text s.history))
  unfolding conn_printf write_message
  conn_printf-writes socket text s e = rw e refl

  module _ (all : AllWritten sys) (msg : Text) where
    sends :
        (s : State) (i : ℕ)
        → send_if_open (conn_printf sys (suc fuel)) msg i s
          ≡ ok (
            tt,
            with_history s (
                if (s.connections i).socket ==ℤ no_socket
                then s.history
                else logged (s.connections i).socket msg s.history),
          )
    sends s i = elim (Bool-cases ((s.connections i).socket ==ℤ no_socket)) [
      | inl e ↦ rw e refl
      | inr e ↦
          let writes =
            conn_printf-writes (s.connections i).socket msg s
              (all s.history (s.connections i).socket (take max_message_length msg)) in
          rw (e, writes) refl
    ]

    announces :
        (n i : ℕ) (s : State)
        → for_loop n i (send_if_open (conn_printf sys (suc fuel)) msg) s
          ≡ ok (tt, with_history s (announced n i s.connections msg s.history))
    unfolding for_loop
    announces zero i s = refl
    announces (suc n) i s =
        let later =
          if (s.connections i).socket ==ℤ no_socket
          then s.history
          else logged (s.connections i).socket msg s.history in
        bind_ok (send_if_open (conn_printf sys (suc fuel)) msg i)
          (λ _. for_loop n (suc i) (send_if_open (conn_printf sys (suc fuel)) msg)) s
          (with_history s later) tt (sends s i)
        ∙ announces n (suc i) (with_history s later)

-- Where the message can be made, it has been written to the open connections; else the run stops as
-- the making of the message does.
abbrev pub tells : State → Result Text → Result (Unit {0} × State)
tells s (ok msg) = ok (tt, with_history s (announced max_connections 0 s.connections msg s.history))
tells s (stop e) = stop e

announce_path-announced :
    (sys : System) (fuel : ℕ) (s : State) (recipient_id : NodeId) (path : Option RoutePath)
    → AllWritten sys
    → announce_path (conn_printf sys (suc fuel)) recipient_id path s
      ≡ tells s (get_route_message s.self.id recipient_id path)
unfolding announce_path
announce_path-announced sys fuel s recipient_id path all =
    go (get_route_message s.self.id recipient_id path)
  where
    go :
        (r : Result Text)
        → (lift r >>= λ msg.
              for_loop max_connections 0 (send_if_open (conn_printf sys (suc fuel)) msg))
            s
          ≡ tells s r
    go (ok msg) = announces sys fuel all msg max_connections 0 s
    go (stop e) = refl

-- The path that the tables route a recipient over, if they have one.
abbrev pub shortest : Tables → NodeIndex → Option RoutePath
shortest t none = none
shortest t (some r) = path_to_send t r (t.forwarding_table r)

shortest_found :
    (self : NodeId) (s : State) (id : NodeId)
    → IsValid self s.tables
    → id ≢ no_node_id
    → path_to_announce s.tables (find_recipient s.tables id) s
      ≡ ok (shortest s.tables (find_recipient s.tables id), s)
shortest_found self s id v used = go (find_recipient s.tables id) refl
  where
    go :
        (i : NodeIndex)
        → find_recipient s.tables id ≡ i
        → path_to_announce s.tables i s ≡ ok (shortest s.tables i, s)
    go none e = refl
    go (some r) e =
        let h = held max_recipients s.tables.recipient_ids id e in
        let (k, f, least) = v.routed r h.0 (λ q. used (sym h.1 ∙ q)) in rw f refl

searched : (t : Tables) (id : NodeId) → get_recipient_index t id false ≡ ok (find_recipient t id, t)
unfolding get_recipient_index
searched t id = go (find_recipient t id)
  where
    go : (i : NodeIndex) → recipient_or_new t id false i ≡ ok (i, t)
    go none = refl
    go (some r) = refl

announce_steps :
    (printf : Socket → Text → M Bool) (s : State) (id : NodeId) (path : Option RoutePath)
    → path_to_announce s.tables (find_recipient s.tables id) s ≡ ok (path, s)
    → announce_new_path printf id s ≡ announce_path printf id path s
unfolding announce_new_path
announce_steps printf s id path e =
    let tail = λ (x : NodeIndex × Tables). path_to_announce x.1 x.0 >>= announce_path printf id in
    bind_ok (lift (get_recipient_index s.tables id false)) tail s s
      (find_recipient s.tables id, s.tables) (ap (λ r. lift r s) (searched s.tables id))
    ∙ bind_ok (path_to_announce s.tables (find_recipient s.tables id)) (announce_path printf id) s s
        path e

-- With well-formed tables, one unit of fuel or more, and if all writes succeed,
-- `announce_new_path` writes the ROUTE message of the shortest path to a recipient other than -1,
-- or of none if the recipient is not in the tables, once to every open connection, in the order of
-- the array, each time cut to the buffer of `conn_printf`, and changes nothing else; where that
-- message cannot be made, the run stops as `get_route_message` does.
pub announce_new_path-announced :
    (sys : System) (fuel : ℕ) (self : NodeId) (s : State) (recipient_id : NodeId)
    → AllWritten sys
    → IsValid self s.tables
    → recipient_id ≢ no_node_id
    → announce_new_path (conn_printf sys (suc fuel)) recipient_id s
      ≡ tells s (
          get_route_message s.self.id recipient_id
            (shortest s.tables (find_recipient s.tables recipient_id)))
announce_new_path-announced sys fuel self s recipient_id all v used =
    let t = s.tables in
    let path = shortest t (find_recipient t recipient_id) in
    announce_steps (conn_printf sys (suc fuel)) s recipient_id path
      (shortest_found self s recipient_id v used)
    ∙ announce_path-announced sys fuel s recipient_id path all
