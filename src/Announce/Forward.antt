-- ===== src/Announce/Forward.antt =====
-- Where `forward_message` sends a chat message.
use projeto_rci.Base.{ℕ, ◌<◌, ◌≡◌, refl, sym, ◌∙◌, ◌≢◌, ◌⊎◌, inl, inr, Bool, false, none, some}
use projeto_rci.Node.{
  NodeId, NodeIndex, Text, no_node_id, max_recipients, max_neighbors, null_pointer, Result, ok,
  stop,
}
use projeto_rci.Machine.{Socket, Pointer, State, M, lift, ◌>>=◌}
use projeto_rci.Routing.Tables.{find_recipient, get_recipient_index, recipient_or_new}
use projeto_rci.Routing.Indices.{Absent, held, absent}
use projeto_rci.Routing.Closest.{IsLeast}
use projeto_rci.Routing.Invariant.{IsValid}
use projeto_rci.Connections.{by_node_id, find_connection_by_node_id}
use projeto_rci.Announce.{forward_message, forward_to, chat_text, chat_via}

module _ (conn_printf : Socket → Text → M Bool) (sender_id recipient_id : NodeId)
    (text : Text) where
  -- The message is handed to the open connection to the neighbor of column `k`; where there is
  -- none, NULL is dereferenced.
  abbrev pub HandsOver : State → ℕ → Result (Bool × State) → Type 0
  HandsOver s k x =
      ((by_node_id s (s.tables.neighbor_ids k) ≡ none) × (x ≡ stop null_pointer))
      ⊎ ((conn : ℕ) × (by_node_id s (s.tables.neighbor_ids k) ≡ some conn)
          × (x
              ≡ conn_printf (s.connections conn).socket
                  (chat_text conn_printf sender_id recipient_id text) s))

  abbrev pub Forwards : State → Result (Bool × State) → Type 0
  Forwards s x =
      (Absent max_recipients s.tables.recipient_ids recipient_id × (x ≡ ok (false, s)))
      ⊎ ((r k : ℕ) × (r < max_recipients)
          × (s.tables.recipient_ids r ≡ recipient_id)
          × IsLeast s.tables.neighbor_ids (s.tables.routing_table r) max_neighbors k
          × HandsOver s k x)

  via :
      (s : State) (k : ℕ) (c : Pointer)
      → by_node_id s (s.tables.neighbor_ids k) ≡ c
      → HandsOver s k (chat_via conn_printf (chat_text conn_printf sender_id recipient_id text) c s)
  via s k none e = inl (e, refl)
  via s k (some conn) e = inr (conn, e, refl)

  hands_over :
      (s : State) (r k : ℕ)
      → s.tables.forwarding_table r ≡ some k
      → HandsOver s k (forward_to conn_printf sender_id recipient_id text (some r) s)
  unfolding find_connection_by_node_id
  hands_over s r k e = rw e (via s k (by_node_id s (s.tables.neighbor_ids k)) refl)

  -- With well-formed tables, `forward_message` drops a message for a recipient other than -1 that
  -- is not in them, and hands one for a recipient that is in them to the open connection to a
  -- neighbor with a shortest path; where there is no such connection the program stops at a null
  -- pointer. It does nothing else.
  pub forward_message-Forwards :
      (self : NodeId) (s : State)
      → IsValid self s.tables
      → recipient_id ≢ no_node_id
      → Forwards s (forward_message conn_printf sender_id recipient_id text s)
  unfolding forward_message get_recipient_index
  forward_message-Forwards self s v used = go (find_recipient s.tables recipient_id) refl
    where
      go :
          (i : NodeIndex)
          → find_recipient s.tables recipient_id ≡ i
          → Forwards s (
              (lift (recipient_or_new s.tables recipient_id false i) >>= λ x.
              forward_to conn_printf sender_id recipient_id text x.0)
                s)
      go none e = inl (absent max_recipients s.tables.recipient_ids recipient_id e, refl)
      go (some r) e =
          let h = held max_recipients s.tables.recipient_ids recipient_id e in
          let (k, f, least) = v.routed r h.0 (λ q. used (sym h.1 ∙ q)) in
          inr (r, k, h.0, h.1, least, hands_over s r k f)
