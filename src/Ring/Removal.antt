-- ===== src/Ring/Removal.antt =====
-- `remove_routing_neighbor` of routing.c, and what a write may do to the tables.
use projeto_rci.Base.{
  ℕ, zero, suc, ◌+◌, ◌<◌, ◌≤◌, ◌≡◌, refl, sym, ap, subst, ◌∙◌, ◌≢◌, inl, inr, Bool, true, false,
  none, some, arith, ◌==ℤ◌, ==ℤ_iff, Bool-cases,
}
use projeto_rci.Node.{
  NodeId, NodeIndex, Text, no_node_id, max_recipients, max_neighbors, Result, ok,
}
use projeto_rci.Routing.Tables.{
  Tables, find_recipient, find_neighbor, get_neighbor_index, neighbor_or_new,
}
use projeto_rci.Routing.Indices.{held, absent}
use projeto_rci.Routing.Invariant.{IsValid}
use projeto_rci.Routing.Entries.{entry, said_at, Stands, search-Stands}
use projeto_rci.Routing.Shrink.{missing-Vacant, Vacant, Vacant-Shrinks}
use projeto_rci.Routing.Free.{free-Shrinks, without_column}
use projeto_rci.Machine.{Socket, System, State, M, ◌>>=◌, lift, when, modify, for_loop}
use projeto_rci.Failures.{failures_le}
use projeto_rci.Frame.{Keeps, keeps, bind-Keeps, then-Keeps, pure-Keeps}
use projeto_rci.Announce.{drop_path, remove_column, free_column, remove_routing_neighbor}
use projeto_rci.Ring.Join.{remove_neighbor_connection, is_null}
use projeto_rci.Ring.Knot.{conn_printf, after_write}
use projeto_rci.Ring.Shrinking.{
  Good, Thins, Thins-Good, thinning, ThinsTo, ThinsTo-then, After-ThinsTo, Cleared, drops_clear,
}
use projeto_rci.Connections.{find_connection_by_node_id}
use projeto_rci.Ring.Kept.{find_by_node_id-Keeps, write_message-Keeps}
use projeto_rci.Ring.KeptBroken.{handle_broken_socket-Keeps}

cleared-Vacant :
    (self : NodeId) (t : Tables) (nid : NodeId)
    → IsValid self t
    → ((j : ℕ)
        → j < max_recipients
        → t.recipient_ids j ≢ no_node_id
        → entry t nid (t.recipient_ids j) ≡ none)
    → Vacant t nid
unfolding entry
cleared-Vacant self t nid v c id un ui =
    go (find_recipient t id) (search-Stands max_recipients t.recipient_ids id) refl
  where
    go :
        (r : NodeIndex)
        → Stands max_recipients t.recipient_ids id r
        → find_recipient t id ≡ r
        → said_at t (find_recipient t id) (find_neighbor t nid) ≡ none
    go none s e = ap (λ x. said_at t x (find_neighbor t nid)) e
    go (some j) s e = subst (λ x. entry t nid x ≡ none) s.1 (c j s.0 (λ x. ui (sym s.1 ∙ x)))

module _ (conn_printf : Socket → Text → M Bool)
    (printf : (socket : Socket) (text : Text) → Keeps thinning (conn_printf socket text)) where
  abbrev pub Cleans : NodeId → State → Result (Unit {0} × State) → Type 0
  Cleans nid s r = ThinsTo conn_printf printf s (λ s'. Vacant s'.tables nid) r

  module _ (nid : NodeId) (used : nid ≢ no_node_id) where
    freed :
        (k : ℕ) (s t : State)
        → k < max_neighbors
        → s.tables.neighbor_ids k ≡ nid
        → Thins s t
        → ((j : ℕ) → 0 ≤ j → j < 0 + max_recipients → Cleared conn_printf printf nid t j)
        → Cleans nid t (ok (tt, free_column conn_printf k t))
    freed k s t lk here_held h c =
        let v = Thins-Good s t h in
        let vacant =
          cleared-Vacant t.self.id t.tables nid v (λ j lj. c j (omega arith) (omega arith)) in
        let here : Vacant t.tables (t.tables.neighbor_ids k) = elim (h.tables.columns k) [
          | inl e ↦ subst (Vacant t.tables) (sym (e ∙ here_held)) vacant
          | inr e ↦ e
        ] in
        let free = free-Shrinks t.self.id t.tables v k lk here in
        (
          record { self = refl; tables = free },
          Vacant-Shrinks t.self.id t.tables (without_column t.tables k) nid vacant free,
        )

    column-Cleans :
        (k : ℕ) (s : State)
        → Good s
        → k < max_neighbors
        → s.tables.neighbor_ids k ≡ nid
        → Cleans nid s (remove_column conn_printf nid (some k) s)
    column-Cleans k s g lk here_held =
        let other = λ (x : nid ≡ s.self.id).
          g.sound.neighbor_not_self k lk (λ e. used (sym here_held ∙ e)) (here_held ∙ x) in
        ThinsTo-then conn_printf printf s
          (λ s'. (j : ℕ) → 0 ≤ j → j < 0 + max_recipients → Cleared conn_printf printf nid s' j)
          (λ s'. Vacant s'.tables nid) (for_loop max_recipients 0 (drop_path conn_printf nid) s)
          (modify (free_column conn_printf k))
          (drops_clear conn_printf printf nid used max_recipients 0 s g other (omega arith))
          (λ t h c. freed k s t lk here_held h c)

    -- If `conn_printf`, from well-formed tables, leaves well-formed tables from which identifiers
    -- and paths have only been removed, and this node's own data as they were: a call of
    -- `remove_routing_neighbor` for a neighbor other than -1 that returns from well-formed tables
    -- leaves well-formed tables with no path over the neighbor, has only removed identifiers and
    -- paths, and leaves this node's own data as they were.
    pub remove_routing_neighbor-Cleans :
        (s : State) → Good s → Cleans nid s (remove_routing_neighbor conn_printf nid s)
    unfolding remove_routing_neighbor get_neighbor_index
    remove_routing_neighbor-Cleans s g = go (find_neighbor s.tables nid) refl
      where
        go :
            (i : NodeIndex)
            → find_neighbor s.tables nid ≡ i
            → Cleans nid s (
                (lift (neighbor_or_new s.tables nid false i) >>= λ x.
                remove_column conn_printf nid x.0)
                  s)
        go none e = (
          thinning.stays s s g refl refl (λ v. v) (λ w. w) (failures_le s.history),
          missing-Vacant s.self.id s.tables nid g
              (absent max_neighbors s.tables.neighbor_ids nid e),
        )
        go (some k) e =
            let h = held max_neighbors s.tables.neighbor_ids nid e in column-Cleans k s g h.0 h.1

  pub removes_used-Keeps :
      (nid : NodeId) → nid ≢ no_node_id → Keeps thinning (remove_routing_neighbor conn_printf nid)
  removes_used-Keeps nid used = record {
    run = λ s g.
        After-ThinsTo conn_printf printf s (λ s'. Vacant s'.tables nid)
          (remove_routing_neighbor conn_printf nid s) (remove_routing_neighbor-Cleans nid used s g);
  }

  pub remove_neighbor_connection-Keeps :
      (nid : NodeId) → Keeps thinning (remove_neighbor_connection conn_printf nid)
  unfolding remove_neighbor_connection
  remove_neighbor_connection-Keeps nid = elim (Bool-cases (nid ==ℤ no_node_id)) [
    | inl e ↦ rw e (pure-Keeps thinning tt)
    | inr e ↦ rw e (removing (λ x. cc ((==ℤ_iff nid no_node_id).1 x, e)))
  ]
    where
      removing :
          nid ≢ no_node_id
          → Keeps thinning (
              find_connection_by_node_id nid >>= λ conn.
              when (is_null conn) (remove_routing_neighbor conn_printf nid))
      removing used = search (keeps, find_by_node_id-Keeps, removes_used-Keeps) depth 20

after_write-Keeps :
    (sys : System) (printf : Socket → Text → M Bool)
    → ((socket : Socket) (text : Text) → Keeps thinning (printf socket text))
    → (socket : Socket) (b : Bool) → Keeps thinning (after_write sys printf socket b)
after_write-Keeps sys printf h socket true = pure-Keeps thinning true
after_write-Keeps sys printf h socket false =
    then-Keeps thinning
      (handle_broken_socket-Keeps thinning printf h (remove_neighbor_connection-Keeps printf h) sys
        socket)
      (pure-Keeps thinning false)

-- Whatever the fuel, a call of `conn_printf` that returns from well-formed tables leaves well-formed
-- tables, and has only shrunk them.
pub conn_printf-Keeps :
    (sys : System) (fuel : ℕ) (socket : Socket) (text : Text)
    → Keeps thinning (conn_printf sys fuel socket text)
unfolding conn_printf
conn_printf-Keeps sys zero socket text = record { run = λ s g. tt }
conn_printf-Keeps sys (suc fuel) socket text =
    bind-Keeps thinning (write_message-Keeps thinning sys socket text)
      (after_write-Keeps sys (conn_printf sys fuel) (conn_printf-Keeps sys fuel) socket)
