-- ===== src/Routing/Refine.antt =====
-- `update_routing_given_new_path` against its comment: the entry that it writes, the routes that it
-- changes, the value that it returns, and when it stops the program instead.
use projeto_rci.Base.{
  ◌≡◌, refl, ap, subst, ◌∙◌, ◌≢◌, ◌↔◌, ◌⊎◌, inl, inr, true, if◌then◌else◌, Bool, Option, ◌&&◌,
  ◌==ℤ◌,
}
use projeto_rci.Node.{NodeId, no_node_id, Stop, Result, ok, stop}
use projeto_rci.Routing.Path.{RoutePath}
use projeto_rci.Routing.View.{view}
use projeto_rci.Routing.Tables.{Tables}
use projeto_rci.Routing.Update.{incoming, update_routing_given_new_path}
use projeto_rci.Routing.Entries.{entry}
use projeto_rci.Routing.Invariant.{IsValid, incoming-Avoids}
use projeto_rci.Routing.Write.{entry-write_path}
use projeto_rci.Routing.Runs.{IsFull, Runs, update-Runs}
use projeto_rci.Routing.Rewritten.{route_changes, route_kept}
use projeto_rci.Routing.Route.{route}

module _ (self nid rid : NodeId) (path_in : Option RoutePath) (t : Tables) (v : IsValid self t)
    (other_rid : rid ≢ self) (other_nid : nid ≢ self) where
  -- From well-formed tables, and for a recipient and a neighbor other than this node,
  -- `update_routing_given_new_path` returns, or it stops because all columns or all rows are taken
  -- by other nodes.
  pub update_routing-total :
      ((x : Bool × Tables) × (update_routing_given_new_path self nid rid path_in t ≡ ok x))
      ⊎ ((e : Stop) × (update_routing_given_new_path self nid rid path_in t ≡ stop e)
          × IsFull nid rid t e)
  update_routing-total = go (update_routing_given_new_path self nid rid path_in t) refl
    where
      go :
          (x : Result (Bool × Tables))
          → update_routing_given_new_path self nid rid path_in t ≡ x
          → ((x : Bool × Tables) × (update_routing_given_new_path self nid rid path_in t ≡ ok x))
            ⊎ ((e : Stop) × (update_routing_given_new_path self nid rid path_in t ≡ stop e)
                × IsFull nid rid t e)
      go (ok x) e = inl (x, e)
      go (stop s) e = inr (
        s,
        e,
        subst (Runs self nid rid path_in t) e
            (update-Runs self nid rid path_in t v other_rid other_nid),
      )

  module _ (used_nid : nid ≢ no_node_id) (used_rid : rid ≢ no_node_id) {b : Bool} {t' : Tables}
      (returns : update_routing_given_new_path self nid rid path_in t ≡ ok (b, t')) where
    runs : Runs self nid rid path_in t (ok (b, t'))
    runs =
        subst (Runs self nid rid path_in t) returns
          (update-Runs self nid rid path_in t v other_rid other_nid)

    -- From well-formed tables, and for a recipient and a neighbor that are neither this node nor
    -- -1, a call of `update_routing_given_new_path` that returns has stored the path it was given
    -- (none, if that is invalid or crosses this node) as that of the neighbor to the recipient,
    -- and has changed the path of no other neighbor or to any other recipient.
    pub update_routing-entry :
        (n id : NodeId)
        → n ≢ no_node_id
        → id ≢ no_node_id
        → entry t' n id
          ≡ (if nid ==ℤ n && rid ==ℤ id then view (incoming self path_in) else entry t n id)
    update_routing-entry n id used_n used_id =
        let (t₂, r, c, q, e) = runs in
        ap (λ (x : Bool × Tables). entry x.1 n id) e
        ∙ entry-write_path self t₂ r c (incoming self path_in) (incoming-Avoids self path_in)
            q.prepared q.in_range rid nid q.row_held q.column_held used_rid used_nid n id used_n
            used_id
        ∙ ap (λ x. if nid ==ℤ n && rid ==ℤ id then view (incoming self path_in) else x)
            (q.entries n id used_n used_id)

    -- From well-formed tables, and for a recipient and a neighbor that are neither this node nor
    -- -1, a call of `update_routing_given_new_path` that returns has the value `true` exactly when
    -- the route to the recipient (the neighbor its messages go to, and the path) has changed.
    pub update_routing-changed : (b ≡ true) ↔ (route t rid ≢ route t' rid)
    update_routing-changed =
        let (t₂, r, c, q, e) = runs in
        rw
          (
            ← q.routes rid used_rid,
            ap (λ (x : Bool × Tables). x.0) e,
            ap (λ (x : Bool × Tables). x.1) e,
          )
          (route_changes self t₂ r c (incoming self path_in) (incoming-Avoids self path_in)
            q.prepared q.in_range rid nid q.row_held q.column_held used_rid used_nid)

    -- From well-formed tables, and for a recipient and a neighbor that are neither this node nor
    -- -1, a call of `update_routing_given_new_path` that returns leaves the route to any other
    -- recipient as it was.
    pub update_routing-others :
        (id : NodeId) → id ≢ no_node_id → rid ≢ id → route t' id ≡ route t id
    update_routing-others id used apart =
        let (t₂, r, c, q, e) = runs in
        ap (λ (x : Bool × Tables). route x.1 id) e
        ∙ route_kept self t₂ r c (incoming self path_in) (incoming-Avoids self path_in) q.prepared
            q.in_range rid nid q.row_held q.column_held used_rid used_nid id used apart
        ∙ q.routes id used
