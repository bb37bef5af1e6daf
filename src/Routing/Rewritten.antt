-- ===== src/Routing/Rewritten.antt =====
-- The routes after `update_routing_given_new_path` has written an entry.
use projeto_rci.Base.{
  ℕ, ◌<◌, ◌≡◌, refl, sym, ap, ◌∙◌, ◌≢◌, ◌↔◌, inl, inr, true, none, some, ==_ne, ==_refl,
}
use projeto_rci.Node.{NodeId, NodeIndex, no_node_id, max_recipients, max_neighbors}
use projeto_rci.Routing.Path.{RoutePath}
use projeto_rci.Routing.Tables.{Tables, find_recipient}
use projeto_rci.Routing.Update.{choice, write_path, new_row}
use projeto_rci.Routing.Closest.{Closest, Taken}
use projeto_rci.Routing.Entries.{Stands, search-Stands}
use projeto_rci.Routing.Invariant.{Avoids}
use projeto_rci.Routing.Allocate.{IsPrepared}
use projeto_rci.Routing.Preserve.{choice-Closest}
use projeto_rci.Routing.Write.{own_row, other_row, recipient_found}
use projeto_rci.Routing.Route.{route, route_of, hop_via, has_changed_iff}

module _ (self : NodeId) (t : Tables) (r c : ℕ) (p : RoutePath) (avoids : Avoids self p)
    (v : IsPrepared self t r) (lc : c < max_neighbors) (rid nid : NodeId)
    (row_held : t.recipient_ids r ≡ rid) (column_held : t.neighbor_ids c ≡ nid)
    (used_rid : rid ≢ no_node_id) (used_nid : nid ≢ no_node_id) where
  abbrev pub written : Tables
  written = (write_path t r c p).1

  route_own : route written rid ≡ hop_via t.neighbor_ids (new_row t r c p) (choice t r c p)
  unfolding route write_path
  route_own =
      elim (own_row self t r c p avoids v lc rid nid row_held column_held used_rid used_nid) [
        | inl (k, e, f) ↦ rw (e, ==_refl r) refl
        | inr (e, f, _) ↦ rw (e, f) refl
      ]

  route_before : route t rid ≡ hop_via t.neighbor_ids (t.routing_table r) (t.forwarding_table r)
  unfolding route
  route_before =
      ap (route_of t)
        (recipient_found self t r c p avoids v lc rid nid row_held column_held used_rid used_nid)

  chosen-Taken :
      (q : NodeIndex)
      → Closest t.neighbor_ids (new_row t r c p) max_neighbors q
      → Taken t.neighbor_ids q
  chosen-Taken none h = tt
  chosen-Taken (some k) h = (h.0, h.1.0)

  pub route_changes : ((write_path t r c p).0 ≡ true) ↔ (route t rid ≢ route written rid)
  route_changes =
      rw (route_before, route_own)
        (unfold write_path in
          has_changed_iff t.neighbor_ids v.sound.neighbors_distinct (t.routing_table r)
            (new_row t r c p) (t.forwarding_table r) (choice t r c p) (v.taken used)
            (chosen-Taken (choice t r c p) (choice-Closest self t r c p avoids v used)))
    where
      used : t.recipient_ids r ≢ no_node_id
      used e = used_rid (sym row_held ∙ e)

  pub route_kept : (id : NodeId) → id ≢ no_node_id → rid ≢ id → route written id ≡ route t id
  unfolding route write_path
  route_kept id used apart =
      rw
        (other_row self t r c p avoids v lc rid nid row_held column_held used_rid used_nid id used
          apart)
        (go (find_recipient t id) (search-Stands max_recipients t.recipient_ids id))
    where
      go :
          (i : NodeIndex)
          → Stands max_recipients t.recipient_ids id i
          → route_of written i ≡ route_of t i
      go none s = refl
      go (some i) s = rw (==_ne r i (λ q. apart (sym row_held ∙ ap t.recipient_ids q ∙ s.1))) refl
