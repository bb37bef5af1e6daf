-- ===== src/Routing/Invariant.antt =====
-- The well-formedness of the tables: what the comments of routing.c say of them.
use projeto_rci.Base.{
  ℕ, ◌<◌, ◌≡◌, refl, sym, ap, ◌∙◌, ◌≢◌, inl, inr, false, none, some, pos, pos_part, ◌==ℤ◌, ==ℤ_iff,
  arith, Bool-cases, Option, first, first-none, for_each, for_each_lem,
}
use projeto_rci.Node.{NodeId, NodeIndex, no_node_id, max_recipients, max_neighbors}
use projeto_rci.Routing.Path.{RoutePath, uninitialised, is_invalid, copy_path}
use projeto_rci.Routing.View.{copy_path-nodes}
use projeto_rci.Routing.Tables.{Tables, init_routing}
use projeto_rci.Routing.Update.{crosses, is_found, incoming}
use projeto_rci.Routing.Closest.{IsLeast}

-- The path does not cross this node.
abbrev pub Avoids : NodeId → RoutePath → Type 0
Avoids self p = (n : ℕ) → p.hop_count ≡ pos n → (k : ℕ) → k < n → p.nodes k ≢ self

-- Messages for the recipient of row `i` go to a neighbor with a shortest path.
abbrev pub Routed : Tables → ℕ → Type 0
Routed t i =
    (k : ℕ) × (t.forwarding_table i ≡ some k)
    × IsLeast t.neighbor_ids (t.routing_table i) max_neighbors k

-- All that is asked of the tables but the routes.
pub record IsSound (self : NodeId) (t : Tables) : Type 0 where
  pub recipients_distinct :
      (i j : ℕ)
      → i < max_recipients
      → j < max_recipients
      → t.recipient_ids i ≢ no_node_id
      → t.recipient_ids i ≡ t.recipient_ids j
      → i ≡ j
  pub neighbors_distinct :
      (i j : ℕ)
      → i < max_neighbors
      → j < max_neighbors
      → t.neighbor_ids i ≢ no_node_id
      → t.neighbor_ids i ≡ t.neighbor_ids j
      → i ≡ j
  pub recipient_not_self :
      (i : ℕ) → i < max_recipients → t.recipient_ids i ≢ no_node_id → t.recipient_ids i ≢ self
  pub neighbor_not_self :
      (j : ℕ) → j < max_neighbors → t.neighbor_ids j ≢ no_node_id → t.neighbor_ids j ≢ self
  pub loop_free :
      (i j : ℕ)
      → i < max_recipients
      → j < max_neighbors
      → t.recipient_ids i ≢ no_node_id
      → t.neighbor_ids j ≢ no_node_id
      → Avoids self (t.routing_table i j)

-- The tables between two calls: every recipient in them has a route, and it is a shortest one.
pub record IsValid (self : NodeId) (t : Tables) : Type 0 where
  pub sound : IsSound self t
  pub routed : (i : ℕ) → i < max_recipients → t.recipient_ids i ≢ no_node_id → Routed t i

-- Whatever the tables held, they are well formed after `init_routing`.
pub init_routing-IsValid : (self : NodeId) (t : Tables) → IsValid self (init_routing t)
unfolding init_routing
init_routing-IsValid self t = record {
  sound = record {
    recipients_distinct = λ i j lt _ h. absurd (h (no_recipient i lt));
    neighbors_distinct = λ i j lt _ h. absurd (h (no_neighbor i lt));
    recipient_not_self = λ i lt h. absurd (h (no_recipient i lt));
    neighbor_not_self = λ j lt h. absurd (h (no_neighbor j lt));
    loop_free = λ i j lt _ h. absurd (h (no_recipient i lt));
  };
  routed = λ i lt h. absurd (h (no_recipient i lt));
}
  where
    no_recipient :
        (i : ℕ)
        → i < max_recipients
        → for_each max_recipients (λ _. no_node_id) t.recipient_ids i ≡ no_node_id
    no_recipient i lt =
        ground (arith, for_each_lem max_recipients (λ _. no_node_id) t.recipient_ids i)

    no_neighbor :
        (i : ℕ)
        → i < max_neighbors
        → for_each max_neighbors (λ _. no_node_id) t.neighbor_ids i ≡ no_node_id
    no_neighbor i lt = ground (arith, for_each_lem max_neighbors (λ _. no_node_id) t.neighbor_ids i)

pub copy_path-Avoids :
    (self : NodeId) (dest src : RoutePath) → Avoids self src → Avoids self (copy_path dest src)
unfolding copy_path
copy_path-Avoids self dest src h n e k lt same =
    h n e k lt (sym (copy_path-nodes dest src k (omega (arith, ap pos_part e))) ∙ same)

crosses-Avoids : (self : NodeId) (p : RoutePath) → crosses self p ≡ false → Avoids self p
unfolding crosses
crosses-Avoids self p e n count k lt same =
    let missed = not_found (first (pos_part p.hop_count) 0 (λ i. p.nodes i ==ℤ self)) e in
    let miss =
      first-none (pos_part p.hop_count) (λ i. p.nodes i ==ℤ self) missed k
        (omega (arith, ap pos_part count)) in
    cc (miss, (==ℤ_iff (p.nodes k) self).1 same)
  where
    not_found : (r : NodeIndex) → is_found r ≡ false → r ≡ none
    not_found none h = refl
    not_found (some i) h = cc

-- The path that `update_routing_given_new_path` stores, whatever path it is given, does not cross
-- this node.
pub incoming-Avoids : (self : NodeId) (p : Option RoutePath) → Avoids self (incoming self p)
unfolding incoming
incoming-Avoids self none = λ n e. cc
incoming-Avoids self (some p) = elim (Bool-cases (is_invalid p)) [
  | inl e ↦ rw e (λ n f. cc)
  | inr e ↦ elim (Bool-cases (crosses self p)) [
    | inl f ↦ rw (e, f) (λ n g. cc)
    | inr f ↦ rw (e, f) (copy_path-Avoids self uninitialised p (crosses-Avoids self p f))
  ]
]
