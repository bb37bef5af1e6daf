-- ===== src/Routing/Shrink.antt =====
-- Tables that shrink: paths and rows only go, and a column that changes hands holds no path. That is
-- all that taking neighbors out does to the tables.
use projeto_rci.Base.{
  ℕ, ◌<◌, ◌≡◌, refl, sym, ap, subst, ◌∙◌, ◌≢◌, ◌⊎◌, inl, inr, Bool, none, some, ◌&&◌, if◌then◌else◌,
  ◌==ℤ◌, ==ℤ_refl, ◌==◌, Bool-cases,
}
use projeto_rci.Node.{NodeId, NodeIndex, no_node_id, max_recipients, max_neighbors, ok}
use projeto_rci.Routing.Path.{RoutePath}
use projeto_rci.Routing.View.{view, view_invalid}
use projeto_rci.Routing.Tables.{Tables, find_recipient}
use projeto_rci.Routing.Update.{
  choice, write_path, incoming, free_if_empty, update_routing_given_new_path,
}
use projeto_rci.Routing.Indices.{Absent}
use projeto_rci.Routing.Invariant.{IsValid}
use projeto_rci.Routing.Entries.{entry, said_at, said_at-none, search-eq}
use projeto_rci.Routing.Preserve.{Leaves, update_routing-IsValid}
use projeto_rci.Routing.Runs.{Runs, update-Runs}
use projeto_rci.Routing.Refine.{update_routing-entry}

-- No path goes over the neighbor.
abbrev pub Vacant : Tables → NodeId → Type 0
Vacant t n = (id : NodeId) → n ≢ no_node_id → id ≢ no_node_id → entry t n id ≡ none

pub record Shrinks (self : NodeId) (t t' : Tables) : Type 0 where
  pub valid : IsValid self t'
  pub entries :
      (n id : NodeId)
      → n ≢ no_node_id
      → id ≢ no_node_id
      → (entry t' n id ≡ none) ⊎ (entry t' n id ≡ entry t n id)
  pub rows : (i : ℕ) → (t'.recipient_ids i ≡ t.recipient_ids i) ⊎ (t'.recipient_ids i ≡ no_node_id)
  pub columns : (j : ℕ) → (t'.neighbor_ids j ≡ t.neighbor_ids j) ⊎ Vacant t' (t'.neighbor_ids j)

pub Shrinks-refl : (self : NodeId) (t : Tables) → IsValid self t → Shrinks self t t
Shrinks-refl self t v = record {
  valid = v;
  entries = λ n id un ui. inr refl;
  rows = λ i. inl refl;
  columns = λ j. inl refl;
}

-- What is vacant stays vacant.
pub Vacant-Shrinks :
    (self : NodeId) (t t' : Tables) (n : NodeId) → Vacant t n → Shrinks self t t' → Vacant t' n
Vacant-Shrinks self t t' n h s id un ui = elim (s.entries n id un ui) [
  | inl e ↦ e
  | inr e ↦ e ∙ h id un ui
]

pub Shrinks-trans :
    (self : NodeId) (a b c : Tables) → Shrinks self a b → Shrinks self b c → Shrinks self a c
Shrinks-trans self a b c p q = record {
  valid = q.valid;
  entries = λ n id un ui. elim (q.entries n id un ui) [
    | inl e ↦ inl e
    | inr e ↦ elim (p.entries n id un ui) [ inl f ↦ inl (e ∙ f) | inr f ↦ inr (e ∙ f) ]
  ];
  rows = λ i. elim (q.rows i) [
    | inl e ↦ elim (p.rows i) [ inl f ↦ inl (e ∙ f) | inr f ↦ inr (e ∙ f) ]
    | inr e ↦ inr e
  ];
  columns = λ j. elim (q.columns j) [
    | inl e ↦ elim (p.columns j) [
      | inl f ↦ inl (e ∙ f)
      | inr f ↦ inr (Vacant-Shrinks self b c (c.neighbor_ids j) (subst (Vacant b) (sym e) f) q)
    ]
    | inr e ↦ inr e
  ];
}

-- A neighbor without a column is vacant.
pub missing-Vacant :
    (self : NodeId) (t : Tables) (n : NodeId)
    → IsValid self t
    → Absent max_neighbors t.neighbor_ids n
    → Vacant t n
unfolding entry
missing-Vacant self t n v a id un ui =
    ap (said_at t (find_recipient t id))
      (search-eq max_neighbors t.neighbor_ids n none v.sound.neighbors_distinct un a)
    ∙ said_at-none t (find_recipient t id)

freed :
    (ids : ℕ → NodeId) (r : ℕ) (c : NodeIndex) (i : ℕ)
    → (free_if_empty ids r c i ≡ ids i) ⊎ (free_if_empty ids r c i ≡ no_node_id)
freed ids r none i = elim (Bool-cases (r == i)) [
  | inl e ↦ inr (rw e refl)
  | inr e ↦ inl (rw e refl)
]
freed ids r (some k) i = inl refl

module _ (t : Tables) (r c : ℕ) (p : RoutePath) where
  written_rows :
      (i : ℕ)
      → ((write_path t r c p).1.recipient_ids i ≡ t.recipient_ids i)
        ⊎ ((write_path t r c p).1.recipient_ids i ≡ no_node_id)
  unfolding write_path
  written_rows = freed t.recipient_ids r (choice t r c p)

  written_columns : (j : ℕ) → (write_path t r c p).1.neighbor_ids j ≡ t.neighbor_ids j
  unfolding write_path
  written_columns j = refl

-- Taking the path from a neighbor to a recipient out.
module _ (self nid rid : NodeId) (t t' : Tables) (b : Bool) (v : IsValid self t)
    (other_rid : rid ≢ self) (other_nid : nid ≢ self) (used_nid : nid ≢ no_node_id)
    (used_rid : rid ≢ no_node_id)
    (returns : update_routing_given_new_path self nid rid none t ≡ ok (b, t')) where
  written :
      (n id : NodeId)
      → n ≢ no_node_id
      → id ≢ no_node_id
      → entry t' n id
        ≡ (if nid ==ℤ n && rid ==ℤ id then view (incoming self none) else entry t n id)
  written = update_routing-entry self nid rid none t v other_rid other_nid used_nid used_rid returns

  gone : view (incoming self none) ≡ none
  unfolding incoming
  gone = view_invalid (incoming self none) refl

  pub drop-entries :
      (n id : NodeId)
      → n ≢ no_node_id
      → id ≢ no_node_id
      → (entry t' n id ≡ none) ⊎ (entry t' n id ≡ entry t n id)
  drop-entries n id un ui = elim (Bool-cases (nid ==ℤ n && rid ==ℤ id)) [
    | inl e ↦ inl (written n id un ui ∙ rw e gone)
    | inr e ↦ inr (written n id un ui ∙ rw e refl)
  ]

  pub drop-entry : entry t' nid rid ≡ none
  drop-entry = written nid rid used_nid used_rid ∙ rw (==ℤ_refl nid, ==ℤ_refl rid) gone

  drop-Vacant : Absent max_neighbors t.neighbor_ids nid → Vacant t' nid
  drop-Vacant a id un ui = elim (drop-entries nid id un ui) [
    | inl e ↦ e
    | inr e ↦ e ∙ missing-Vacant self t nid v a id un ui
  ]

  pub drop-Shrinks : (k : ℕ) → k < max_recipients → t.recipient_ids k ≡ rid → Shrinks self t t'
  drop-Shrinks k lk held =
      let (t₂, r, c, q, e) =
        subst (Runs self nid rid none t) returns
          (update-Runs self nid rid none t v other_rid other_nid) in
      let p = incoming self none in
      record {
        valid =
            subst (Leaves (IsValid self)) returns (update_routing-IsValid self nid rid none t v);
        entries = drop-entries;
        rows = λ i.
            let same = ap (λ (x : Bool × Tables). x.1.recipient_ids i) e in
            elim (q.rows i) [
              | inl f ↦ elim (written_rows t₂ r c p i) [
                | inl h ↦ inl (same ∙ h ∙ f)
                | inr h ↦ inr (same ∙ h)
              ]
              | inr a ↦ absurd (a k lk held)
            ];
        columns = λ j.
            let same =
              ap (λ (x : Bool × Tables). x.1.neighbor_ids j) e ∙ written_columns t₂ r c p j in
            elim (q.columns j) [
              | inl f ↦ inl (same ∙ f)
              | inr (a, f) ↦ inr (subst (Vacant t') (sym (same ∙ f)) (drop-Vacant a))
            ];
      }
