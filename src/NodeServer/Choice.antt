-- ===== src/NodeServer/Choice.antt =====
-- The identifier that this node takes where its own is in use.
use projeto_rci.Base.{
  ℕ, zero, suc, ◌+◌, ◌≤◌, ◌<◌, ◌≡◌, ◌≢◌, refl, sym, ap, subst, ◌∙◌, inl, inr, Bool, true, false,
  ◌||◌, List, [], ◌∷◌, pos, pos_part, ◌==ℤ◌, ==ℤ_iff, if◌then◌else◌, length, ltb, arith, Bool-cases,
}
use projeto_rci.Node.{NodeId, Node, max_nodes}
use projeto_rci.Machine.{disconnected, State}
use native.Mathlib.Decide.{ℕ_discrete}
use projeto_rci.NodeServer.{in_use, free_id, take_id, choose_id}

-- The nodes with another identifier
without : List Node → NodeId → List Node
without [] id = []
without (node ∷ nodes) id =
    let rest = without nodes id in if node.id ==ℤ id then rest else node ∷ rest

length-without : (nodes : List Node) (id : NodeId) → length (without nodes id) ≤ length nodes
unfolding without
length-without [] id = omega arith
length-without (node ∷ nodes) id = elim (Bool-cases (node.id ==ℤ id)) [
  | inl e ↦ rw e (omega (arith, length-without nodes id))
  | inr e ↦ rw e (omega (arith, length-without nodes id))
]

length-without_used :
    (nodes : List Node) (id : NodeId)
    → in_use nodes id ≡ true
    → length (without nodes id) < length nodes
unfolding without
length-without_used [] id u = absurd (cc u)
length-without_used (node ∷ nodes) id u = elim (Bool-cases (node.id ==ℤ id)) [
  | inl e ↦ rw e (omega (arith, length-without nodes id))
  | inr e ↦ rw e (
      let v : in_use nodes id ≡ true = subst (λ b. (b || in_use nodes id) ≡ true) e u in
      omega (arith, length-without_used nodes id v))
]

in_use-without :
    (nodes : List Node) (id other : NodeId)
    → other ≢ id
    → in_use nodes other ≡ true
    → in_use (without nodes id) other ≡ true
unfolding without
in_use-without [] id other n u = u
in_use-without (node ∷ nodes) id other n u = elim (Bool-cases (node.id ==ℤ other)) [
  | inl e ↦ elim (Bool-cases (node.id ==ℤ id)) [
    | inl f ↦ absurd (n (sym ((==ℤ_iff node.id other).0 e) ∙ (==ℤ_iff node.id id).0 f))
    | inr f ↦ rw (f, e) refl
  ]
  | inr e ↦
      let v : in_use nodes other ≡ true = subst (λ b. (b || in_use nodes other) ≡ true) e u in
      elim (Bool-cases (node.id ==ℤ id)) [
        | inl f ↦ rw f (in_use-without nodes id other n v)
        | inr f ↦ rw (f, e) (in_use-without nodes id other n v)
      ]
]

-- If the first `n` identifiers are all in use, there are as many nodes.
all_used :
    (n : ℕ) (nodes : List Node) → ((j : ℕ) → j < n → in_use nodes (pos j) ≡ true) → n ≤ length nodes
all_used zero nodes u = omega arith
all_used (suc n) nodes u =
    let shorter = length-without_used nodes (pos n) (u n (omega arith)) in
    let rest = all_used n (without nodes (pos n)) (λ j lt.
      in_use-without nodes (pos n) (pos j) (λ e. absurd (omega (arith, ap pos_part e)))
        (u j (omega arith))) in
    omega (arith, shorter, rest)

-- The result of the loop from `id` on: the first identifier that is not in use.
record IsFirst (nodes : List Node) (n id r : ℕ) : Type 0 where
  from : id ≤ r
  to : r ≤ id + n
  used : (j : ℕ) → id ≤ j → j < r → in_use nodes (pos j) ≡ true
  unused : r < id + n → in_use nodes (pos r) ≡ false

free_id-IsFirst : (nodes : List Node) (n id : ℕ) → IsFirst nodes n id (free_id nodes n id)
unfolding free_id
free_id-IsFirst nodes zero id = record {
  from = omega arith;
  to = omega arith;
  used = λ j lo hi. absurd (omega arith);
  unused = λ lt. absurd (omega arith);
}
free_id-IsFirst nodes (suc n) id = elim (Bool-cases (in_use nodes (pos id))) [
  | inl e ↦ rw e (
      let h = free_id-IsFirst nodes n (suc id) in
      record {
        from = omega (arith, h.from);
        to = omega (arith, h.to);
        used = λ j lo hi. elim (ℕ_discrete j id) [
          | yes q ↦ ap (λ k. in_use nodes (pos k)) q ∙ e
          | no q ↦ h.used j (ground (arith, q)) hi
        ];
        unused = λ lt. h.unused (omega arith);
      })
  | inr e ↦ rw e (record {
    from = omega arith;
    to = omega arith;
    used = λ j lo hi. absurd (omega arith);
    unused = λ lt. e;
  })
]

-- What `choose_id` makes of this node's identifier.
pub record Chooses (s s' : State) : Type 0 where
  pub unused : in_use s.node_arr s'.self.id ≡ false
  pub kept : in_use s.node_arr s.self.id ≡ false → s' ≡ s
  pub least :
      in_use s.node_arr s.self.id ≡ true
      → (k : ℕ) × (s'.self.id ≡ pos k)
        × (k ≤ max_nodes)
        × ((j : ℕ) → j < k → in_use s.node_arr (pos j) ≡ true)
  pub same_state : s'.connection_state ≡ s.connection_state

-- For a list of at most 16 nodes, the identifier that this node ends with is not in use: its own
-- if that is free, in which case nothing changes, and else the least natural number that is free,
-- which is at most 16. The connection state stays, so the procedure is not aborted.
pub choose_id-Chooses : (s : State) → length s.node_arr ≤ max_nodes → Chooses s (choose_id s)
unfolding choose_id
choose_id-Chooses s few = elim (Bool-cases (in_use s.node_arr s.self.id)) [
  | inl e ↦ rw e (taken e)
  | inr e ↦
      rw e (record {
        unused = e;
        kept = λ _. refl;
        least = λ u. absurd (cc (u, e));
        same_state = refl;
      })
]
  where
    id : ℕ
    id = free_id s.node_arr 100 0

    first : IsFirst s.node_arr 100 0 id
    first = free_id-IsFirst s.node_arr 100 0

    small : id ≤ max_nodes
    small = omega (arith, few, all_used id s.node_arr (λ j lt. first.used j (omega arith) lt))

    taken : in_use s.node_arr s.self.id ≡ true → Chooses s (take_id id s)
    taken e = record {
      unused = first.unused (omega (arith, small));
      kept = λ f. absurd (cc (e, f));
      least = λ _. (id, refl, small, λ j lt. first.used j (omega arith) lt);
      same_state = below (ltb id 100) (ground (arith, small));
    }
      where
        below :
            (b : Bool)
            → b ≡ true
            → (if b then s.connection_state else disconnected) ≡ s.connection_state
        below true h = refl
        below false h = absurd (cc h)
