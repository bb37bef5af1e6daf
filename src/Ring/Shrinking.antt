-- ===== src/Ring/Shrinking.antt =====
-- The loop of `remove_routing_neighbor`: the paths over the neighbor go, and the tables only shrink.
use native.Mathlib.Decide.{ℕ_discrete}
use projeto_rci.Base.{
  ℕ, zero, suc, ◌+◌, ◌<◌, ◌≤◌, ◌≡◌, refl, sym, ap, subst, ◌∙◌, ◌≢◌, inl, inr, Bool, none, arith,
  ◌==ℤ◌, ==ℤ_iff, Bool-cases,
}
use projeto_rci.Node.{Node, NodeId, Text, no_node_id, max_recipients, Result, ok, stop}
use projeto_rci.Routing.Tables.{Tables}
use projeto_rci.Routing.Update.{update_routing_given_new_path}
use projeto_rci.Routing.Indices.{held}
use projeto_rci.Routing.Invariant.{IsValid}
use projeto_rci.Routing.Entries.{entry}
use projeto_rci.Routing.Shrink.{Shrinks, Shrinks-refl, Shrinks-trans, drop-Shrinks, drop-entry}
use projeto_rci.Machine.{Socket, State, M, and_then, ◌>>=◌, ◌>>◌, lift, when, modify, for_loop}
use projeto_rci.Failures.{failures_le}
use projeto_rci.Frame.{Frame, After, Keeps, keeps}
use projeto_rci.Announce.{update_routing_and_announce_given_new_path, announce_new_path, drop_path}
use projeto_rci.Ring.Kept.{announce_new_path-Keeps}

-- The tables are well formed, for this node's identifier.
abbrev pub Good : State → Type 0
Good s = IsValid s.self.id s.tables

pub record Thins (s s' : State) : Type 0 where
  pub self : s'.self ≡ s.self
  pub tables : Shrinks s.self.id s.tables s'.tables

pub Thins-Good : (s s' : State) → Thins s s' → Good s'
Thins-Good s s' h = subst (λ x. IsValid x.id s'.tables) (sym h.self) h.tables.valid

abbrev pub thinning : Frame
thinning = record {
  Good = Good;
  Rel = Thins;
  Stops = λ e. Unit {0};
  halts = λ e h. tt;
  stays = λ s s' g t n v w l. record {
    self = n;
    tables = subst (Shrinks s.self.id s.tables) (sym t) (Shrinks-refl s.self.id s.tables g);
  };
  compose = λ a b c p q. record {
    self = q.self ∙ p.self;
    tables =
        Shrinks-trans a.self.id a.tables b.tables c.tables p.tables
          (subst (λ x. Shrinks x.id b.tables c.tables) p.self q.tables);
  };
  good = Thins-Good;
}

module _ (conn_printf : Socket → Text → M Bool)
    (printf : (socket : Socket) (text : Text) → Keeps thinning (conn_printf socket text)) where
  abbrev pub ThinsTo : State → (State → Type 0) → Result (Unit {0} × State) → Type 0
  ThinsTo s P (ok (u, s')) = Thins s s' × P s'
  ThinsTo s P (stop e) = Unit {0}

  -- No path over the neighbor to the recipient of row `i`.
  abbrev pub Cleared : NodeId → State → ℕ → Type 0
  Cleared nid s i =
      s.tables.recipient_ids i ≢ no_node_id → entry s.tables nid (s.tables.recipient_ids i) ≡ none

  Cleared-Thins :
      (nid : NodeId) (s s' : State) (i : ℕ)
      → nid ≢ no_node_id
      → Thins s s'
      → Cleared nid s i
      → Cleared nid s' i
  Cleared-Thins nid s s' i used h c u = elim (h.tables.rows i) [
    | inl e ↦
        let old = c (λ x. u (e ∙ x)) in
        elim (h.tables.entries nid (s'.tables.recipient_ids i) used u) [
          | inl f ↦ f
          | inr f ↦ f ∙ ap (entry s.tables nid) e ∙ old
        ]
    | inr e ↦ absurd (u e)
  ]

  pub ThinsTo-compose :
      (s t : State) (P Q : State → Type 0) (r : Result (Unit {0} × State))
      → Thins s t
      → ThinsTo t P r
      → ((s' : State) → Thins t s' → P s' → Q s')
      → ThinsTo s Q r
  ThinsTo-compose s t P Q (ok (u, s')) p q w = (thinning.compose s t s' p q.0, w s' q.0 q.1)
  ThinsTo-compose s t P Q (stop e) p q w = tt

  pub ThinsTo-then :
      (s : State) (P Q : State → Type 0) (r : Result (Unit {0} × State)) (k : M (Unit {0}))
      → ThinsTo s P r
      → ((t : State) → Thins s t → P t → ThinsTo t Q (k t))
      → ThinsTo s Q (and_then r (λ _. k))
  ThinsTo-then s P Q (ok (u, t)) k h q =
      ThinsTo-compose s t Q Q (k t) h.0 (q t h.0 h.1) (λ s' _ x. x)
  ThinsTo-then s P Q (stop e) k h q = tt

  -- What keeps to the frame keeps what does not change by shrinking.
  pub ThinsTo-After :
      (s : State) (P : State → Type 0) (r : Result (Unit {0} × State))
      → After thinning s r
      → ((s' : State) → Thins s s' → P s')
      → ThinsTo s P r
  ThinsTo-After s P (ok (u, s')) h w = (h, w s' h)
  ThinsTo-After s P (stop e) h w = tt

  pub After-ThinsTo :
      (s : State) (P : State → Type 0) (r : Result (Unit {0} × State))
      → ThinsTo s P r
      → After thinning s r
  After-ThinsTo s P (ok (u, s')) h = h.0
  After-ThinsTo s P (stop e) h = tt

  module _ (nid : NodeId) (used : nid ≢ no_node_id) where
    -- The row's path is taken out, and then the news is announced.
    dropped :
        (s : State) (i : ℕ) (b : Bool) (t : Tables)
        → Good s
        → nid ≢ s.self.id
        → i < max_recipients
        → s.tables.recipient_ids i ≢ no_node_id
        → update_routing_given_new_path s.self.id nid (s.tables.recipient_ids i) none s.tables
          ≡ ok (b, t)
        → ThinsTo s
            (λ s'. Cleared nid s' i)
            (when b
              (announce_new_path conn_printf (s.tables.recipient_ids i))
              (record s { tables = t }))
    dropped s i b t g other li held e =
        let rid = s.tables.recipient_ids i in
        let apart = g.sound.recipient_not_self i li held in
        let s₁ : State = record s { tables = t } in
        let thins : Thins s s₁ = record {
          self = refl;
          tables = drop-Shrinks s.self.id nid rid s.tables t b g apart other used held e i li refl;
        } in
        let cleared : Cleared nid s₁ i = λ u. elim (thins.tables.rows i) [
          | inl f ↦
              ap (entry t nid) f
              ∙ drop-entry s.self.id nid rid s.tables t b g apart other used held e
          | inr f ↦ absurd (u f)
        ] in
        ThinsTo-compose s s₁ (λ s'. Cleared nid s' i) (λ s'. Cleared nid s' i)
          (when b (announce_new_path conn_printf rid) s₁) thins
          (ThinsTo-After s₁ (λ s'. Cleared nid s' i) (when b (announce_new_path conn_printf rid) s₁)
            ((announces b rid).run s₁ (Thins-Good s s₁ thins))
            (λ s' h. Cleared-Thins nid s₁ s' i used h cleared))
          (λ s' _ x. x)
      where
        announces :
            (b : Bool) (rid : NodeId) → Keeps thinning (when b (announce_new_path conn_printf rid))
        announces b rid = search (keeps, announce_new_path-Keeps thinning conn_printf printf)

    drop_path-clears :
        (s : State) (i : ℕ)
        → Good s
        → nid ≢ s.self.id
        → i < max_recipients
        → ThinsTo s (λ s'. Cleared nid s' i) (drop_path conn_printf nid i s)
    unfolding update_routing_and_announce_given_new_path
    drop_path-clears s i g other li = elim (Bool-cases (rid ==ℤ no_node_id)) [
      | inl e ↦ rw e (
        thinning.stays s s g refl refl (λ v. v) (λ w. w) (failures_le s.history),
        λ u. absurd (u ((==ℤ_iff rid no_node_id).0 e)),
      )
      | inr e ↦ rw e (
          go (λ x. cc ((==ℤ_iff rid no_node_id).1 x, e))
            (update_routing_given_new_path s.self.id nid rid none s.tables) refl)
    ]
      where
        rid : NodeId
        rid = s.tables.recipient_ids i

        go :
            rid ≢ no_node_id
            → (r : Result (Bool × Tables))
            → update_routing_given_new_path s.self.id nid rid none s.tables ≡ r
            → ThinsTo s
                (λ s'. Cleared nid s' i)
                ((lift r >>= λ x.
                    modify (λ s. record s { tables = x.1 })
                    >> when x.0 (announce_new_path conn_printf rid))
                  s)
        go held (ok (b, t)) e = dropped s i b t g other li held e
        go held (stop x) e = tt

    pub drops_clear :
        (n i : ℕ) (s : State)
        → Good s
        → nid ≢ s.self.id
        → i + n ≤ max_recipients
        → ThinsTo s
            (λ s'. (j : ℕ) → i ≤ j → j < i + n → Cleared nid s' j)
            (for_loop n i (drop_path conn_printf nid) s)
    unfolding for_loop
    drops_clear zero i s g other le = (
      thinning.stays s s g refl refl (λ v. v) (λ w. w) (failures_le s.history),
      λ j lo hi. absurd (omega arith),
    )
    drops_clear (suc n) i s g other le =
        ThinsTo-then s (λ s'. Cleared nid s' i)
          (λ s'. (j : ℕ) → i ≤ j → j < i + suc n → Cleared nid s' j) (drop_path conn_printf nid i s)
          (for_loop n (suc i) (drop_path conn_printf nid))
          (drop_path-clears s i g other (omega arith))
          (λ t h c.
            ThinsTo-compose t t (λ s'. (j : ℕ) → suc i ≤ j → j < suc i + n → Cleared nid s' j)
              (λ s'. (j : ℕ) → i ≤ j → j < i + suc n → Cleared nid s' j)
              (for_loop n (suc i) (drop_path conn_printf nid) t)
              (thinning.stays t t (Thins-Good s t h) refl refl (λ v. v) (λ w. w)
                (failures_le t.history))
              (drops_clear n (suc i) t (Thins-Good s t h)
                (λ x. other (x ∙ ap (λ (m : Node). m.id) h.self)) (omega arith))
              (λ s' k rest j lo hi. elim (ℕ_discrete i j) [
                | yes p ↦ subst (Cleared nid s') p (Cleared-Thins nid t s' i used k c)
                | no p ↦ rest j (omega arith) (omega arith)
              ]))
