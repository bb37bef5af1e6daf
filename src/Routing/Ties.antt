-- ===== src/Routing/Ties.antt =====
-- Several paths with the smallest hop count: which neighbor `update_routing_given_new_path` takes.
use projeto_rci.Base.{ℕ, ◌≡◌, refl, ap, ◌∙◌, none, some, ==ℤ_iff, ◌≤ℤ◌, ℤ, arith}
use projeto_rci.Node.{NodeId, NodeIndex, max_neighbors}
use projeto_rci.Routing.Path.{RoutePath}
use projeto_rci.Routing.Tables.{Tables}
use projeto_rci.Routing.Update.{closest, choice, prefer_old, new_row}
use projeto_rci.Routing.Closest.{Closest, closest-Closest, IsLeast}

≤ℤ_antisym : (a b : ℤ) → a ≤ℤ b → b ≤ℤ a → a ≡ b
≤ℤ_antisym a b h k = ground arith

prefer_old-keeps :
    (ids : ℕ → NodeId) (row : ℕ → RoutePath) (old : ℕ) (new : NodeIndex)
    → IsLeast ids row max_neighbors old
    → Closest ids row max_neighbors new
    → prefer_old row (some old) new ≡ some old
prefer_old-keeps ids row old none h c = absurd (c old h.0 h.1)
prefer_old-keeps ids row old (some new) h c =
    let same =
      ≤ℤ_antisym (row old).hop_count (row new).hop_count (h.2 new c.0 c.1) (c.2 old h.0 h.1) in
    rw ((==ℤ_iff (row old).hop_count (row new).hop_count).1 same) refl

-- When an entry is written, the neighbor that the recipient was routed to is chosen again if its
-- path is valid and no other neighbor has a shorter one.
pub choice-keeps_old :
    (t : Tables) (recipient neighbor : ℕ) (path : RoutePath) (old : ℕ)
    → t.forwarding_table recipient ≡ some old
    → IsLeast t.neighbor_ids (new_row t recipient neighbor path) max_neighbors old
    → choice t recipient neighbor path ≡ some old
unfolding choice
choice-keeps_old t recipient neighbor path old e h =
    let row = new_row t recipient neighbor path in
    let new = closest t.neighbor_ids row max_neighbors in
    ap (λ o. prefer_old row o new) e
    ∙ prefer_old-keeps t.neighbor_ids row old new h
        (closest-Closest t.neighbor_ids row max_neighbors)
