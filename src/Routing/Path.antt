-- ===== src/Routing/Path.antt =====
-- Paths: `Path` of routing.h, `are_paths_equal` and `copy_path` of routing.c.
use projeto_rci.Base.{
  ℕ, Bool, not, ◌&&◌, ◌||◌, Option, none, some, List, ℤ, pos, negsuc, pos_part, ltb_ℤ, ◌==ℤ◌,
  if◌then◌else◌, memcpy, memcmp, slice,
}
use projeto_rci.Node.{NodeId}

abbrev pub invalid_path : ℤ
invalid_path = negsuc 1

-- `nodes` is the array of `MAX_NODES` entries.
pub record RoutePath : Type 0 where
  pub hop_count : ℤ
  pub nodes : ℕ → NodeId

-- A local variable before the first write. The `nodes` that it holds are never read.
abbrev pub uninitialised : RoutePath
uninitialised = record { hop_count = pos 0; nodes = λ _. pos 0 }

abbrev pub invalid : RoutePath
invalid = record uninitialised { hop_count = invalid_path }

-- `path->hop_count == INVALID_PATH`
abbrev pub is_invalid : RoutePath → Bool
is_invalid p = p.hop_count ==ℤ invalid_path

unfoldable pub are_paths_equal : RoutePath → RoutePath → Bool
are_paths_equal p q =
    p.hop_count ==ℤ q.hop_count
    && (not (ltb_ℤ (pos 0) p.hop_count) || memcmp ◌==ℤ◌ (pos_part p.hop_count) p.nodes q.nodes)

unfoldable pub copy_path : RoutePath → RoutePath → RoutePath
copy_path dest src = record {
  hop_count = src.hop_count;
  nodes =
      if ltb_ℤ (pos 0) src.hop_count
      then memcpy (pos_part src.hop_count) dest.nodes src.nodes
      else dest.nodes;
}

-- What a path says: nothing if it is invalid, else the nodes from the neighbor up to the recipient.
abbrev pub hops : RoutePath → Option (List NodeId)
hops p = if is_invalid p then none else some (slice (pos_part p.hop_count) 0 p.nodes)
