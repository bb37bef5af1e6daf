-- ===== src/Node.antt =====
-- main.h: the sizes, the node identifiers and indices, and the ways in which the program stops.
--
-- A `NodeID` is a signed character, modelled by the integer that it stands for. A `NodeIndex` that
-- a function returns, or that a table holds, is -1 or an index of a table: it is an `Option ℕ`,
-- where `none` is the -1.
use Prim.Native.String.{String}
use Prim.Native.Char.{code}
use projeto_rci.Base.{ℕ, Option, List, [], ◌∷◌, ℤ, negsuc}

abbrev pub NodeId : Type 0
NodeId = ℤ

abbrev pub NodeIndex : Type 0
NodeIndex = Option ℕ

-- Bytes, without the null character that ends a string.
abbrev pub Text : Type 0
Text = List ℕ

-- The bytes of a text literal.
abbrev pub codes : String → Text
codes String.[] = []
codes (String.◌∷◌ c s) = code c ∷ codes s

-- `Node`
pub record Node : Type 0 where
  pub id : NodeId
  pub ip_addr : Text
  pub tcp_port : Text

-- `NO_NODE_ID`
abbrev pub no_node_id : NodeId
no_node_id = negsuc 0

abbrev pub max_nodes : ℕ
max_nodes = 16

abbrev pub max_recipients : ℕ
max_recipients = 15

abbrev pub max_neighbors : ℕ
max_neighbors = 15

-- How a run stops: by a call of `error()`, which exits with status 1 (a constructor says for which
-- reason), or by undefined behaviour (`null_pointer`, `out_of_bounds`).
-- `out_of_fuel` is the model's: calls of `conn_printf` are nested deeper than is looked into.
pub data Stop : Type 0 where
  no_recipient_space no_neighbor_space no_connection_space : Stop
  path_assertion pred_assertion chord_assertion node_server_error : Stop
  malformed_node_list select_error stdin_error usage_error socket_error : Stop
  null_pointer out_of_bounds : Stop
  out_of_fuel : Stop

pub data Result {ℓ} (A : Type ℓ) : Type ℓ where
  ok : A → Result A
  stop : Stop → Result A

infixl 5 ◌>>=◌
abbrev pub ◌>>=◌ {ℓ κ} : {A : Type ℓ} {B : Type κ} → Result A → (A → Result B) → Result B
ok a >>= f = f a
stop e >>= f = stop e
