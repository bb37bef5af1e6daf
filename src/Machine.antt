-- ===== src/Machine.antt =====
-- The state of the program: the variables of connections.c, ring.c, routing.c and main.c that its
-- functions share, the history of its calls of the operating system, and the monad of a function
-- that works on them.
--
-- What the operating system answers is a parameter, `System`: every answer is a function of the
-- history up to the call.
use projeto_rci.Base.{
  ℕ, zero, suc, Bool, true, false, Option, none, some, List, ◌∷◌, ℤ, negsuc, if◌then◌else◌, update,
  ◌≡◌, ap,
}
use projeto_rci.Node.{NodeId, Text, Node, Stop, null_pointer, Result, ok, stop}
use projeto_rci.Routing.Tables.{Tables}
use projeto_rci.Timer.{Timespec, Timeval, Timer}

-- A file descriptor; -1 marks a free `Connection`.
abbrev pub Socket : Type 0
Socket = ℤ

abbrev pub no_socket : Socket
no_socket = negsuc 0

abbrev pub max_connections : ℕ
max_connections = 18

-- `Connection`; its buffer is given by the bytes below `buffer_index`
pub record Connection : Type 0 where
  pub socket : Socket
  pub node_id : NodeId
  pub buffer : Text
  pub ip_addr : Text
  pub tcp_port : Text

-- `Connection *`: NULL, or an index of the array `connections`
abbrev pub Pointer : Type 0
Pointer = Option ℕ

-- `enum ConnectionState`
pub data ConnectionState : Type 0 where
  disconnected awaiting_node_list awaiting_user_selection connecting connected : ConnectionState

-- `enum InputState`
pub data InputState : Type 0 where
  command join_node_selection chord_node_selection : InputState

-- `enum NodeListAction`
pub data NodeListAction : Type 0 where
  unexpected_node_list join_action chord_action : NodeListAction

-- What `request_node_list` gets from `select()` and `recvfrom()`. The buffer is not initialised, so
-- an answer says what stands in it: the bytes received, and those behind them.
pub data NodeListAnswer : Type 0 where
  select_failed timed_out : NodeListAnswer
  receive_failed : Text → NodeListAnswer
  answered : Text → Text → NodeListAnswer

-- The calls of the operating system, with their results, the chat messages that are shown, and what
-- the user's commands print.
pub data Event : Type 0 where
  created : Option ℕ → Event
  resolved : Text → Text → Bool → Event
  connected_to : Socket → Bool → Event
  wrote : Socket → Text → Bool → Event
  closed : Socket → Event
  sent : Text → Bool → Event
  read_clock : Event
  said : NodeId → Text → Event
  requested : NodeListAnswer → Event
  printed : Text → Event
  polled : Option Timeval → Event

abbrev pub History : Type 0
History = List Event

-- What the operating system answers.
pub record System : Type 0 where
  -- `socket()`; `none` for -1
  pub new_socket : History → Option ℕ
  -- `getaddrinfo() == 0`
  pub resolves : History → Text → Text → Bool
  -- `connect() == 0`
  pub connects : History → Socket → Bool
  -- `dprintf() >= 0`
  pub writes : History → Socket → Text → Bool
  -- `sendto() != -1`
  pub sends : History → Text → Bool
  -- the answer of the node server, or its absence
  pub node_list : History → NodeListAnswer
  -- `clock_gettime()`
  pub clock : History → Option Timespec
  -- the bytes of an array on the stack that nothing was written to
  pub unwritten : ℕ → ℕ

pub record State : Type 0 where
  pub connections : ℕ → Connection
  pub select_inputs : Socket → Bool
  pub new_node_conn : Pointer
  pub pred_conn : Pointer
  pub succ_conn : Pointer
  pub outbound_chord_conn : Pointer
  pub tables : Tables
  pub connection_state : ConnectionState
  pub self : Node
  pub succ : Node
  pub second_succ : Node
  pub awaiting_succ : Bool
  pub awaiting_pred : Bool
  pub ring_id_str : Text
  pub timer : Timer
  pub input_state : InputState
  pub node_list_action : NodeListAction
  pub node_arr : List Node
  pub should_exit : Bool
  pub stdin_buffer : Text
  pub history : History

abbrev pub with_history : State → History → State
with_history s h = record s { history = h }

abbrev pub M : Type 0 → Type 0
M A = State → Result (A × State)

abbrev pub and_then : {A B : Type 0} → Result (A × State) → (A → M B) → Result (B × State)
and_then (ok (a, s)) f = f a s
and_then (stop e) f = stop e

infixl 5 ◌>>=◌ ◌>>◌
abbrev pub ◌>>=◌ : {A B : Type 0} → M A → (A → M B) → M B
◌>>=◌ m f s = and_then (m s) f

abbrev pub ◌>>◌ : {A B : Type 0} → M A → M B → M B
m >> k = m >>= λ _. k

abbrev pub pure : {A : Type 0} → A → M A
pure a s = ok (a, s)

abbrev pub skip : M (Unit {0})
skip = pure tt

abbrev pub fail : {A : Type 0} → Stop → M A
fail e s = stop e

abbrev pub gets : {A : Type 0} → (State → A) → M A
gets f s = ok (f s, s)

abbrev pub modify : (State → State) → M (Unit {0})
modify f s = ok (tt, f s)

abbrev pub lift : {A : Type 0} → Result A → M A
lift (ok a) s = ok (a, s)
lift (stop e) s = stop e

abbrev pub when : Bool → M (Unit {0}) → M (Unit {0})
when b m = if b then m else skip

abbrev pub log : Event → M (Unit {0})
log e = modify (λ s. record s { history = e ∷ s.history })

-- A call that returns is followed by the rest.
pub bind_ok :
    {A B : Type 0} (m : M A) (f : A → M B) (s s' : State) (a : A)
    → m s ≡ ok (a, s')
    → (m >>= f) s ≡ f a s'
bind_ok m f s s' a e = ap (λ r. and_then r f) e

-- A pointer that is dereferenced.
abbrev pub deref : Pointer → M ℕ
deref none = fail null_pointer
deref (some i) = pure i

abbrev pub connection : ℕ → M Connection
connection i = gets (λ s. s.connections i)

-- `connections[i].field = ...`, with what the connection holds at hand
unfoldable pub update_connection : ℕ → (Connection → Connection) → M (Unit {0})
update_connection i f =
    modify (λ s. record s { connections = update s.connections i (f (s.connections i)) })

abbrev pub set_connection : ℕ → Connection → M (Unit {0})
set_connection i c = modify (λ s. record s { connections = update s.connections i c })

-- for (i = 0; i < n; i++) body(i);
unfoldable pub for_loop : ℕ → ℕ → (ℕ → M (Unit {0})) → M (Unit {0})
for_loop zero i body = skip
for_loop (suc n) i body = body i >> for_loop n (suc i) body

-- The same, with a body that ends the loop by `false`.
unfoldable pub for_until : ℕ → ℕ → (ℕ → M Bool) → M Bool
for_until zero i body = pure true
for_until (suc n) i body =
    body i >>= λ go. elim go [ true ↦ for_until n (suc i) body | false ↦ pure false ]
