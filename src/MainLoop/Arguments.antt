-- ===== src/MainLoop/Arguments.antt =====
-- `main` of main.c: the arguments of the program, and everything that follows them.
use projeto_rci.Base.{ℕ, Bool, Option, none, some, List, [], ◌∷◌, ltb, length, if◌then◌else◌}
use projeto_rci.Node.{Text, codes, Result, ok, stop, usage_error, socket_error, out_of_bounds}
use projeto_rci.Machine.{Socket, System, State, M, ◌>>=◌, ◌>>◌, pure, fail, modify, lift}
use projeto_rci.MainLoop.{Select}
use projeto_rci.MainLoop.Start.{program}

-- What `getopt()` returns, with `optarg`
pub data Opt : Type 0 where
  x_opt v_opt : Text → Opt
  unknown_opt : Opt

-- The initial command: that of the last `-x`. The verbosity level changes what is printed only.
unfoldable pub initial_command : List Opt → Option Text → Result (Option Text)
initial_command [] line = ok line
initial_command (x_opt arg ∷ opts) line = initial_command opts (some arg)
initial_command (v_opt arg ∷ opts) line = initial_command opts line
initial_command (unknown_opt ∷ opts) line = stop usage_error

-- The arguments behind the options
pub record Arguments : Type 0 where
  pub own_ip : Text
  pub own_port : Text
  pub ns_addr : Text
  pub ns_port : Text

unfoldable pub read_arguments : List Text → Result Arguments
read_arguments [] = stop usage_error
read_arguments (own_ip ∷ []) = stop usage_error
read_arguments (own_ip ∷ own_port ∷ ns_addr ∷ ns_port ∷ more) =
    ok (record { own_ip = own_ip; own_port = own_port; ns_addr = ns_addr; ns_port = ns_port })
read_arguments (own_ip ∷ own_port ∷ more) = ok (record {
  own_ip = own_ip;
  own_port = own_port;
  ns_addr = codes "193.136.138.142";
  ns_port = codes "59000";
})

-- `strcpy` into an array of `size` bytes, of which the null character takes one
abbrev pub strcpy : ℕ → Text → Result Text
strcpy size text = if ltb (length text) size then ok text else stop out_of_bounds

-- The descriptor of the socket to the node server, from its address and port, and that of the
-- listening socket, from its port: `none` where a call fails.
pub record Sockets : Type 0 where
  pub init_ns : Text → Text → Option Socket
  pub listening : Text → Option Socket

abbrev pub opened : Option Socket → M Socket
opened none = fail socket_error
opened (some socket) = pure socket

abbrev pub with_own_address : Text → Text → State → State
with_own_address own_ip own_port s = record s {
  self = record (s.self) { ip_addr = own_ip; tcp_port = own_port };
}

module _ (sys : System) (fuel : ℕ) (sockets : Sockets) (selects : Select) (n : ℕ) where
  abbrev pub main_with : Option Text → Arguments → M Bool
  main_with line a = do
    own_ip ← lift (strcpy 16 a.own_ip)
    own_port ← lift (strcpy 6 a.own_port)
    modify (with_own_address own_ip own_port)
    ns_socket ← opened (sockets.init_ns a.ns_addr a.ns_port)
    public_socket ← opened (sockets.listening own_port)
    program sys fuel ns_socket public_socket line selects n

  -- With at most `n` rounds of the main loop
  unfoldable pub main : List Opt → List Text → M Bool
  main opts args = do
    line ← lift (initial_command opts none)
    a ← lift (read_arguments args)
    main_with line a

  module _ (P : Result (Bool × State) → Type 0) (stops : (e : _) → P (stop e)) (s : State)
      (runs : (own_ip own_port : Text) (ns_socket public_socket : Socket) (line : Option Text)
        → P (
            program sys fuel ns_socket public_socket line selects n
              (with_own_address own_ip own_port s))) where
    from_opened :
        {t : State} (r : Option Socket) (k : Socket → M Bool)
        → ((socket : Socket) → P (k socket t))
        → P ((opened r >>= k) t)
    from_opened none k p = stops _
    from_opened (some socket) k p = p socket

    lifted :
        {A : Type 0} (r : Result A) (k : A → M Bool) → ((a : A) → P (k a s)) → P ((lift r >>= k) s)
    lifted (ok a) k p = p a
    lifted (stop e) k p = stops e

    -- What holds of the program whatever its address, sockets and command, and of a program that
    -- stops, holds of `main`.
    pub main_holds : (opts : List Opt) (args : List Text) → P (main opts args s)
    unfolding main
    main_holds opts args = lifted (initial_command opts none) _ (λ line.
        lifted (read_arguments args) _ (λ a. lifted (strcpy 16 a.own_ip) _ (λ own_ip.
          lifted (strcpy 6 a.own_port) _ (λ own_port.
            from_opened (sockets.init_ns a.ns_addr a.ns_port) _ (λ ns_socket.
              from_opened (sockets.listening own_port) _
                (λ public_socket. runs own_ip own_port ns_socket public_socket line))))))
