-- ===== src/Lib.antt =====
-- A model of a node of an overlay ring with chords (connections.c, main.c, node-server.c,
-- read-lines.c, ring.c, routing.c), with the properties that make it correct.
--
-- The program. A node holds TCP connections to its successor, to its predecessor and to chords. It
-- reads lines from them (read-lines.c), and ring.c decides by the role of the connection what a
-- message means. ROUTE messages change the routing tables of routing.c, which announce the new
-- shortest paths over all connections; CHAT messages are forwarded along the tables. A write that
-- fails breaks its connection, and what ring.c does then may write again. The main loop (main.c) waits
-- for input: lines of the user, new connections, bytes on connections, and the end of a timer. A ring
-- is found by the list of its nodes that the node server sends (node-server.c).
--
-- Which file models what:
--   Base            Boolean tests, integers, lists, and arrays as functions from indices
--   Node            `Node`, `NodeID`, the limits of main.h and routing.h, and the ways to stop
--   Routing         the tables of routing.c: `Routing.Path.RoutePath` is `Path`, with `are_paths_equal` and
--                   `copy_path`; `Routing.Tables` is the four arrays with `get_recipient_index`,
--                   `get_neighbor_index` and `init_routing`; `Routing.Update` is
--                   `update_routing_given_new_path`. `Routing.Invariant` says when tables are well
--                   formed; `Routing.Entries.entry` and `Routing.Route.route` are the tables seen
--                   by identifiers, without indices
--   ReadLines       `read_lines` of read-lines.c, from a buffer and the result of `read()` to the
--                   next buffer and the lines handled; `ReadLines.Split` is how its loop splits the bytes
--   Timer           `set_timeout`, `cancel_timeout` and the use of the clock in the loop of main.c
--   Wire            what the messages look like: the formats printed and scanned by routing.c and
--                   ring.c, and the path string of a ROUTE message. `Wire.RouteMessage` and
--                   `Wire.NodeMessage` relate what is printed to what is read
--   Machine         the variables that the files share, the calls of the operating system, and the
--                   monad of a function on them
--   Connections     connections.c
--   Announce        the functions of routing.c that send messages
--   Ring            ring.c: `Ring.Join` opens connections, joins and leaves; `Ring.Messages` and
--                   `Ring.NewNode` handle messages; `Ring.Broken` handles broken connections;
--                   `Ring.Knot` is `conn_printf`
--   NodeServer      node-server.c: `request_node_list` with `parse_node_list` and the choice of a free
--                   identifier
--   User            `handle_user_input` of main.c: `User.Input` reads the line, `User.Select` takes the
--                   answer to a list of nodes, `User.Show` and `User.Commands` are the commands
--   MainLoop        the rounds of the loop in `main`; `MainLoop.Connect` accepts connections and
--                   reads from them; `MainLoop.Arguments` is `main` with its arguments
--   Frame           relations between states that functions of the monad keep to, with the rules that
--                   follow the shape of a function. `Ring.Kept`, `Ring.KeptConnect`,
--                   `Ring.KeptJoin`, `Ring.KeptMessages`, `Ring.KeptNodes`, `Ring.KeptBroken`,
--                   `User.Kept` and `MainLoop.Kept` apply them to every function of the program
--                   once, and `Ring.Loose`, `Ring.LooseKnot`, `User.Loose`, `MainLoop.Loose` and
--                   `MainLoop.Start` to those that change the tables, for frames that ask nothing
--                   of them. The frames are `Ring.Shrinking` for removals from the tables,
--                   `Ring.Safety` for their well-formedness, `MainLoop.Pointers` for the pointers
--                   to connections, `MainLoop.Waiting` for what a join waits for (`Ring.Awaiting`),
--                   and `Ring.Fuel` for fuel
--   Halts           the functions that stop for no lack of fuel
--   Failures        the number of the writes of a history that failed
--
-- Choices. An identifier or a hop count is a signed integer, NULL and the index -1 are `none`. An
-- access out of an array, through NULL, a failed assertion and `error()` end a run with the reason
-- (`Stop`). The operating system is a parameter, `System`: its answers are functions of the history
-- of calls; the bytes of an array that nothing was written to are a field of it too.
-- `conn_printf` and `handle_broken_socket` call each other; the functions below them take
-- `conn_printf` as an argument, and `Ring.Knot.conn_printf` bounds the depth of the calls by fuel. A
-- write that succeeds makes no further call, so a call needs one unit of fuel more than there are
-- writes that fail (`MainLoop.Fuel`). All other loops
-- are recursion on the size of an array or on a text.
--
-- What `getopt()` returns and the two sockets that `main` opens are parameters, and `select()` and
-- the calls that read are parameters of the loop; `MainLoop.turns` runs a given number of rounds.
-- Numbers longer than a C `int` are scanned as if it had no bound.
--
-- Not modelled: the opening of the program's two sockets, with `init_ns`, which are calls of the
-- operating system only, and the verbosity level; warnings, debugging and progress messages, which
-- go to the terminal and are read by nothing; util.c; the Makefile and test.sh.
pub mod Base
pub mod Node
pub mod ReadLines
pub mod Timer
pub mod Wire
pub mod Machine
pub mod Failures
pub mod Frame
pub mod Halts
pub mod Connections
pub mod Announce
pub mod Ring
pub mod NodeServer
pub mod User
pub mod MainLoop
pub mod Routing
