-- ===== src/Ring/SafetyTests.antt =====
-- The theorems on messages and broken connections at a concrete state.
use projeto_rci.Base.{pos}
use projeto_rci.Node.{codes}
use projeto_rci.Routing.Tests.{first_tables-IsValid}
use projeto_rci.Frame.{After}
use projeto_rci.Announce.{remove_routing_neighbor}
use projeto_rci.Ring.Knot.{conn_printf}
use projeto_rci.Ring.NewNode.{handle_message}
use projeto_rci.Ring.Removal.{Cleans, remove_routing_neighbor-Cleans, conn_printf-Keeps}
use projeto_rci.Ring.Safety.{safety, handle_message-After}
use projeto_rci.Ring.Tests.{state, system}

remove_routing_neighbor-Cleans_example :
    Cleans
      (conn_printf system 1)
      (conn_printf-Keeps system 1)
      (pos 10)
      state
      (remove_routing_neighbor (conn_printf system 1) (pos 10) state)
remove_routing_neighbor-Cleans_example =
    remove_routing_neighbor-Cleans (conn_printf system 1) (conn_printf-Keeps system 1) (pos 10)
      (λ e. cc) state first_tables-IsValid

handle_message-After_example :
    After safety state
      (handle_message system (conn_printf system 1) (pos 3) (codes "ROUTE 10 30 10-20-30") state)
handle_message-After_example =
    handle_message-After system 1 (pos 3) (codes "ROUTE 10 30 10-20-30") state first_tables-IsValid
