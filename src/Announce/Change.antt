-- ===== src/Announce/Change.antt =====
-- `update_routing_and_announce_given_new_path` of routing.c, where all writes succeed.
use projeto_rci.Base.{
  ℕ, suc, ◌≡◌, refl, ap, subst, ◌∙◌, ◌≢◌, Bool, true, false, Option, if◌then◌else◌,
}
use projeto_rci.Node.{NodeId, no_node_id, ok}
use projeto_rci.Machine.{System, State, M, lift, bind_ok, when, modify, ◌>>◌}
use projeto_rci.Routing.Path.{RoutePath}
use projeto_rci.Routing.Tables.{Tables, find_recipient}
use projeto_rci.Routing.Update.{update_routing_given_new_path}
use projeto_rci.Routing.Invariant.{IsValid}
use projeto_rci.Routing.Preserve.{Leaves, update_routing-IsValid}
use projeto_rci.Wire.Print.{get_route_message}
use projeto_rci.Announce.{announce_new_path, update_routing_and_announce_given_new_path}
use projeto_rci.Announce.Loop.{AllWritten, tells, shortest, announce_new_path-announced}
use projeto_rci.Ring.Knot.{conn_printf}

abbrev pub with_tables : State → Tables → State
with_tables s t = record s { tables = t }

-- From well-formed tables, with one unit of fuel or more, if the update returns, all writes
-- succeed, and the recipient is not -1: the updated tables are well formed. If the update says
-- that the route changed, `update_routing_and_announce_given_new_path` stores them and has the
-- ROUTE message of the new shortest path, or of none, written once to every open connection, in
-- the order of the array, each time cut to the buffer of `conn_printf`, or, where that message
-- cannot be made, the run stops as `get_route_message` does; otherwise it stores them and writes
-- nothing. Nothing else changes.
pub update_and_announce-announced :
    (sys : System) (fuel : ℕ) (s : State) (neighbor_id recipient_id : NodeId)
    (path : Option RoutePath) (b : Bool) (t : Tables)
    → AllWritten sys
    → IsValid s.self.id s.tables
    → recipient_id ≢ no_node_id
    → update_routing_given_new_path s.self.id neighbor_id recipient_id path s.tables ≡ ok (b, t)
    → IsValid s.self.id t
      × (update_routing_and_announce_given_new_path
            (conn_printf sys (suc fuel))
            neighbor_id
            recipient_id
            path
            s
          ≡ (if b
              then tells (with_tables s t) (
                  get_route_message s.self.id recipient_id
                    (shortest t (find_recipient t recipient_id)))
              else ok (tt, with_tables s t)))
unfolding update_routing_and_announce_given_new_path
update_and_announce-announced sys fuel s neighbor_id recipient_id path b t all v used e = (
  valid,
  bind_ok (lift (update_routing_given_new_path s.self.id neighbor_id recipient_id path s.tables))
        rest s s (b, t) (ap (λ r. lift r s) e)
      ∙ then_announces b,
)
  where
    valid : IsValid s.self.id t
    valid =
        subst (Leaves (IsValid s.self.id)) e
          (update_routing-IsValid s.self.id neighbor_id recipient_id path s.tables v)

    rest : Bool × Tables → M (Unit {0})
    rest x =
        modify (λ s. record s { tables = x.1 })
        >> when x.0 (announce_new_path (conn_printf sys (suc fuel)) recipient_id)

    then_announces :
        (c : Bool)
        → when c (announce_new_path (conn_printf sys (suc fuel)) recipient_id) (with_tables s t) ≡ (
            if c
            then tells (with_tables s t) (
                get_route_message s.self.id recipient_id
                  (shortest t (find_recipient t recipient_id)))
            else ok (tt, with_tables s t))
    then_announces true =
        announce_new_path-announced sys fuel s.self.id (with_tables s t) recipient_id all valid used
    then_announces false = refl
