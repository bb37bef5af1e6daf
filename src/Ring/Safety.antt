-- ===== src/Ring/Safety.antt =====
-- Messages and the well-formedness of the tables, through everything that a message may cause.
use projeto_rci.Base.{◌≡◌, sym, subst, Bool, Option, ℕ, ◌∙◌}
use projeto_rci.Node.{NodeId, Text, Result, ok, stop}
use projeto_rci.Routing.Path.{RoutePath}
use projeto_rci.Routing.Tables.{Tables}
use projeto_rci.Routing.Update.{update_routing_given_new_path}
use projeto_rci.Routing.Invariant.{IsValid}
use projeto_rci.Routing.Preserve.{update_routing-IsValid}
use projeto_rci.Routing.Preserve
use projeto_rci.Machine.{Socket, System, State, M, lift, modify, when, ◌>>=◌, ◌>>◌}
use projeto_rci.Frame.{Frame, After, Keeps, keeps}
use projeto_rci.Announce.{update_routing_and_announce_given_new_path, announce_new_path}
use projeto_rci.Ring.Join.{remove_neighbor_connection}
use projeto_rci.Ring.Knot.{conn_printf}
use projeto_rci.Ring.NewNode.{handle_message}
use projeto_rci.Ring.Broken.{handle_broken_socket}
use projeto_rci.Ring.Kept.{announce_new_path-Keeps}
use projeto_rci.Ring.KeptBroken.{handle_broken_socket-Keeps}
use projeto_rci.Ring.KeptNodes.{handle_message-Keeps}
use projeto_rci.Ring.Shrinking.{Good, Thins-Good, thinning}
use projeto_rci.Ring.Removal.{conn_printf-Keeps, remove_neighbor_connection-Keeps}

-- Well-formed tables, and this node's own data as before.
pub record Safe (s s' : State) : Type 0 where
  pub self : s'.self ≡ s.self
  pub tables : Good s'

abbrev pub safety : Frame
safety = record {
  Good = Good;
  Rel = Safe;
  Stops = λ e. Unit {0};
  halts = λ e h. tt;
  stays = λ s s' g t n v w l. record {
    self = n;
    tables = subst (λ x. IsValid x.id s'.tables) (sym n) (subst (IsValid s.self.id) (sym t) g);
  };
  compose = λ a b c p q. record { self = q.self ∙ p.self; tables = q.tables };
  good = λ s s' h. h.tables;
}

After-weaken :
    {A : Type 0} (s : State) (r : Result (A × State)) → After thinning s r → After safety s r
After-weaken s (ok (a, s')) h = record { self = h.self; tables = Thins-Good s s' h }
After-weaken s (stop e) h = tt

pub weaken : {A : Type 0} {m : M A} → Keeps thinning m → Keeps safety m
weaken {m = m} k = record { run = λ s g. After-weaken s (m s) (k.run s g) }

module _ (sys : System) (fuel : ℕ) where
  printf : (socket : Socket) (text : Text) → Keeps safety (conn_printf sys fuel socket text)
  printf socket text = weaken (conn_printf-Keeps sys fuel socket text)

  removes : (id : NodeId) → Keeps safety (remove_neighbor_connection (conn_printf sys fuel) id)
  removes id =
      weaken
        (remove_neighbor_connection-Keeps (conn_printf sys fuel) (conn_printf-Keeps sys fuel) id)

  updated :
      (neighbor_id recipient_id : NodeId) (path : Option RoutePath) (s : State)
      (r : Result (Bool × Tables))
      → Preserve.Leaves (IsValid s.self.id) r
      → After safety s (
          (lift r >>= λ x.
          modify (λ s. record s { tables = x.1 })
          >> when x.0 (announce_new_path (conn_printf sys fuel) recipient_id))
            s)
  updated neighbor_id recipient_id path s (stop e) h = tt
  updated neighbor_id recipient_id path s (ok (b, t)) h =
      let s₁ : State = record s { tables = t } in moved _ ((announces b).run s₁ h)
    where
      announces :
          (b : Bool) → Keeps safety (when b (announce_new_path (conn_printf sys fuel) recipient_id))
      announces b = search (keeps, announce_new_path-Keeps safety (conn_printf sys fuel) printf)

      moved :
          (r : Result (Unit {0} × State))
          → After safety (record s { tables = t }) r
          → After safety s r
      moved (ok (a, s')) k = record { self = k.self; tables = k.tables }
      moved (stop e) k = tt

  updates :
      (neighbor_id recipient_id : NodeId) (path : Option RoutePath)
      → Keeps safety (
          update_routing_and_announce_given_new_path
            (conn_printf sys fuel)
            neighbor_id
            recipient_id
            path)
  unfolding update_routing_and_announce_given_new_path
  updates neighbor_id recipient_id path = record {
    run = λ s g.
        updated neighbor_id recipient_id path s
          (update_routing_given_new_path s.self.id neighbor_id recipient_id path s.tables)
          (update_routing-IsValid s.self.id neighbor_id recipient_id path s.tables g);
  }

  -- Whatever the message, whatever the operating system answers and whatever the fuel, a call of
  -- `handle_message` that returns from well-formed tables leaves well-formed tables, and this
  -- node's own identifier and address as they were.
  pub handle_message-After :
      (socket : Socket) (message : Text) (s : State)
      → Good s
      → After safety s (handle_message sys (conn_printf sys fuel) socket message s)
  handle_message-After socket message s g =
      (handle_message-Keeps safety (conn_printf sys fuel) printf removes sys updates socket
          message).run
        s g

  -- Whatever the operating system answers and whatever the fuel, a call of `handle_broken_socket`
  -- that returns from well-formed tables leaves well-formed tables, has only removed identifiers
  -- and paths from them, and leaves this node's own identifier and address as they were.
  pub handle_broken_socket-After :
      (socket : Socket) (s : State)
      → Good s
      → After thinning s (handle_broken_socket sys (conn_printf sys fuel) socket s)
  handle_broken_socket-After socket s g =
      (handle_broken_socket-Keeps thinning (conn_printf sys fuel) (conn_printf-Keeps sys fuel)
          (remove_neighbor_connection-Keeps (conn_printf sys fuel) (conn_printf-Keeps sys fuel)) sys
          socket).run
        s g
