-- ===== src/Ring/StrayTests.antt =====
-- Messages that follow a null pointer, and those that end a join, at concrete states.
use projeto_rci.Base.{◌==ℤ◌, arith, le→not_ltb, zero, suc, ◌≡◌, refl, none, some, pos, true, false}
use projeto_rci.Node.{Text, codes, null_pointer, ok, stop}
use projeto_rci.Machine.{State, connecting, ◌>>◌}
use projeto_rci.Wire.Scan.{
  scan_node, literal, scan_word, word, skip_space, scan_id, number, digits, read,
}
use projeto_rci.Ring.Knot.{conn_printf}
use projeto_rci.Ring.NewNode.{pred_known, handle_entry_in_ring, handle_message}
use projeto_rci.Ring.Stray.{IsClosed, handle_message-stray, handle_entry_in_ring-stops}
use projeto_rci.Ring.Join.{on_join_end}
use projeto_rci.Ring.Messages.{handle_succ}
use projeto_rci.Ring.Joined.{handle_succ-pred_known}
use projeto_rci.Ring.Tests.{node, state, system}

abbrev entry : Text
entry = codes "ENTRY 07 127.0.0.1 58001"

entry_read : read (scan_node (codes "ENTRY")) entry ≡ some (node (pos 7))
unfolding literal scan_node scan_word word skip_space scan_id number digits
entry_read = refl

gone : IsClosed state (pos 99)
gone zero lt e = absurd (cc e)
gone (suc zero) lt e = absurd (cc e)
gone (suc (suc i)) lt e = absurd (cc (e, le→not_ltb (suc (suc i)) 2 (omega arith)))

handle_message-stray_example :
    handle_message system (conn_printf system 1) (pos 99) entry state ≡ stop null_pointer
handle_message-stray_example =
    handle_message-stray system (conn_printf system 1) (pos 99) entry (node (pos 7)) state refl refl
      gone entry_read

-- The predecessor is gone, and 7 enters.
abbrev awaiting : State
awaiting = record state { pred_conn = none; new_node_conn = some 1 }

handle_entry_in_ring-stops_example :
    handle_entry_in_ring system (conn_printf system 1) 1 (node (pos 7)) awaiting ≡ stop null_pointer
handle_entry_in_ring-stops_example =
    handle_entry_in_ring-stops system 0 1 (node (pos 7)) awaiting (λ h socket text. refl) refl

-- 5 joins before 10, which says that 20 comes after it.
abbrev joining : State
joining = record state { connection_state = connecting; awaiting_succ = true; awaiting_pred = true }

abbrev both_known : State
both_known = record joining {
  second_succ = node (pos 20);
  awaiting_succ = false;
  awaiting_pred = false;
}

apart : (pos 20 ==ℤ pos 10) ≡ false
unfolding ◌==ℤ◌
apart = refl

handle_succ-pred_known_example :
    (handle_succ system (conn_printf system 1) (node (pos 20)) joining
      ≡ ok (tt, record joining { second_succ = node (pos 20); awaiting_succ = false }))
    × (pred_known system (conn_printf system 1) joining
        ≡ ok (tt, record joining { awaiting_pred = false }))
    × ((handle_succ system (conn_printf system 1) (node (pos 20))
            >> pred_known system (conn_printf system 1))
          joining
        ≡ on_join_end system both_known)
    × ((pred_known system (conn_printf system 1)
            >> handle_succ system (conn_printf system 1) (node (pos 20)))
          joining
        ≡ on_join_end system both_known)
handle_succ-pred_known_example =
    handle_succ-pred_known system (conn_printf system 1) (node (pos 20)) joining
      (record { joining = refl; no_succ = refl; no_pred = refl }) apart
