-- ===== src/Ring/Unregister.antt =====
-- The message that tells the node server that a node leaves, and the array that `leave_ring` of ring.c
-- prints it into.
use projeto_rci.Base.{
  ℕ, ◌++◌, ◌+◌, ◌⊎◌, ◌<◌, ◌≤◌, ◌≡◌, ◌↔◌, ap, ◌∙◌, subst, inl, inr, true, pos, length, length-append,
  arith,
}
use projeto_rci.Node.{codes, out_of_bounds, stop}
use projeto_rci.Machine.{System, State}
use projeto_rci.Connections.Laws.{PointersOpen}
use projeto_rci.Wire.Print.{print_id, decimal}
use projeto_rci.Wire.RoundTrip.{print_id_two}
use projeto_rci.Ring.Join.{leave_ring, is_registered, unreg_text}
use projeto_rci.Ring.Leave.{Leaves, leave_ring-Leaves, too_long-overflows}

-- From 100 on an identifier is printed with three characters.
length-print_id_le : (n : ℕ) → n < 100 → length (print_id (pos n)) ≤ 2
length-print_id_le n h = rw (print_id_two n h) (omega arith)

length-print_id_lt : (n : ℕ) → 99 < n → 2 < length (print_id (pos n))
unfolding print_id decimal
length-print_id_lt n h = ground arith

length-unreg_text :
    (s : State)
    → length s.ring_id_str ≡ 3
    → length (unreg_text s) ≡ 10 + length (print_id s.self.id)
length-unreg_text s e =
    omega (arith, e, length-append s.ring_id_str (codes " " ++ print_id s.self.id))

unregisters :
    (n : ℕ) (s : State)
    → length s.ring_id_str ≡ 3
    → s.self.id ≡ pos n
    → length (unreg_text s) ≡ 10 + length (print_id (pos n))
unregisters n s ring id = length-unreg_text s ring ∙ ap (λ i. 10 + length (print_id i)) id

below_or_above : (n : ℕ) → (n < 100) ⊎ (99 < n)
below_or_above n = omega arith

-- What `leave_ring` stops for, where it stops out of the bounds of the array.
too_long :
    (n : ℕ) (s : State)
    → length (unreg_text s) ≡ 10 + length (print_id (pos n))
    → Leaves s (stop out_of_bounds)
    → 99 < n
too_long n s e (inl f) = ground arith
too_long n s e (inr f) = elim (below_or_above n) [
  | inl lt ↦ absurd (omega (arith, e, f.1.too_long, length-print_id_le n lt))
  | inr gt ↦ gt
]

-- For a connected node of a registered ring whose name has three characters and whose identifier
-- is not negative, where every pointer is NULL or points to an open connection: `leave_ring`
-- writes past the end of `unreg_msg` exactly if the identifier is 100 or more.
pub leave_ring-overflows :
    (sys : System) (n : ℕ) (s : State)
    → PointersOpen s
    → is_registered s ≡ true
    → length s.ring_id_str ≡ 3
    → s.self.id ≡ pos n
    → (leave_ring sys s ≡ stop out_of_bounds) ↔ (99 < n)
leave_ring-overflows sys n s v registered ring id = (
  λ e. too_long n s (unregisters n s ring id) (subst (Leaves s) e (leave_ring-Leaves sys s v)),
  λ lt. too_long-overflows sys s (record {
    registered = registered;
    too_long = omega (arith, unregisters n s ring id, length-print_id_lt n lt);
  }),
)
