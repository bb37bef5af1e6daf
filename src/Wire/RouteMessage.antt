-- ===== src/Wire/RouteMessage.antt =====
-- What a neighbor reads from a ROUTE message with a path.
use projeto_rci.Base.{
  ℕ, zero, suc, ◌+◌, ◌*◌, ◌≤◌, ◌<◌, ◌≡◌, refl, ap, sym, ◌∙◌, false, some, [], ◌∷◌, ◌++◌, pos, ◌==ℤ◌,
  slice, lt→ltb, le→not_ltb, length, length-append, arith,
}
use mathlib.Core.List.{append_assoc}
use projeto_rci.Node.{NodeId, Text, max_nodes, out_of_bounds, ok, stop}
use projeto_rci.Routing.Path.{RoutePath, is_invalid}
use projeto_rci.Wire.Print.{
  print_id, print_nodes, path_to_string, get_route_message, route_message, route_msg_size,
  in_route_msg, route_header, route_word,
}
use projeto_rci.Wire.Scan.{scan_route_path, read, result_of}
use projeto_rci.Wire.RouteLine.{
  NoSpace, NoSpace-append, print_id-NoSpace, length-print_id, route_line,
  scan_route_path-route_line,
}
use projeto_rci.Wire.PathString.{parse_path}
use projeto_rci.Wire.RoundTrip.{TwoDigits, parse_path-path_to_string}

print_nodes-NoSpace :
    (n i : ℕ) (nodes : ℕ → NodeId)
    → ((k : ℕ) → k < i + n → TwoDigits (nodes k))
    → NoSpace (print_nodes n i nodes) × (length (print_nodes n i nodes) ≡ 3 * n)
unfolding print_nodes
print_nodes-NoSpace zero i nodes h = (tt, refl)
print_nodes-NoSpace (suc n) i nodes h =
    let (spaces, count) = print_nodes-NoSpace n (suc i) nodes (λ k lt. h k (omega arith)) in
    let two = h i (omega arith) in
    let tail = b'-' ∷ print_nodes n (suc i) nodes in
    (
      NoSpace-append (print_id (nodes i)) tail (print_id-NoSpace (nodes i) two) (refl, spaces),
      length-append (print_id (nodes i)) tail ∙ omega (arith, length-print_id (nodes i) two, count),
    )

module _ (self recipient_id : NodeId) (p : RoutePath) (n : ℕ) (ds : TwoDigits self)
    (dr : TwoDigits recipient_id) (e : p.hop_count ≡ pos n)
    (h : (k : ℕ) → k < n → TwoDigits (p.nodes k)) where
  abbrev path_str : Text
  path_str = print_id self ++ (b'-' ∷ (print_nodes n 0 p.nodes ++ print_id recipient_id))

  printed : path_to_string self recipient_id p ≡ ok path_str
  unfolding path_to_string ◌==ℤ◌
  printed = rw e refl

  path_str-NoSpace : NoSpace path_str × (length path_str ≡ 3 * n + 5)
  path_str-NoSpace =
      let (spaces, count) = print_nodes-NoSpace n 0 p.nodes (λ k lt. h k (omega arith)) in
      let ids = print_nodes n 0 p.nodes ++ print_id recipient_id in
      (
        NoSpace-append (print_id self) (b'-' ∷ ids) (print_id-NoSpace self ds) (
          refl,
          NoSpace-append (print_nodes n 0 p.nodes) (print_id recipient_id) spaces
              (print_id-NoSpace recipient_id dr),
        ),
        length-append (print_id self) (b'-' ∷ ids)
            ∙ omega (
              arith,
              length-print_id self ds,
              length-print_id recipient_id dr,
              count,
              length-append (print_nodes n 0 p.nodes) (print_id recipient_id),
            ),
      )

  is_valid : is_invalid p ≡ false
  unfolding ◌==ℤ◌
  is_valid = rw e refl

  abbrev message : Text
  message = route_header self recipient_id (32 ∷ (path_str ++ (b'\n' ∷ [])))

  message_printed : route_message self recipient_id (some p) ≡ ok message
  message_printed = rw (is_valid, printed) refl

  message-line : message ≡ route_line self recipient_id path_str ++ (b'\n' ∷ [])
  message-line =
      let nl : Text = b'\n' ∷ [] in
      sym (
        ap (λ x. route_word ++ x)
          (append_assoc (print_id self) (32 ∷ (print_id recipient_id ++ (32 ∷ path_str))) nl
            ∙ ap (λ x. print_id self ++ (32 ∷ x))
                (append_assoc (print_id recipient_id) (32 ∷ path_str) nl)))

  length-message : length message ≡ 3 * n + 18
  length-message =
      let rest = 32 ∷ (path_str ++ (b'\n' ∷ [])) in
      omega (
        arith,
        length-append (print_id self) (32 ∷ (print_id recipient_id ++ rest)),
        length-append (print_id recipient_id) rest,
        length-append path_str (b'\n' ∷ []),
        length-print_id self ds,
        length-print_id recipient_id dr,
        path_str-NoSpace.1,
      )

  message_fits : n ≤ 14 → get_route_message self recipient_id (some p) ≡ ok message
  unfolding get_route_message
  message_fits le =
      ap in_route_msg message_printed
      ∙ rw (lt→ltb (length message) route_msg_size (omega (arith, length-message))) refl

  -- If this node, the recipient and the nodes of a path have identifiers from 0 to 99, and the
  -- path has more than 14 hops, then its ROUTE message is printed past the end of `route_msg`.
  pub get_route_message-overflow :
      14 < n → get_route_message self recipient_id (some p) ≡ stop out_of_bounds
  unfolding get_route_message
  get_route_message-overflow gt =
      ap in_route_msg message_printed
      ∙ rw (le→not_ltb (length message) route_msg_size (omega (arith, length-message))) refl

scan_text :
    (self recipient_id : NodeId) (w : Text)
    → TwoDigits self
    → TwoDigits recipient_id
    → NoSpace w
    → 0 < length w
    → length w ≤ 47
    → scan_route_path (route_line self recipient_id w) ≡ some ((self, recipient_id, w), [])
scan_text self recipient_id [] ds dr h lt le = absurd (omega arith)
scan_text self recipient_id (c ∷ w) ds dr h lt le =
    scan_route_path-route_line self recipient_id c w ds dr h le

ok_inj : {s r : Text} → ok s ≡ ok r → s ≡ r
ok_inj e = cc

-- If this node, the recipient and the nodes of a path have identifiers from 0 to 99, and the path
-- has at most 14 hops, then its ROUTE message is a line with its newline that fits, with a NUL,
-- into 61 bytes; from the line, the three conversions of ROUTE read this node, the recipient and a
-- path string, which is read as the path with this node in front.
pub get_route_message-scan :
    (self recipient_id : NodeId) (p : RoutePath) (n : ℕ) (nodes : ℕ → NodeId)
    → TwoDigits self
    → TwoDigits recipient_id
    → p.hop_count ≡ pos n
    → ((k : ℕ) → k < n → TwoDigits (p.nodes k))
    → n + 2 ≤ max_nodes
    → (line : Text) × (path_str : Text) × (q : RoutePath) × (get_route_message self recipient_id
          (some p)
        ≡ ok (line ++ (b'\n' ∷ [])))
      × (length (line ++ (b'\n' ∷ [])) < 61)
      × (read scan_route_path line ≡ some (self, recipient_id, path_str))
      × (parse_path path_str [] 0 nodes ≡ ok (some q))
      × (q.hop_count ≡ pos (suc n))
      × (slice (suc n) 0 q.nodes ≡ self ∷ slice n 0 p.nodes)
get_route_message-scan self recipient_id p n nodes ds dr e h fits =
    let text = path_str self recipient_id p n ds dr e h in
    let line = route_line self recipient_id text in
    let (spaces, count) = path_str-NoSpace self recipient_id p n ds dr e h in
    let same = message-line self recipient_id p n ds dr e h in
    let (s, q, prints, parses, hops, copied) =
      parse_path-path_to_string self recipient_id p n nodes ds dr e h fits in
    (
      line,
      text,
      q,
      message_fits self recipient_id p n ds dr e h (omega arith) ∙ ap ok same,
      omega (arith, ap length same, length-message self recipient_id p n ds dr e h),
      ap result_of (
          scan_text self recipient_id text ds dr spaces (omega (arith, count))
            (omega (arith, count))),
      ap (λ x. parse_path x [] 0 nodes)
            (ok_inj (sym (printed self recipient_id p n ds dr e h) ∙ prints))
          ∙ parses,
      hops,
      copied,
    )
