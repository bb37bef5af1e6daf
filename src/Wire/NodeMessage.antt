-- ===== src/Wire/NodeMessage.antt =====
-- ENTRY and SUCC messages: what a node prints of a node, another one reads.
use projeto_rci.Base.{
  ℕ, zero, suc, ◌≤◌, ◌<◌, ◌≡◌, refl, ap, ◌∙◌, ==_refl, false, some, [], ◌∷◌, ◌++◌, pos, length,
  arith,
}
use mathlib.Core.List.{append_assoc}
use projeto_rci.Node.{NodeId, Text, Node}
use projeto_rci.Wire.Print.{print_id, print_id_padded, decimal}
use projeto_rci.Wire.Scan.{
  Scan, and_then, done, space, ◌>>=◌, is_space, skip_space, scan_id, number, digits, word,
  scan_word, scan_node, literal, nonempty, read, result_of,
}
use projeto_rci.Wire.RoundTrip.{TwoDigits}
use projeto_rci.Wire.RouteLine.{NoSpace, skip_one, word_all, scan_id-print_id, skip_space-print_id}
use projeto_rci.Ring.Join.{node_message}

-- What "%<n>s" reads as a whole: characters that are no white space, at least one and at most `n`.
pub record IsWord (n : ℕ) (w : Text) : Type 0 where
  pub no_space : NoSpace w
  pub some_character : 0 < length w
  pub fits : length w ≤ n

word_until : (n : ℕ) (w s : Text) → NoSpace w → length w ≤ n → word n (w ++ (32 ∷ s)) ≡ (w, 32 ∷ s)
unfolding word
word_until zero [] s h le = refl
word_until zero (c ∷ w) s h le = absurd (omega arith)
word_until (suc n) [] s h le = refl
word_until (suc n) (c ∷ w) s h le = rw (h.0, word_until n w s h.1 (omega arith)) refl

literal_prefix : (name s : Text) → literal name (name ++ s) ≡ some (tt, s)
unfolding literal
literal_prefix [] s = refl
literal_prefix (c ∷ name) s = rw (==_refl c) (literal_prefix name s)

scan_here :
    (n c : ℕ) (s : Text)
    → is_space c ≡ false
    → scan_word n (skip_space (32 ∷ c ∷ s)) ≡ nonempty (word n (c ∷ s))
unfolding scan_word skip_space
scan_here n c s h = ap (λ x. nonempty (word n (skip_space x))) (skip_one c s h) ∙ rw h refl

scan_before :
    (n : ℕ) (w s : Text)
    → IsWord n w
    → scan_word n (skip_space (32 ∷ (w ++ (32 ∷ s)))) ≡ some (w, 32 ∷ s)
scan_before n [] s h = absurd (omega (arith, h.some_character))
scan_before n (c ∷ w) s h =
    scan_here n c (w ++ (32 ∷ s)) (h.no_space.0)
    ∙ ap nonempty (word_until n (c ∷ w) s h.no_space h.fits)

scan_last : (n : ℕ) (w : Text) → IsWord n w → scan_word n (skip_space (32 ∷ w)) ≡ some (w, [])
scan_last n [] h = absurd (omega (arith, h.some_character))
scan_last n (c ∷ w) h =
    scan_here n c w (h.no_space.0) ∙ ap nonempty (word_all n (c ∷ w) h.no_space h.fits)

-- The text that "%hhd" reads as the identifier, with a space in front and one behind
abbrev Reads : Text → NodeId → Type 0
Reads text id = (s : Text) → scan_id (skip_space (32 ∷ (text ++ (32 ∷ s)))) ≡ some (id, 32 ∷ s)

print_id-Reads : (id : NodeId) → TwoDigits id → Reads (print_id id) id
print_id-Reads id d s = ap scan_id (skip_space-print_id id (32 ∷ s) d) ∙ scan_id-print_id id s d

padded :
    (n : ℕ) (s : Text)
    → n < 100
    → scan_id (skip_space (32 ∷ (print_id_padded (pos n) ++ (32 ∷ s)))) ≡ some (pos n, 32 ∷ s)
unfolding scan_id skip_space number digits print_id_padded decimal
padded n s h = ground arith

print_id_padded-Reads : (id : NodeId) → TwoDigits id → Reads (print_id_padded id) id
print_id_padded-Reads id (n, e, h) s = rw e (padded n s h)

module _ (name id_text : Text) (node : Node) (reads : Reads id_text node.id)
    (ip : IsWord 15 node.ip_addr) (port : IsWord 5 node.tcp_port) where
  abbrev rest : Text
  rest = node.ip_addr ++ (32 ∷ node.tcp_port)

  abbrev line : Text
  line = name ++ (32 ∷ (id_text ++ (32 ∷ rest)))

  printed : node_message (name ++ (32 ∷ [])) id_text node ≡ line ++ (b'\n' ∷ [])
  printed = simp append_assoc

  after_ip : NodeId → Text → Scan Node
  after_ip id ip_addr = space >>= λ _.
      scan_word 5 >>= λ tcp_port. done (record { id = id; ip_addr = ip_addr; tcp_port = tcp_port })

  after_id : NodeId → Scan Node
  after_id id = space >>= λ _. scan_word 15 >>= after_ip id

  scanned : scan_node name line ≡ some (node, [])
  unfolding scan_node after_ip after_id
  scanned =
      ap (λ r. and_then r (λ _. space >>= λ _. scan_id >>= after_id))
        (literal_prefix name (32 ∷ (id_text ++ (32 ∷ rest))))
      ∙ ap (λ r. and_then r after_id) (reads rest)
      ∙ ap (λ r. and_then r (after_ip node.id)) (scan_before 15 node.ip_addr node.tcp_port ip)
      ∙ ap
          (λ r. and_then r (λ tcp_port.
            done (record { id = node.id; ip_addr = node.ip_addr; tcp_port = tcp_port })))
          (scan_last 5 node.tcp_port port)

-- If the identifier of a node is from 0 to 99, and its address and port are words of at most 15
-- and 5 characters, then what is printed of the node in an ENTRY or SUCC message, with the
-- identifier padded by a zero or by a space, is a line with its newline, and from the line the
-- three conversions read the node.
pub node_message-scan :
    (name : Text) (node : Node)
    → TwoDigits node.id
    → IsWord 15 node.ip_addr
    → IsWord 5 node.tcp_port
    → (line padded_line : Text) × (node_message (name ++ (32 ∷ [])) (print_id node.id) node
        ≡ line ++ (b'\n' ∷ []))
      × (read (scan_node name) line ≡ some node)
      × (node_message (name ++ (32 ∷ [])) (print_id_padded node.id) node
          ≡ padded_line ++ (b'\n' ∷ []))
      × (read (scan_node name) padded_line ≡ some node)
node_message-scan name node two ip port =
    let reads = print_id-Reads node.id two in
    let reads_padded = print_id_padded-Reads node.id two in
    (
      line name (print_id node.id) node reads ip port,
      line name (print_id_padded node.id) node reads_padded ip port,
      printed name (print_id node.id) node reads ip port,
      ap result_of (scanned name (print_id node.id) node reads ip port),
      printed name (print_id_padded node.id) node reads_padded ip port,
      ap result_of (scanned name (print_id_padded node.id) node reads_padded ip port),
    )
