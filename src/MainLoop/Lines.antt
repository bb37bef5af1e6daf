-- ===== src/MainLoop/Lines.antt =====
-- Reading from a connection: the messages that arrive whole are handled, the rest is kept.
use projeto_rci.Base.{
  ℕ, zero, suc, ◌+◌, ◌-◌, ◌≤◌, ◌<◌, ◌≡◌, refl, ap, ◌∙◌, Bool, List, [], ◌∷◌, map, ==_ne, length,
  take, arith,
}
use projeto_rci.Node.{Text, Result, ok, stop}
use projeto_rci.ReadLines.{
  Read, received, rl_ok, c_string, scan, finish, cut, read_lines, read_lines_at,
}
use projeto_rci.ReadLines.Split.{unsplit, NoNewline, AllNoNewline, scan-lines}
use projeto_rci.Machine.{
  Socket, System, State, M, ◌>>=◌, ◌>>◌, and_then, connection, update_connection,
}
use projeto_rci.Ring.NewNode.{handle_message}
use projeto_rci.MainLoop.Connect.{each_line, after_read, read_with, read_from}

take-le : (n : ℕ) (s : Text) → length s ≤ n → take n s ≡ s
take-le zero [] h = refl
take-le (suc n) [] h = refl
take-le zero (c ∷ s) h = absurd (omega arith)
take-le (suc n) (c ∷ s) h = ap (◌∷◌ c) (take-le n s (omega arith))

finish-lt :
    (ls : List Text) (rest : Text)
    → length rest < 256
    → finish 256 (record { lines = ls; remainder = rest })
      ≡ record { buffer = rest; handled = map c_string ls; result = rl_ok }
finish-lt ls rest h = rw (==_ne (length rest) 256 (omega arith))

cut-lines :
    (now : ℕ) (ls : List Text) (rest : Text)
    → cut 0 now (record { lines = ls; remainder = rest }) ≡ record { lines = ls; remainder = rest }
cut-lines now ls rest =
    ap (λ (t : Text). record { lines = ls; remainder = t })
      (take-le (now + length rest - 0) rest (omega arith))

-- Whatever the handlers have left in the buffer, it is the rest that is kept if it was empty.
read_lines_at-unsplit :
    (now : ℕ) (ls : List Text) (rest chunk : Text)
    → chunk ≡ unsplit ls rest
    → AllNoNewline ls
    → NoNewline rest
    → 0 < length chunk
    → length rest < 256
    → read_lines_at 256 now [] (received chunk)
      ≡ record { buffer = rest; handled = map c_string ls; result = rl_ok }
unfolding read_lines_at
read_lines_at-unsplit now ls rest [] e h k pos fits = absurd (omega arith)
read_lines_at-unsplit now ls rest (b ∷ bs) e h k pos fits =
    ap (λ t. finish 256 (cut 0 now (scan (length t) [] t))) e
    ∙ ap (λ t. finish 256 (cut 0 now t)) (scan-lines ls rest h k)
    ∙ ap (finish 256) (cut-lines now ls rest)
    ∙ finish-lt ls rest fits

and_then_cong :
    {A B : Type 0} (r : Result (A × State)) (f g : A → M B)
    → ((a : A) (s' : State) → f a s' ≡ g a s')
    → and_then r f ≡ and_then r g
and_then_cong (stop e) f g same = refl
and_then_cong (ok (a, s')) f g same = same a s'

module _ (sys : System) (conn_printf : Socket → Text → M Bool) where
  -- What the reading does with what `read_lines` gives, before and after the handlers.
  read_with-lines :
      (i : ℕ) (socket : Socket) (chunk : Text) (x : Read) (s : State)
      → ((now : ℕ) → read_lines_at 256 now [] (received chunk) ≡ x)
      → x.result ≡ rl_ok
      → read_with sys conn_printf i socket (received chunk) [] s
        ≡ (each_line x.handled (handle_message sys conn_printf socket)
              >> update_connection i (λ c. record c { buffer = x.buffer }))
            s
  unfolding read_lines update_connection
  read_with-lines i socket chunk x s reads done =
      let handle = handle_message sys conn_printf socket in
      let go_on : Unit {0} → M (Unit {0}) = λ _. connection i >>= λ now.
      let read = read_lines_at 256 (length now.buffer) [] (received chunk) in
      update_connection i (λ c. record c { buffer = read.buffer })
      >> after_read sys conn_printf socket read.result in
      ap (λ (y : Read). (each_line y.handled handle >>= go_on) s) (reads 0)
      ∙ and_then_cong (each_line x.handled handle s) go_on
          (λ _. update_connection i (λ c. record c { buffer = x.buffer }))
          (λ _ s'.
            ap
              (λ (y : Read).
                (update_connection i (λ c. record c { buffer = y.buffer })
                    >> after_read sys conn_printf socket y.result)
                  s')
              (reads (length (s'.connections i).buffer))
            ∙ ap
                (λ result.
                  (update_connection i (λ c. record c { buffer = x.buffer })
                      >> after_read sys conn_printf socket result)
                    s')
                done)

  -- If the buffer of a connection is empty, and at least one byte is read from it, which are lines
  -- without newlines, each followed by a newline, and a rest without newlines of less than 256
  -- bytes: then the main loop's reading handles the lines as messages, in order, each cut at its
  -- first null character, and, if that returns, leaves the rest in the buffer of the connection
  -- and does nothing else.
  pub read_from-each_line :
      (i : ℕ) (socket : Socket) (ls : List Text) (rest : Text) (s : State)
      → (s.connections i).buffer ≡ []
      → AllNoNewline ls
      → NoNewline rest
      → 0 < length (unsplit ls rest)
      → length rest < 256
      → read_from sys conn_printf i socket (received (unsplit ls rest)) s
        ≡ (each_line (map c_string ls) (handle_message sys conn_printf socket)
              >> update_connection i (λ c. record c { buffer = rest }))
            s
  unfolding read_from
  read_from-each_line i socket ls rest s empty h k pos fits =
      ap (λ t. read_with sys conn_printf i socket (received (unsplit ls rest)) t s) empty
      ∙ read_with-lines i socket (unsplit ls rest)
          (record { buffer = rest; handled = map c_string ls; result = rl_ok }) s
          (λ now. read_lines_at-unsplit now ls rest (unsplit ls rest) refl h k pos fits) refl
