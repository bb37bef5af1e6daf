-- ===== src/MainLoop/Loose.antt =====
-- The main loop keeps to every frame that asks nothing of the tables, whatever the user types.
use projeto_rci.Base.{ℕ, Bool, Option, none, some}
use projeto_rci.Node.{Text}
use projeto_rci.ReadLines.{ReadResult, RlResult, rl_ok, rl_end, rl_error, rl_overflow}
use projeto_rci.Machine.{Socket, System, M}
use projeto_rci.Frame.{Frame, Keeps, keeps}
use projeto_rci.Ring.KeptNodes.{handle_message-Keeps}
use projeto_rci.Ring.KeptBroken.{handle_broken_socket-Keeps}
use projeto_rci.Ring.Loose.{IsLoose, updates, removes}
use projeto_rci.User.Loose.{handle_user_input-Keeps}
use projeto_rci.User.{handle_user_input}
use projeto_rci.MainLoop.{Select, after_stdin, read_stdin, from_stdin, turns}
use projeto_rci.MainLoop.Kept.{each_line-Keeps, turns-Keeps}

module _ (F : Frame) (loose : IsLoose F) (sys : System) (conn_printf : Socket → Text → M Bool)
    (printf : (socket : Socket) (text : Text) → Keeps F (conn_printf socket text)) where
  after_stdin-Keeps : (r : RlResult) → Keeps F (after_stdin sys conn_printf r)
  after_stdin-Keeps rl_ok = search keeps
  after_stdin-Keeps rl_overflow = search keeps
  after_stdin-Keeps rl_end = search keeps
  after_stdin-Keeps rl_error = search keeps

  input-Keeps : (input : Text) → Keeps F (handle_user_input sys conn_printf input)
  input-Keeps = handle_user_input-Keeps F loose sys conn_printf printf

  stdin-Keeps : (r : Option ReadResult) → Keeps F (from_stdin sys conn_printf r)
  unfolding read_stdin
  stdin-Keeps none = search keeps
  stdin-Keeps (some input) =
      search (keeps, each_line-Keeps, input-Keeps, after_stdin-Keeps) depth 20 fits 4000

  pub rounds-Keeps : (selects : Select) (n : ℕ) → Keeps F (turns sys conn_printf selects n)
  rounds-Keeps selects =
      turns-Keeps F sys conn_printf
        (handle_message-Keeps F conn_printf printf (removes F loose conn_printf printf) sys
          (updates F loose conn_printf printf))
        (handle_broken_socket-Keeps F conn_printf printf (removes F loose conn_printf printf) sys)
        selects (λ h inputs t ready e. stdin-Keeps ready.stdin)
