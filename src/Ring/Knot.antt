-- ===== src/Ring/Knot.antt =====
-- `conn_printf` of connections.c, with `handle_broken_socket` as what follows a failed write.
--
-- The two call each other; the fuel bounds the depth of the calls.
use projeto_rci.Base.{ℕ, zero, suc, Bool, true, false}
use projeto_rci.Node.{Text, out_of_fuel}
use projeto_rci.Machine.{Socket, System, M, ◌>>=◌, ◌>>◌, pure, fail}
use projeto_rci.Connections.{write_message}
use projeto_rci.Ring.Broken.{handle_broken_socket}

-- What follows the write.
abbrev pub after_write : System → (Socket → Text → M Bool) → Socket → Bool → M Bool
after_write sys conn_printf socket true = pure true
after_write sys conn_printf socket false = handle_broken_socket sys conn_printf socket >> pure false

unfoldable pub conn_printf : System → ℕ → Socket → Text → M Bool
conn_printf sys zero socket text = fail out_of_fuel
conn_printf sys (suc fuel) socket text =
    write_message sys socket text >>= after_write sys (conn_printf sys fuel) socket
