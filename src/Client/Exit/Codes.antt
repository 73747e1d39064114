-- ===== src/Client/Exit/Codes.antt =====
-- The exit code of an error of the client.
use keycell.Client.{Failure}
use keycell.Client.Exit.{exit_error}
use keycell.Prelude.{◌≡◌, arith}

pub exit_error-code : (e : Failure) → (exit_error e).code ≡ 1
unfolding exit_error
exit_error-code e = ground arith
