-- ===== src/Client/Exit.antt =====
-- How a command ends: its exit code, what it wrote to stdout, and what it reported on stderr.
-- exitError of cmd/keycell/main.go maps the errors of the client.
pub mod Codes
use keycell.Client.{Failure, Sentinel, sentinel, answered}
use keycell.Prelude.{ℕ, [], List, none, some}
use keycell.Prelude.Bytes.{Bytes}
use keycell.Protocol

pub data Note : Type 0 where
  silent daemon_locked daemon_not_running : Note
  daemon_said : Protocol.Message → Note
  failed : Failure → Note
  bad_line : ℕ → Bytes → Note
  bad_input : Note
  ambiguous_match : List Bytes → Note
  value_has_newline : Bytes → Note
  one_name needs_name exclusive takes_no_arguments : Note
  bad_attribute repeated_attribute already_exists attribute_not_set : Bytes → Note
  no_value empty_value no_output not_encoded : Note
  names_not_found : List Bytes → Note

pub record Exit : Type 0 where
  pub code : ℕ
  pub out : Bytes
  pub note : Note

abbrev pub success : Exit
success = record { code = 0; out = []; note = silent }

abbrev pub fail : Note → Exit
fail n = record { code = 1; out = []; note = n }

-- A usage error.
abbrev pub misuse : Note → Exit
misuse n = record { code = 2; out = []; note = n }

message_of : Failure → Note
message_of (answered e) = daemon_said e.message
message_of f = failed f

-- exitError, on an error
unfoldable pub exit_error : Failure → Exit
unfolding message_of sentinel
exit_error f = elim (sentinel f) [
  | none ↦ fail (message_of f)
  | some Sentinel.locked ↦ fail daemon_locked
  | some Sentinel.not_running ↦ fail daemon_not_running
  | some _ ↦ fail (message_of f)
]
