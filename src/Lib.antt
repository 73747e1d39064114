-- ===== src/Lib.antt =====
-- keycell keeps secrets in one age-encrypted vault file. A daemon holds the identity that opens it
-- in locked memory and answers requests on a socket; the command line, the git and docker helpers
-- and programs ask it through a client library.
--
-- The files and the code they model:
--   Prelude: bytes, UTF-8, Go's int64 and maps, results, sorted strings and scanned lines.
--   Atomicfile: internal/atomicfile/atomicfile.go. `write_file` is Write with backup, on a state of
--     the file, its backup and the temporary file; `Faults` says which system calls succeed, and
--     what a write that fails has written.
--   Vault/Model, Vault/Validate, Vault/File: internal/vault/vault.go, validate.go and file.go. The
--     encoding and the encryption are a `Codec`, a parameter; `IsFaithful` is its law, that what was
--     sealed for an identity opens with it to what was encoded.
--   Secmem: internal/secmem/secmem.go, as regions of a memory, with the kernel's answers as `Calls`.
--   Identity, Identity/Forms: internal/identity/identity.go. A `Dir` is the data directory; age with
--     a passphrase is a `Scrypt`, a parameter, and `IsAge` (Identity/Setup/Loads) its law.
--   Identity/Setup: internal/identity/setup.go, Init and the changes of the passphrase.
--   Daemon/Session: internal/daemon/session.go. The state is a `Session`; Timers has the step
--     relation of Unlock, Lock, the firing of a timer and the passing of time, one step per
--     critical section of the mutex; Progress is about time and timers alone (`Idle`).
--   Daemon/Store: internal/daemon/store.go, Get, List, Store and Delete over the session and a disk.
--     Replay is the vault as callers see it, a lock and a function from names to secrets.
--   Protocol: internal/protocol/protocol.go and ReadRequest of codec.go; JSON is a `Wire`.
--   Protocol/Reader: readLine and consume of codec.go, on the results of the reads to come; Limits is
--     about the size of its buffer.
--   Daemon/Server: internal/daemon/server.go, from one line of a connection to its response. An
--     `Env` gives what the system calls of one request answer.
--   Client, Client/Exit: pkg/keycell/transport.go and keycell.go, exitError of cmd/keycell/main.go.
--     `Api` is the interface that the commands below take. Client/Calls are the client's methods on a
--     connection, and `served` a connection to the daemon of Daemon/Server; `IsPaired`
--     (Client/Calls/Paired) is what the two sides rely on.
--   GitCredential: cmd/keycell/gitcredential.go. Exec: cmd/keycell/exec.go.
--   Secrets: cmd/keycell/secrets.go. Passphrases: cmd/keycell/setup.go, with the loop of
--     askPassphrase. Unlock: cmd/keycell/unlock.go and status.go. Terminal: internal/tty/tty.go.
--   Import, Export: cmd/keycell/transfer.go.
--   DockerHelper: cmd/docker-credential-keycell. Config: internal/config/config.go.
--   Tests: a codec and scenes on which the theorems are applied.
--
-- Every loop of the program goes over a list, or counts the attempts that askPassphrase has left,
-- and is structural recursion, so no fuel is needed; a decoder that takes several bytes at a time
-- counts the bytes to skip. A duration is an int64 with its wrap-around written out, as is the
-- uint64 generation of a session's timer.
--
-- Not modelled: sockets, signals, the mode of the terminal, logging, what commands print beside
-- their output, and the cli package's command tree, which are calls of the system or of libraries,
-- and the wiping of buffers outside of the session.
pub mod Prelude
pub mod Atomicfile
pub mod Vault
pub mod Secmem
pub mod Identity
pub mod Protocol
pub mod Daemon
pub mod Client
pub mod GitCredential
pub mod Exec
pub mod Import
pub mod Export
pub mod Secrets
pub mod Terminal
pub mod Passphrases
pub mod Unlock
pub mod Config
pub mod DockerHelper
pub mod Tests
