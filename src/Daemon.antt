-- ===== src/Daemon.antt =====
-- internal/daemon: the state of keycelld. The session in session.go, the operations on the vault
-- in store.go, and the dispatch of requests in server.go.
pub mod Session
pub mod Store
pub mod Server
