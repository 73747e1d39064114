-- ===== src/Daemon/Server.antt =====
-- internal/daemon/server.go: the dispatch of requests, and the loop over one connection. A method
-- call is one step on the session and the files; sockets, logging and the shutdown are left out.
pub mod Unlocking
pub mod Replies
use keycell.Atomicfile.{Files, Faults}
use keycell.Daemon.Session
use keycell.Daemon.Session.{Session}
use keycell.Daemon.Store
use keycell.Daemon.Store.{Secret, Filter}
use keycell.Prelude.{
  ℕ, Bool, true, false, [], ◌∷◌, List, map, Option, none, some, Result, ok, err, if◌then◌else◌,
  map_err, ◌>>=◌,
}
use keycell.Prelude.Bytes.{Bytes}
use keycell.Prelude.Int.{ℤ, pos, mul_int64}
use keycell.Protocol
use keycell.Protocol.{
  Wire, Method, Request, Response, SecretInfo, Answer, state, secret, listing, empty, bind,
  method_of, new_result, new_error, ListParams, StoreParams, UnlockParams, Malformed, read_request,
}
use keycell.Secmem.{Calls}
use keycell.Vault.File
use keycell.Vault.File.{Codec, Disk}
use keycell.Vault.Validate.{Invalid}

-- What the daemon keeps.
pub record Server (I : Type 0) : Type 0 where
  pub session : Session I
  pub files : Files

-- What the operating system does during one request.
pub record Env : Type 0 where
  pub calls : Calls
  pub faults : Faults
  pub opens : Bool
  pub random : ℕ
  pub now : ℕ
  pub sends : Bool

pub data Failure : Type 0 where
  protocol : Protocol.Error → Failure
  session : Session.Failure → Failure
  store : Store.Error → Failure

-- What the reader of a connection gives: a line, a line that is too long, or an end.
pub data Incoming : Type 0 where
  line : Bytes → Incoming
  too_long closed : Incoming

abbrev or_nil : Option Bytes → Bytes
or_nil none = []
or_nil (some id) = id

-- toError
unfoldable pub to_error : Failure → Protocol.Error
to_error (protocol e) = e
to_error (session (Session.Failure.bad_identity e)) = record {
  code = Protocol.invalid_argument;
  message = Protocol.bad_identity;
}
to_error (session (Session.Failure.no_memory e)) = record {
  code = Protocol.internal;
  message = Protocol.internal_error;
}
to_error (store Store.locked) = record {
  code = Protocol.Code.locked;
  message = Protocol.daemon_locked;
}
to_error (store Store.not_found) = record {
  code = Protocol.not_found;
  message = Protocol.secret_not_found;
}
to_error (store (Store.invalid_argument e)) = record {
  code = Protocol.invalid_argument;
  message = Protocol.invalid e;
}
to_error (store (Store.vault File.wrong_identity)) = record {
  code = Protocol.invalid_argument;
  message = Protocol.wrong_identity;
}
to_error (store (Store.vault File.not_exist)) = record {
  code = Protocol.internal;
  message = Protocol.vault_not_found;
}
to_error (store (Store.vault e)) = record {
  code = Protocol.internal;
  message = Protocol.internal_error;
}

-- toInfo
unfoldable pub to_info : Secret → SecretInfo
to_info s = record {
  name = s.name;
  kind = s.kind;
  attributes = s.attributes;
  created = s.created;
  updated = s.updated;
}

-- `time.Duration(*p.For) * time.Second`, on int64
unfoldable pub seconds : ℤ → ℤ
seconds s = mul_int64 s (pos 1_000_000_000)

abbrev pub lock_after : Option ℤ → Option ℤ
lock_after none = none
lock_after (some s) = some (seconds s)

abbrev pub everything : Filter
everything = record { kind = []; prefix = []; attributes = [] }

module _ {I : Type 0} (c : Codec I) (w : Wire) where
  abbrev pub disk : Env → Server I → Disk
  disk e s = record { files = s.files; faults = e.faults; opens = e.opens; random = e.random }

  -- verifyIdentity
  unfoldable pub verify_identity : Env → Server I → Result Store.Error (List Secret)
  verify_identity e s = Store.list c s.session (disk e s) everything

  abbrev done : Server I → Server I × Result Failure Answer
  done s = (s, ok empty)

  abbrev fails :
      {A : Type 0}
      → Server I
      → Result Failure A
      → (A → Server I × Result Failure Answer)
      → Server I × Result Failure Answer
  fails s (err x) k = (s, err x)
  fails s (ok a) k = k a

  -- The case MethodUnlock once the params are decoded.
  unfoldable pub call_unlock : Env → Server I → UnlockParams → Server I × Result Failure Answer
  unfolding verify_identity
  call_unlock e s p =
      let (after, r, _) =
        Session.unlock c e.calls e.now s.session p.identity (lock_after p.for_seconds) in
      let s' : Server I = record s { session = after } in
      elim r [
        | err x ↦ (s', err (session x))
        | ok _ ↦ elim (verify_identity e s') [
          | ok _ ↦ (s', ok empty)
          | err x ↦ (record s' { session = Session.lock after }, err (store x))
        ]
      ]

  written : Server I → Files × Result Store.Error (Unit {0}) → Server I × Result Failure Answer
  written s (fs, r) = (record s { files = fs }, map_err store (do _ ← r; ok empty))

  -- The cases of `call`.
  unfoldable pub run : Env → Server I → Method → Bytes → Server I × Result Failure Answer
  unfolding call_unlock written to_info
  run e s Protocol.status params =
      let (is_locked, at) = Session.status s.session in
      (
        s,
        ok (
            state (record {
              version = Protocol.protocol_version;
              is_locked = is_locked;
              locks_at = at;
            })),
      )
  run e s Protocol.unlock params =
      fails s
        (map_err protocol
          (bind w.unlock_params (record { identity = []; for_seconds = none }) params))
        (call_unlock e s)
  run e s Protocol.lock params = done (record s { session = Session.lock s.session })
  run e s Protocol.get params = (
    s,
    (do
      name ← map_err protocol (bind w.name [] params)
      x ← map_err store (Store.get c s.session (disk e s) name)
      ok (secret (record { info = to_info x; value = x.value }))),
  )
  run e s Protocol.list params = (
    s,
    (do
      p ←
          map_err protocol
            (bind w.list_params (record { kind = []; prefix = []; attributes = [] }) params)
      xs ← map_err store (
          Store.list c s.session (disk e s)
            (record { kind = p.kind; prefix = p.prefix; attributes = p.attributes }))
      ok (listing (map to_info xs))),
  )
  run e s Protocol.store params =
      fails s
        (map_err protocol (
          bind w.store_params (record { name = []; kind = []; attributes = []; value = [] })
            params))
        λ p. written s (Store.store c s.session (disk e s) e.now p.name p.kind p.attributes p.value)
  run e s Protocol.delete params =
      fails s (map_err protocol (bind w.name [] params))
        λ name. written s (Store.delete_secret c s.session (disk e s) name)

  -- call
  unfoldable pub call : Env → Server I → Request → Server I × Result Failure Answer
  unfolding run method_of
  call e s req = elim (method_of req.method) [
    | none ↦ (
      s,
      err (
          protocol
            (record { code = Protocol.protocol; message = Protocol.unknown_method req.method })),
    )
    | some m ↦ run e s m req.params
  ]

  abbrev pub internal_error : Protocol.Error
  internal_error = record { code = Protocol.internal; message = Protocol.internal_error }

  unfoldable pub respond : Bytes → Result Failure Answer → Response
  respond id (err x) = new_error id (to_error x)
  respond id (ok a) = elim (new_result w id a) [
    | none ↦ new_error id internal_error
    | some resp ↦ resp
  ]

  -- dispatch
  unfoldable pub dispatch : Env → Server I → Request → Server I × Response
  unfolding respond new_result new_error
  dispatch e s req = let (s', r) = call e s req in (s', respond req.id r)

  -- One turn of the loop of `handle`: the state, the response written, whether the loop goes on.
  unfoldable pub turn : Env → Server I → Incoming → Server I × Option Response × Bool
  unfolding dispatch
  turn e s (line b) = elim (read_request w b) [
    | err m ↦ (s, some (new_error (or_nil m.id) m.error), e.sends)
    | ok req ↦ let (s', resp) = dispatch e s req in (s', some resp, e.sends)
  ]
  turn e s too_long = (
    s,
    some (new_error [] (record { code = Protocol.protocol; message = Protocol.line_too_long })),
    false,
  )
  turn e s closed = (s, none, false)

  abbrev add : Option Response → List Response → List Response
  add none rs = rs
  add (some r) rs = r ∷ rs

  -- handle: one connection, from what the reader gives.
  unfoldable pub handle : Server I → List (Env × Incoming) → Server I × List Response
  handle s [] = (s, [])
  handle s ((e, i) ∷ rest) =
      let (s', out, more) = turn e s i in
      let next = handle s' rest in if more then (next.0, add out next.1) else (s', add out [])
