-- ===== src/Client/Calls.antt =====
-- pkg/keycell/keycell.go: the calls of the client, on a connection that answers a line, and a
-- daemon at its other end. A Value is its bytes, so one that is nil or destroyed has no counterpart.
pub mod Paired
pub mod EndToEnd
use keycell.Client.{
  Secret, Exchange, response, closed, Failure, broken, bad_params, round_trip, seconds_of,
}
use keycell.Daemon.Server.{Server, Env, line, turn}
use keycell.Daemon.Store.{Filter}
use keycell.Prelude.{
  ℕ, Bool, true, false, List, [], ◌∷◌, map, Option, none, some, Result, ok, err, if◌then◌else◌,
}
use keycell.Prelude.Bytes.{Bytes, text}
use keycell.Prelude.Int.{ℤ}
use keycell.Protocol
use keycell.Protocol.{
  Wire, Request, Response, SecretInfo, GetResult, StatusResult, ListParams, StoreParams,
  UnlockParams,
}
use keycell.Vault.File.{Codec}

-- The client's side of the JSON: what it writes, what it reads, and how a response travels.
pub record Link : Type 0 where
  pub request : Request → Option Bytes
  pub name : Bytes → Option Bytes
  pub list_params : ListParams → Option Bytes
  pub store_params : StoreParams → Option Bytes
  pub unlock_params : UnlockParams → Option Bytes
  pub no_params : Bytes
  pub get_result : Bytes → Option GetResult
  pub list_result : Bytes → Option (List SecretInfo)
  pub status_result : Bytes → Option StatusResult
  pub carry : Response → Exchange

-- fromInfo, with the value of a Get or none
unfoldable pub from_info : SecretInfo → Bytes → Secret
from_info i v = record {
  name = i.name;
  kind = i.kind;
  attributes = i.attributes;
  value = v;
  created = i.created;
  updated = i.updated;
}

-- json.Unmarshal of a result, which fails on a missing one.
abbrev pub unmarshal : {A : Type 0} → (Bytes → Option A) → Option Bytes → Option A
unmarshal decode none = none
unmarshal decode (some raw) = decode raw

-- A call whose result is ignored.
abbrev pub ignore : Option Bytes → Option (Unit {0})
ignore r = some tt

module _ (l : Link) {S : Type 0} (exchange : S → Bytes → S × Exchange) (id : Bytes) where
  -- call: `id` is the number of the request.
  unfoldable pub call :
      {A : Type 0} → Bytes → Option Bytes → (Option Bytes → Option A) → S → S × Result Failure A
  unfolding round_trip
  call method none decode st = (st, err bad_params)
  call method (some params) decode st =
      elim (l.request (record { id = id; method = method; params = params })) [
        | none ↦ (st, err broken)
        | some b ↦ ((exchange st b).0, round_trip true id decode (exchange st b).1)
      ]

  got : Result Failure GetResult → Result Failure Secret
  unfolding from_info
  got (err e) = err e
  got (ok g) = ok (from_info g.info g.value)

  -- Get
  unfoldable pub get : S → Bytes → S × Result Failure Secret
  unfolding call got
  get st n = let r = call (text "get") (l.name n) (unmarshal l.get_result) st in (r.0, got r.1)

  -- Store
  unfoldable pub store : S → Secret → S × Result Failure (Unit {0})
  unfolding call
  store st s =
      call (text "store")
        (l.store_params
          (record { name = s.name; kind = s.kind; attributes = s.attributes; value = s.value }))
        ignore st

  -- Delete
  unfoldable pub delete : S → Bytes → S × Result Failure (Unit {0})
  unfolding call
  delete st n = call (text "delete") (l.name n) ignore st

  listed : Result Failure (List SecretInfo) → Result Failure (List Secret)
  unfolding from_info
  listed (err e) = err e
  listed (ok is) = ok (map (λ i. from_info i []) is)

  -- List
  unfoldable pub list : S → Filter → S × Result Failure (List Secret)
  unfolding call listed
  list st f =
      let r =
        call (text "list")
          (l.list_params (record { kind = f.kind; prefix = f.prefix; attributes = f.attributes }))
          (unmarshal l.list_result) st in
      (r.0, listed r.1)

  -- unlock
  unfoldable pub unlock : S → Bytes → Option ℤ → S × Result Failure (Unit {0})
  unfolding call
  unlock st key secs =
      call (text "unlock") (l.unlock_params (record { identity = key; for_seconds = secs })) ignore
        st

  -- UnlockFor, for a duration that is not negative
  unfoldable pub unlock_for : S → Bytes → ℕ → S × Result Failure (Unit {0})
  unfolding unlock seconds_of
  unlock_for st key d = unlock st key (some (seconds_of d))

  -- Lock
  unfoldable pub lock : S → S × Result Failure (Unit {0})
  unfolding call
  lock st = call (text "lock") (some l.no_params) ignore st

  -- Status
  unfoldable pub status : S → S × Result Failure StatusResult
  unfolding call
  status st = call (text "status") (some l.no_params) (unmarshal l.status_result) st

-- A connection to the daemon: one line, and what its turn answers.
unfoldable pub served :
    {I : Type 0} → Codec I → Wire → Link → Env → Server I → Bytes → Server I × Exchange
unfolding turn
served c w l e s b =
    let (s', out, more) = turn c w e s (line b) in
    (s', elim out [ none ↦ closed | some r ↦ l.carry r ])
