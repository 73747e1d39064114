-- ===== src/Client.antt =====
-- pkg/keycell: the client. What a round trip makes of the daemon's answer, the sentinels that an
-- error unwraps to, and the client's operations as an interface, which the commands take.
pub mod Exit
pub mod Answers
pub mod Calls
use keycell.Daemon.Store.{Filter}
use keycell.Prelude.{
  ℕ, ◌/◌, Bool, true, false, not, List, [], ◌∷◌, Option, none, some, Result, ok, err, if◌then◌else◌,
}
use keycell.Prelude.Bytes.{Bytes, equal}
use keycell.Prelude.Int.{ℤ, pos}
use keycell.Prelude.Maps.{Map}
use keycell.Protocol
use keycell.Protocol.{Code, Response}

-- A secret; a listing leaves `value` empty.
pub record Secret : Type 0 where
  pub name : Bytes
  pub kind : Bytes
  pub attributes : Map Bytes
  pub value : Bytes
  pub created : ℕ
  pub updated : ℕ

pub data Sentinel : Type 0 where
  not_running locked not_found invalid_argument protocol internal : Sentinel

-- Error.Unwrap
unfoldable pub unwrap : Code → Sentinel
unwrap Code.locked = locked
unwrap Code.not_found = not_found
unwrap Code.invalid_argument = invalid_argument
unwrap Code.internal = internal
unwrap Code.protocol = protocol
unwrap (Code.unknown c) = protocol

-- What dialling, writing and reading the one response can give.
pub data Exchange : Type 0 where
  response : Response → Exchange
  no_socket dial_failed : Exchange
  context_done deadline closed garbage : Exchange

-- The errors of a call.
pub data Failure : Type 0 where
  answered : Protocol.Error → Failure
  not_running_at_socket dial : Failure
  cancelled deadline_exceeded : Failure
  broken : Failure
  bad_params : Failure

-- errors.Is against the sentinels.
unfoldable pub sentinel : Failure → Option Sentinel
unfolding unwrap
sentinel (answered e) = some (unwrap e.code)
sentinel not_running_at_socket = some not_running
sentinel dial = none
sentinel cancelled = none
sentinel deadline_exceeded = none
sentinel broken = some protocol
sentinel bad_params = some invalid_argument

-- The cases of `roundTrip` once a response is there; `decode` is json.Unmarshal into the result,
-- which fails on a missing one, or ignores it where the method returns nothing.
accept : {A : Type 0} → Bytes → (Option Bytes → Option A) → Response → Result Failure A
accept id decode r = elim r.error [
  | some e ↦ err (answered e)
  | none ↦
      if not (equal r.id id)
      then err broken
      else elim (decode r.result) [ none ↦ err broken | some a ↦ ok a ]
]

-- roundTrip: `marshalled` says whether the params were marshalled.
unfoldable pub round_trip :
    {A : Type 0} → Bool → Bytes → (Option Bytes → Option A) → Exchange → Result Failure A
unfolding accept
round_trip false id decode x = err bad_params
round_trip true id decode (response r) = accept id decode r
round_trip true id decode no_socket = err not_running_at_socket
round_trip true id decode dial_failed = err dial
round_trip true id decode context_done = err cancelled
round_trip true id decode deadline = err deadline_exceeded
round_trip true id decode closed = err broken
round_trip true id decode garbage = err broken

-- `int64(d / time.Second)` of UnlockFor, for a duration that is not negative
unfoldable pub seconds_of : ℕ → ℤ
seconds_of d = pos (d / 1_000_000_000)

-- The operations that the commands call, on a state `S` of the daemon.
pub record Api (S : Type 0) : Type 0 where
  pub connect : S → Result Failure (Unit {0})
  pub list : S → Filter → Result Failure (List Secret)
  pub get : S → Bytes → Result Failure Secret
  pub store : S → Secret → S × Result Failure (Unit {0})
  pub delete : S → Bytes → S × Result Failure (Unit {0})
