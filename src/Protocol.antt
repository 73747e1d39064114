-- ===== src/Protocol.antt =====
-- internal/protocol/protocol.go: requests, responses and error codes, one JSON object a line.
-- `encoding/json` on the types of the package is a parameter, `Wire`: each decoder gives `none`
-- for an unknown field or a type mismatch.
pub mod Reader
use keycell.Prelude.{ℕ, Bool, ◌||◌, [], List, Option, none, some, Result, ok, err, if◌then◌else◌}
use keycell.Prelude.Bytes.{Bytes, text, equal}
use keycell.Prelude.Int.{ℤ, pos}
use keycell.Prelude.Maps.{Map}
use keycell.Vault.Validate.{Invalid}

pub data Method : Type 0 where
  get store delete list unlock lock status : Method

-- The names of `methods`, and the cases of the daemon's switch.
unfoldable pub method_of : Bytes → Option Method
method_of m =
    if equal m (text "get")
    then some get
    else if equal m (text "store")
    then some store
    else if equal m (text "delete")
    then some delete
    else if equal m (text "list")
    then some list
    else if equal m (text "unlock")
    then some unlock
    else if equal m (text "lock")
    then some lock
    else if equal m (text "status")
    then some status
    else none

-- The codes, and a code that this program does not know.
pub data Code : Type 0 where
  protocol invalid_argument not_found locked internal : Code
  unknown : Bytes → Code

-- The messages that the code formats.
pub data Message : Type 0 where
  daemon_locked secret_not_found bad_identity wrong_identity vault_not_found internal_error :
      Message
  bad_params invalid_json missing_id line_too_long : Message
  invalid : Invalid → Message
  unknown_method : Bytes → Message
  other : Bytes → Message

pub record Error : Type 0 where
  pub code : Code
  pub message : Message

-- `params` is empty when the field is missing.
pub record Request : Type 0 where
  pub id : Bytes
  pub method : Bytes
  pub params : Bytes

pub record Response : Type 0 where
  pub id : Bytes
  pub result : Option Bytes
  pub error : Option Error

pub record SecretInfo : Type 0 where
  pub name : Bytes
  pub kind : Bytes
  pub attributes : Map Bytes
  pub created : ℕ
  pub updated : ℕ

pub record GetResult : Type 0 where
  pub info : SecretInfo
  pub value : Bytes

pub record ListParams : Type 0 where
  pub kind : Bytes
  pub prefix : Bytes
  pub attributes : Map Bytes

pub record StoreParams : Type 0 where
  pub name : Bytes
  pub kind : Bytes
  pub attributes : Map Bytes
  pub value : Bytes

pub record UnlockParams : Type 0 where
  pub identity : Bytes
  pub for_seconds : Option ℤ

pub record StatusResult : Type 0 where
  pub version : ℤ
  pub is_locked : Bool
  pub locks_at : Option ℕ

-- `Version`
abbrev pub protocol_version : ℤ
protocol_version = pos 1

-- What a method returns.
pub data Answer : Type 0 where
  state : StatusResult → Answer
  secret : GetResult → Answer
  listing : List SecretInfo → Answer
  empty : Answer

pub record Wire : Type 0 where
  pub request : Bytes → Option Request
  pub name : Bytes → Option Bytes
  pub list_params : Bytes → Option ListParams
  pub store_params : Bytes → Option StoreParams
  pub unlock_params : Bytes → Option UnlockParams
  pub answer : Answer → Option Bytes

-- Bind: missing or null params leave the zero value `zero_params`.
unfoldable pub bind : {A : Type 0} → (Bytes → Option A) → A → Bytes → Result Error A
bind decode zero_params params =
    if equal params [] || equal params (text "null") then ok zero_params else elim (decode params) [
      | none ↦ err (record { code = invalid_argument; message = bad_params })
      | some p ↦ ok p
    ]

-- NewResult
unfoldable pub new_result : Wire → Bytes → Answer → Option Response
new_result w id a = elim (w.answer a) [
  | none ↦ none
  | some raw ↦ some (record { id = id; result = some raw; error = none })
]

-- NewError: a nil id, which is empty here, is sent as null.
unfoldable pub new_error : Bytes → Error → Response
new_error id e = record {
  id = if equal id [] then text "null" else id;
  result = none;
  error = some e;
}

-- The error of ReadRequest, with the id when it was parsed.
pub record Malformed : Type 0 where
  pub id : Option Bytes
  pub error : Error

abbrev refuse : Option Bytes → Message → Result Malformed Request
refuse id m = err (record { id = id; error = record { code = protocol; message = m } })

-- ReadRequest, on a line that the reader has framed.
unfoldable pub read_request : Wire → Bytes → Result Malformed Request
unfolding method_of
read_request w line = elim (w.request line) [
  | none ↦ refuse none invalid_json
  | some req ↦
      if equal req.id [] || equal req.id (text "null")
      then refuse none missing_id
      else elim (method_of req.method) [
        | none ↦ refuse (some req.id) (unknown_method req.method)
        | some m ↦ ok req
      ]
]
