-- ===== src/Client/Calls/Paired.antt =====
-- A call of the client as the daemon answers it, and what this relies on.
use keycell.Client.{response, answered, accept, round_trip}
use keycell.Client.Calls.{Link, call, served}
use keycell.Daemon.Server as Serving
use keycell.Daemon.Server.{Server, Env, line, disk, run, respond, dispatch, turn, to_error, to_info}
use keycell.Prelude.{◌≡◌, refl, ap, ◌∙◌, true, false, [], All, Option, none, some, Result, ok, err}
use keycell.Prelude.Bytes.{Bytes, text, equal, equal_refl}
use keycell.Prelude.Maps.{Map}
use keycell.Prelude.Utf8.{valid_string}
use keycell.Protocol.{
  Wire, Request, Response, Method, GetResult, StoreParams, Answer, secret, empty, method_of,
  new_result, new_error, read_request,
}
use keycell.Vault.File.{Codec}

-- Strings that JSON carries.
abbrev pub IsText : Bytes → Type 0
IsText s = valid_string s ≡ true

abbrev pub AreTexts : Map Bytes → Type 0
AreTexts m = All (λ (e : Bytes × Bytes). IsText e.0 × IsText e.1) m

-- Params that Bind decodes.
abbrev pub IsGiven : Bytes → Type 0
IsGiven p = (equal p [] ≡ false) × (equal p (text "null") ≡ false)

-- What the two sides rely on: encoding/json reads back what it wrote, for strings that are UTF-8,
-- and a response arrives as it was sent. `IsJson` are the raw messages that it writes unchanged.
pub record IsPaired (w : Wire) (l : Link) : Type 1 where
  pub IsJson : Bytes → Type 0
  pub requests :
      (r : Request)
      → IsJson r.id
      → IsJson r.params
      → IsText r.method
      → (b : Bytes) × (l.request r ≡ some b) × (w.request b ≡ some r)
  pub names :
      (n : Bytes)
      → IsText n
      → (p : Bytes) × IsJson p × IsGiven p × (l.name n ≡ some p) × (w.name p ≡ some n)
  pub stores :
      (s : StoreParams)
      → IsText s.name
      → IsText s.kind
      → AreTexts s.attributes
      → (p : Bytes) × IsJson p
        × IsGiven p
        × (l.store_params s ≡ some p)
        × (w.store_params p ≡ some s)
  pub gets :
      (g : GetResult)
      → IsText g.info.name
      → IsText g.info.kind
      → AreTexts g.info.attributes
      → (raw : Bytes) × (w.answer (secret g) ≡ some raw) × (l.get_result raw ≡ some g)
  pub empties : (raw : Bytes) × (w.answer empty ≡ some raw)
  pub carries : (r : Response) → IsJson r.id → l.carry r ≡ response r

module _ {I : Type 0} (c : Codec I) (w : Wire) (l : Link) (pair : IsPaired w l) where
  abbrev pub IsId : Bytes → Type 0
  IsId id = pair.IsJson id × IsGiven id

  module _ (e : Env) (s : Server I) (id : Bytes) (is_id : IsId id) where
    -- A request that the client writes is the one that the daemon dispatches.
    read_fine :
        (method p b : Bytes) (m : Method)
        → method_of method ≡ some m
        → w.request b ≡ some (record { id = id; method = method; params = p })
        → read_request w b ≡ ok (record { id = id; method = method; params = p })
    unfolding read_request
    read_fine method p b m known got = rw (got, read_request, is_id.1.0, is_id.1.1, known) refl

    turn_fine :
        (method p b : Bytes) (m : Method) (s' : Server I) (r : Response)
        → method_of method ≡ some m
        → w.request b ≡ some (record { id = id; method = method; params = p })
        → dispatch c w e s (record { id = id; method = method; params = p }) ≡ (s', r)
        → turn c w e s (line b) ≡ (s', some r, e.sends)
    unfolding turn
    turn_fine method p b m s' r known got is =
        rw (read_fine method p b m known got, turn)
          (ap (λ (q : Server I × Response). (q.0, some q.1, e.sends)) is)

    request_served :
        (method p b : Bytes) (m : Method) (s' : Server I) (r : Response)
        → method_of method ≡ some m
        → w.request b ≡ some (record { id = id; method = method; params = p })
        → dispatch c w e s (record { id = id; method = method; params = p }) ≡ (s', r)
        → served c w l e s b ≡ (s', l.carry r)
    unfolding served
    request_served method p b m s' r known got is =
        rw (turn_fine method p b m s' r known got is) refl

    dispatch_runs :
        (method p : Bytes) (m : Method) (s' : Server I) (r : Result Serving.Failure Answer)
        → method_of method ≡ some m
        → run c w e s m p ≡ (s', r)
        → dispatch c w e s (record { id = id; method = method; params = p })
          ≡ (s', respond c w id r)
    unfolding dispatch keycell.Daemon.Server.call
    dispatch_runs method p m s' r known ran = rw (known, keycell.Daemon.Server.call, ran) refl

    -- A call of a method, as the client sees it.
    call-served :
        {A : Type 0} (method p : Bytes) (m : Method) (decode : Option Bytes → Option A)
        (s' : Server I) (r : Result Serving.Failure Answer)
        → IsText method
        → method_of method ≡ some m
        → pair.IsJson p
        → run c w e s m p ≡ (s', r)
        → pair.IsJson (respond c w id r).id
        → call l (served c w l e) id method (some p) decode s
          ≡ (s', accept id decode (respond c w id r))
    unfolding call round_trip
    call-served method p m decode s' r is_text known is_json ran raw_id =
        let (b, put, got) =
          pair.requests (record { id = id; method = method; params = p }) is_id.0 is_json is_text in
        let is =
          request_served method p b m s' (respond c w id r) known got
            (dispatch_runs method p m s' r known ran) in
        rw (put, call, is, pair.carries (respond c w id r) raw_id) refl

    respond-ok :
        (a : Answer) (raw : Bytes)
        → w.answer a ≡ some raw
        → respond c w id (ok a) ≡ record { id = id; result = some raw; error = none }
    unfolding respond new_result
    respond-ok a raw wrote = rw (wrote, respond, new_result) refl

    respond-err :
        (x : Serving.Failure)
        → respond c w id (err x) ≡ record { id = id; result = none; error = some (to_error x) }
    unfolding respond new_error
    respond-err x = rw (is_id.1.0) refl

    accept-plain :
        {A : Type 0} (raw : Bytes) (decode : Option Bytes → Option A) (v : A)
        → decode (some raw) ≡ some v
        → accept id decode (record { id = id; result = some raw; error = none }) ≡ ok v
    unfolding accept
    accept-plain raw decode v read = rw (equal_refl id, accept, read) refl

    -- A success, and an error, of the daemon.
    pub call-ok :
        {A : Type 0} (method p : Bytes) (m : Method) (decode : Option Bytes → Option A)
        (s' : Server I) (a : Answer) (raw : Bytes) (v : A)
        → IsText method
        → method_of method ≡ some m
        → pair.IsJson p
        → run c w e s m p ≡ (s', ok a)
        → w.answer a ≡ some raw
        → decode (some raw) ≡ some v
        → call l (served c w l e) id method (some p) decode s ≡ (s', ok v)
    unfolding accept
    call-ok method p m decode s' a raw v is_text known is_json ran wrote read =
        let is = respond-ok a raw wrote in
        call-served method p m decode s' (ok a) is_text known is_json ran (rw is is_id.0)
        ∙ ap (λ r. (s', accept id decode r)) is
        ∙ ap (λ x. (s', x)) (accept-plain raw decode v read)

    pub call-err :
        {A : Type 0} (method p : Bytes) (m : Method) (decode : Option Bytes → Option A)
        (s' : Server I) (x : Serving.Failure)
        → IsText method
        → method_of method ≡ some m
        → pair.IsJson p
        → run c w e s m p ≡ (s', err x)
        → call l (served c w l e) id method (some p) decode s ≡ (s', err (answered (to_error x)))
    unfolding accept
    call-err method p m decode s' x is_text known is_json ran =
        let is = respond-err x in
        call-served method p m decode s' (err x) is_text known is_json ran (rw is is_id.0)
        ∙ ap (λ r. (s', accept id decode r)) is
