-- ===== src/Daemon/Server/Replies.antt =====
-- The responses, and the state that requests leave.
use keycell.Daemon.Server.{
  Server, Env, Failure, protocol, store, to_error, disk, call_unlock, run, call, dispatch, turn,
  handle, Incoming, line, too_long, closed, respond, lock_after, verify_identity, everything,
}
use keycell.Daemon.Session.{lock, unlock}
use keycell.Daemon.Session.Invariant.{IsConsistent, IsLocked, lock-IsLocked}
use keycell.Daemon.Session.Installing.{unlock-IsConsistent}
use keycell.Daemon.Store
use keycell.Daemon.Store.Valid.{locked_refuses}
use keycell.Prelude.{
  ◌≡◌, ◌≢◌, ◌⊎◌, inl, inr, refl, arith, Option, none, some, Result, ok, err, Result-cases,
  Option-cases, List, [], ◌∷◌, Bool-cases,
}
use keycell.Prelude.Bytes.{Bytes, equal_iff}
use keycell.Protocol
use keycell.Protocol.{
  Request, Response, Wire, Answer, Method, method_of, bind, new_result, new_error, read_request,
  UnlockParams,
}
use keycell.Vault.File.{Codec}

-- A response with a result or an error, and not both.
abbrev pub HasOne : Response → Type 0
HasOne r =
    ((b : Bytes) × (r.result ≡ some b) × (r.error ≡ none))
    ⊎ ((e : Protocol.Error) × (r.result ≡ none) × (r.error ≡ some e))

abbrev everything_params : Protocol.ListParams
everything_params = record { kind = []; prefix = []; attributes = [] }

abbrev as_filter : Protocol.ListParams → Store.Filter
as_filter p = record { kind = p.kind; prefix = p.prefix; attributes = p.attributes }

module _ {I : Type 0} (c : Codec I) (w : Wire) where
  call_unlock-IsConsistent :
      (e : Env) (s : Server I) (p : UnlockParams)
      → IsConsistent s.session
      → IsConsistent (call_unlock c w e s p).0.session
  unfolding call_unlock
  call_unlock-IsConsistent e s p h =
      let after = lock_after p.for_seconds in
      let opened = (unlock c e.calls e.now s.session p.identity after).0 in
      let fine = unlock-IsConsistent c e.calls e.now s.session p.identity after h in
      elim (Result-cases (unlock c e.calls e.now s.session p.identity after).1) [
        | inr (y, refused) ↦
            let there : (call_unlock c w e s p).0.session ≡ opened = ground arith in rw there fine
        | inl (u, good) ↦
            elim (Result-cases (verify_identity c w e (record s { session = opened }))) [
              | inl (xs, read) ↦
                  let there : (call_unlock c w e s p).0.session ≡ opened = ground arith in
                  rw there fine
              | inr (y, wrong) ↦
                  let there : (call_unlock c w e s p).0.session ≡ lock opened = ground arith in
                  rw there (inl (lock-IsLocked opened fine))
            ]
      ]

  -- Every method keeps the shape of the session.
  run-IsConsistent :
      (e : Env) (s : Server I) (m : Method) (params : Bytes)
      → IsConsistent s.session
      → IsConsistent (run c w e s m params).0.session
  unfolding run
  run-IsConsistent e s Method.status params h = h
  run-IsConsistent e s Method.get params h = h
  run-IsConsistent e s Method.list params h = h
  run-IsConsistent e s Method.lock params h = inl (lock-IsLocked s.session h)
  run-IsConsistent e s Method.unlock params h =
      elim (Result-cases
        (bind w.unlock_params (record { identity = []; for_seconds = none }) params)) [
          | inl (p, fine) ↦ rw fine (call_unlock-IsConsistent e s p h)
          | inr (x, bad) ↦ rw bad h
        ]
  run-IsConsistent e s Method.store params h =
      elim (Result-cases (
        bind w.store_params (record { name = []; kind = []; attributes = []; value = [] })
          params)) [ inl (p, fine) ↦ rw fine h | inr (x, bad) ↦ rw bad h ]
  run-IsConsistent e s Method.delete params h = elim (Result-cases (bind w.name [] params)) [
    | inl (p, fine) ↦ rw fine h
    | inr (x, bad) ↦ rw bad h
  ]

  pub call-IsConsistent :
      (e : Env) (s : Server I) (req : Request)
      → IsConsistent s.session
      → IsConsistent (call c w e s req).0.session
  unfolding call
  call-IsConsistent e s req h = elim (Option-cases (method_of req.method)) [
    | inl other ↦ rw (other, call) h
    | inr (m, known) ↦ rw (known, call) (run-IsConsistent e s m req.params h)
  ]

  turn-IsConsistent :
      (e : Env) (s : Server I) (i : Incoming)
      → IsConsistent s.session
      → IsConsistent (turn c w e s i).0.session
  unfolding turn
  turn-IsConsistent e s (line b) h = elim (Result-cases (read_request w b)) [
    | inr (m, bad) ↦ rw (bad, turn) h
    | inl (req, fine) ↦ rw (fine, turn) (call-IsConsistent e s req h)
  ]
  turn-IsConsistent e s too_long h = h
  turn-IsConsistent e s closed h = h

  -- A connection, whatever it sends, leaves a consistent session consistent: locked with nothing
  -- mapped, or holding one identity in the one mapped region.
  pub handle-IsConsistent :
      (s : Server I) (is : List (Env × Incoming))
      → IsConsistent s.session
      → IsConsistent (handle c w s is).0.session
  unfolding handle
  handle-IsConsistent s [] h = h
  handle-IsConsistent s ((e, i) ∷ rest) h =
      let ih = handle-IsConsistent (turn c w e s i).0 rest (turn-IsConsistent e s i h) in
      elim (Bool-cases (turn c w e s i).2) [
        | inl more ↦ rw more ih
        | inr last ↦ rw last (turn-IsConsistent e s i h)
      ]

  respond-HasOne :
      (id : Bytes) (r : Result Failure Answer)
      → id ≢ []
      → ((respond c w id r).id ≡ id) × HasOne (respond c w id r)
  unfolding respond new_error new_result
  respond-HasOne id (err x) h = (ground (arith, equal_iff id []), inr (to_error x, refl, refl))
  respond-HasOne id (ok a) h = elim (Option-cases (w.answer a)) [
    | inl lost ↦
        rw (lost, respond)
          (
            ground (arith, equal_iff id []),
            inr (
              record { code = Protocol.internal; message = Protocol.internal_error },
              refl,
              refl,
            ),
          )
    | inr (raw, there) ↦ rw (there, respond) (refl, inl (raw, refl, refl))
  ]

  -- The response to a request carries its id, and either a result or an error and not both.
  dispatch-HasOne :
      (e : Env) (s : Server I) (req : Request)
      → req.id ≢ []
      → ((dispatch c w e s req).1.id ≡ req.id) × HasOne (dispatch c w e s req).1
  unfolding dispatch
  dispatch-HasOne e s req h = respond-HasOne req.id (call c w e s req).1 h

  -- The error of a request whose params do not decode.
  abbrev pub bad_params : Failure
  bad_params = protocol (record { code = Protocol.invalid_argument; message = Protocol.bad_params })

  bind-err :
      {A : Type 0} (f : Bytes → Option A) (z : A) (params : Bytes) (x : Protocol.Error)
      → bind f z params ≡ err x
      → protocol x ≡ bad_params
  unfolding bind
  bind-err f z params x h = ground arith

  abbrev pub Refuses : Server I → Server I × Result Failure Answer → Type 0
  Refuses s r =
      (r.0 ≡ s)
      × ((x : Failure) × (r.1 ≡ err x)
          × (((to_error x).code ≡ Protocol.Code.locked) ⊎ (x ≡ bad_params)))

  -- A locked daemon answers get, list, store and delete with LOCKED, or with INVALID_ARGUMENT when
  -- the params do not decode, and changes nothing.
  run_locked :
      (e : Env) (s : Server I) (m : Method) (params : Bytes)
      → IsLocked s.session
      → (m ≡ Method.get) ⊎ (m ≡ Method.list) ⊎ (m ≡ Method.store) ⊎ (m ≡ Method.delete)
      → Refuses s (run c w e s m params)
  unfolding run to_error
  run_locked e s Method.get params h pick = elim (Result-cases (bind w.name [] params)) [
    | inl (n, fine) ↦
        rw (fine, (locked_refuses c s.session (disk c w e s) 0 n [] [] [] everything h).0)
          (refl, (store Store.locked, refl, inl refl))
    | inr (x, bad) ↦ rw bad (refl, (protocol x, refl, inr (bind-err w.name [] params x bad)))
  ]
  run_locked e s Method.list params h pick =
      elim (Result-cases (bind w.list_params everything_params params)) [
        | inl (p, fine) ↦
            rw (fine, (locked_refuses c s.session (disk c w e s) 0 [] [] [] [] (as_filter p) h).1)
              (refl, (store Store.locked, refl, inl refl))
        | inr (x, bad) ↦
            rw bad (refl, (protocol x, refl, inr (bind-err w.list_params _ params x bad)))
      ]
  run_locked e s Method.store params h pick =
      elim (Result-cases (
        bind w.store_params (record { name = []; kind = []; attributes = []; value = [] })
          params)) [
            | inl (p, fine) ↦
                rw
                  (
                    fine,
                    (locked_refuses c s.session (disk c w e s) e.now p.name p.kind p.attributes
                        p.value everything h).2,
                  )
                  (refl, (store Store.locked, refl, inl refl))
            | inr (x, bad) ↦
                rw bad (refl, (protocol x, refl, inr (bind-err w.store_params _ params x bad)))
          ]
  run_locked e s Method.delete params h pick = elim (Result-cases (bind w.name [] params)) [
    | inl (n, fine) ↦
        rw (fine, (locked_refuses c s.session (disk c w e s) 0 n [] [] [] everything h).3)
          (refl, (store Store.locked, refl, inl refl))
    | inr (x, bad) ↦ rw bad (refl, (protocol x, refl, inr (bind-err w.name [] params x bad)))
  ]
  run_locked e s Method.unlock params h pick = absurd (ground arith)
  run_locked e s Method.lock params h pick = absurd (ground arith)
  run_locked e s Method.status params h pick = absurd (ground arith)
