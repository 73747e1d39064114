-- ===== src/Daemon/Store/Refines.antt =====
-- The daemon's store does what its callers see.
use keycell.Daemon.Store.Answers.{
  put_vault, put-err, put-ok, put-agrees, remove-err, remove-none, remove-ok, remove-agrees,
  ask_store, ask_delete, sent,
}
use keycell.Atomicfile.{Files}
use keycell.Daemon.Session.{Session, with_identity}
use keycell.Daemon.Session.Invariant.{lock-IsLocked}
use keycell.Daemon.Store.{
  get, store, delete_secret, put, remove, invalid_argument, not_found, find, delete, locked,
}
use keycell.Daemon.Store.Effects.{found, get-eq, get-invalid, put-version, remove-version}
use keycell.Daemon.Store.Replay.{
  Op, get_op, store_op, delete_op, lock_op, View, view_step, view_run, daemon_step, daemon_run,
  good, secret, looked_up, stored, update, deleted, stored_secrets, done,
}
use keycell.Prelude.{
  ℕ, true, false, List, [], ◌∷◌, Option-cases, none, Result-cases, ok, err, ◌≡◌, refl, ap, ◌∙◌, inl,
  inr, Bool-cases,
}
use keycell.Prelude.Bytes.{Bytes}
use keycell.Prelude.Maps.{Map}
use keycell.Vault.File.{Codec, IsFaithful}
use keycell.Vault.Model.{Vault}
use keycell.Vault.Validate.{validate_name, validate_secret}
use keycell.Daemon.Store.Shows.{IsTotal, Shows, held, refused, shut_out, made}

module _ {I : Type 0} (c : Codec I) (law : IsFaithful c) (total : IsTotal c) where
  -- A step's answer, and that the states still correspond.
  abbrev Follows : I → Op → Session I → Files → View → Type 0
  Follows i op s fs a =
      ((daemon_step c s fs op).1 ≡ (view_step a op).1)
      × Shows c i (daemon_step c s fs op).0.0 (daemon_step c s fs op).0.1 (view_step a op).0

  get-Follows :
      (i : I) (s : Session I) (fs : Files) (a : View) (n : Bytes)
      → Shows c i s fs a
      → Follows i (get_op n) s fs a
  unfolding daemon_step view_step looked_up get with_identity find
  get-Follows i s fs a n h = elim (Bool-cases a.is_open) [
    | inr shut ↦ (rw (shut, held c i s fs a false shut h) refl, h)
    | inl opened ↦ elim (Result-cases (validate_name n)) [
      | inr (e, bad) ↦ (
        rw (opened, view_step, looked_up, bad)
            (ap secret (get-invalid c law s (good fs 0) i n (held c i s fs a true opened h) bad)),
        h,
      )
      | inl (u, fine) ↦ (
        rw (opened, view_step, looked_up, fine)
            (ap secret (
              get-eq c law s (good fs 0) i h.vault n (held c i s fs a true opened h) h.is_read fine
              ∙ ap (found n) (h.agrees n))),
        h,
      )
    ]
  ]

  lock-Follows :
      (i : I) (s : Session I) (fs : Files) (a : View) → Shows c i s fs a → Follows i lock_op s fs a
  unfolding daemon_step view_step
  lock-Follows i s fs a h =
      let l = lock-IsLocked s h.consistent in
      (
        refl,
        record {
          consistent = inl l;
          holds = l.no_id;
          vault = h.vault;
          is_read = h.is_read;
          agrees = h.agrees;
        },
      )

  store-Follows :
      (i : I) (s : Session I) (fs : Files) (a : View) (now r : ℕ) (n k : Bytes) (attrs : Map Bytes)
      (x : Bytes)
      → Shows c i s fs a
      → Follows i (store_op now r n k attrs x) s fs a
  unfolding daemon_step view_step stored store
  store-Follows i s fs a now r n k attrs x h = elim (Bool-cases a.is_open) [
    | inr shut ↦
        let (bad, still) = shut_out c i s fs a r (put now n k attrs x) shut h in
        let is : view_step a (store_op now r n k attrs x) ≡ (a, done (err locked)) = simp (shut) in
        rw is (ap done bad, still)
    | inl opened ↦
        let new = sent now k attrs x in
        elim (Result-cases (validate_secret n new)) [
          | inr (e, wrong) ↦
              let (bad, still) =
                refused c i s fs a r (put now n k attrs x) (invalid_argument e) opened h
                  (put-err now n k attrs x h.vault e wrong) in
              let is : view_step a (store_op now r n k attrs x)
                  ≡ (a, done (err (invalid_argument e))) =
                ask_store now r n k attrs x a opened ∙ rw (wrong, stored) refl in
              rw is (ap done bad, still)
          | inl (u, fine) ↦
              let w = put_vault now n k attrs x h.vault in
              let (good_end, after) =
                made c law total i s fs a r (put now n k attrs x) w (stored_secrets now n new a)
                  (put-version now n k attrs x) opened h (put-ok now n k attrs x h.vault fine)
                  (put-agrees now n k attrs x h.vault a h.agrees) in
              let is : view_step a (store_op now r n k attrs x)
                  ≡ (record a { secrets = stored_secrets now n new a }, done (ok tt)) =
                ask_store now r n k attrs x a opened ∙ rw (fine, stored) refl in
              rw is (ap done good_end, after)
        ]
  ]

  delete-Follows :
      (i : I) (s : Session I) (fs : Files) (a : View) (r : ℕ) (n : Bytes)
      → Shows c i s fs a
      → Follows i (delete_op r n) s fs a
  unfolding daemon_step view_step deleted delete_secret
  delete-Follows i s fs a r n h = elim (Bool-cases a.is_open) [
    | inr shut ↦
        let (bad, still) = shut_out c i s fs a r (remove n) shut h in
        let is : view_step a (delete_op r n) ≡ (a, done (err locked)) = simp (shut) in
        rw is (ap done bad, still)
    | inl opened ↦ elim (Result-cases (validate_name n)) [
      | inr (e, wrong) ↦
          let (bad, still) =
            refused c i s fs a r (remove n) (invalid_argument e) opened h
              (remove-err n h.vault e wrong) in
          let is : view_step a (delete_op r n) ≡ (a, done (err (invalid_argument e))) =
            ask_delete r n a opened ∙ rw (wrong, deleted) refl in
          rw is (ap done bad, still)
      | inl (u, fine) ↦ elim (Option-cases (a.secrets n)) [
        | inl gone ↦
            let (bad, still) =
              refused c i s fs a r (remove n) not_found opened h
                (remove-none n h.vault fine (h.agrees n ∙ gone)) in
            let is : view_step a (delete_op r n) ≡ (a, done (err not_found)) =
              ask_delete r n a opened ∙ rw (fine, deleted, gone) refl in
            rw is (ap done bad, still)
        | inr (old, there) ↦
            let w : Vault = record (h.vault) { secrets = delete n h.vault.secrets } in
            let (good_end, after) =
              made c law total i s fs a r (remove n) w (update n none a.secrets) (remove-version n)
                opened h (remove-ok n h.vault old fine (h.agrees n ∙ there))
                (remove-agrees n h.vault a h.agrees) in
            let is : view_step a (delete_op r n)
                ≡ (record a { secrets = update n none a.secrets }, done (ok tt)) =
              ask_delete r n a opened ∙ rw (fine, deleted, there) refl in
            rw is (ap done good_end, after)
      ]
    ]
  ]

  step-Follows :
      (i : I) (op : Op) (s : Session I) (fs : Files) (a : View)
      → Shows c i s fs a
      → Follows i op s fs a
  step-Follows i (get_op n) s fs a h = get-Follows i s fs a n h
  step-Follows i (store_op now r n k attrs x) s fs a h = store-Follows i s fs a now r n k attrs x h
  step-Follows i (delete_op r n) s fs a h = delete-Follows i s fs a r n h
  step-Follows i lock_op s fs a h = lock-Follows i s fs a h

  -- With a codec that reads what it writes and writes every vault, and with system calls that
  -- succeed: from a state that corresponds to a view, the daemon answers every sequence of Get,
  -- Store, Delete and Lock as the view does, which is a lock and a function from names to secrets.
  pub run_refines :
      (i : I) (ops : List Op) (s : Session I) (fs : Files) (a : View)
      → Shows c i s fs a
      → daemon_run c s fs ops ≡ view_run a ops
  unfolding daemon_run view_run
  run_refines i [] s fs a h = refl
  run_refines i (op ∷ ops) s fs a h =
      let (same, after) = step-Follows i op s fs a h in
      cc (same, run_refines i ops _ _ (view_step a op).0 after)
