-- ===== src/Unlock/Sends.antt =====
-- What the command unlock sends to the daemon.
use keycell.Client
use keycell.Identity.Forms.{
  Form, encrypted, unprotected, absent, Dir, Scrypt, content_of, detect, load_file, load,
  plain_file, encrypted_file,
}
use keycell.Passphrases.{client, is_wrong, turn, ask, retries}
use keycell.Prelude.{
  ◌≡◌, ◌⊎◌, refl, ◌∙◌, ℕ, zero, suc, ◌+◌, Bool, true, false, Bool-cases, List, [], ◌∷◌, Option,
  Result, Result-cases, ok, err, inl, inr, map_err,
}
use keycell.Prelude.Bytes.{Bytes}
use keycell.Terminal
use keycell.Unlock.{
  Daemon, Desk, daemon_status, send, send_plain, try_unlock, next_entry, by_form, when_locked,
  asked, reached, unlock,
}
use keycell.Vault.File.{Codec}

-- An error of the daemon is no wrong passphrase.
is_wrong-client : (r : Result Client.Failure (Unit {0})) → is_wrong (map_err client r) ≡ false
unfolding is_wrong
is_wrong-client (ok u) = refl
is_wrong-client (err e) = refl

module _ {S : Type 0} (d : Daemon S) {I : Type 0} (c : Codec I) (k : Scrypt) (reads : Bool)
    (dir : Dir) (dur : Option ℕ) where
  -- The one call that changes the daemon: Unlock with a key that Load gives.
  pub record Sent (st st' : S) : Type 0 where
    pub pass : Bytes
    pub key : Bytes
    pub is_key : load c k reads dir pass ≡ ok key
    pub is_sent : st' ≡ (d.unlock st key dur).0

  abbrev IsFine : S → S → Type 0
  IsFine st st' = (st' ≡ st) ⊎ Sent st st'

  moved : (a b z : S) → a ≡ b → IsFine a z → IsFine b z
  moved a b z q h = rw (← q) h

  module _ (form : Form) (found : detect dir ≡ ok form) where
    load-plain :
        form ≡ unprotected
        → (pass : Bytes)
        → load c k reads dir pass ≡ load_file c k plain_file (content_of reads dir.txt.file) pass
    unfolding load
    load-plain e pass = rw (found, load, e) refl

    load-encrypted :
        form ≡ encrypted
        → (pass : Bytes)
        → load c k reads dir pass
          ≡ load_file c k encrypted_file (content_of reads dir.age.file) pass
    unfolding load
    load-encrypted e pass = rw (found, load, e) refl

    -- One attempt sends a key that was loaded, or leaves the daemon; it leaves it when the
    -- passphrase is wrong.
    try_unlock-IsFine :
        form ≡ encrypted
        → (t : Desk d) (pass : Bytes)
        → IsFine t.0 (try_unlock d c k reads dir dur t pass).0.0
          × (is_wrong (try_unlock d c k reads dir dur t pass).1 ≡ true
              → (try_unlock d c k reads dir dur t pass).0.0 ≡ t.0)
    unfolding try_unlock send is_wrong
    try_unlock-IsFine e t pass =
        elim (Result-cases (load_file c k encrypted_file (content_of reads dir.age.file) pass)) [
          | inr (x, bad) ↦ rw (bad, try_unlock) (inl refl, λ q. refl)
          | inl (key, got) ↦
              rw (got, try_unlock)
                (
                  inr (record {
                    pass = pass;
                    key = key;
                    is_key = load-encrypted e pass ∙ got;
                    is_sent = refl;
                  }),
                  λ q. absurd (cc (q, is_wrong-client (d.unlock t.0 key dur).1)),
                )
        ]

    module _ (entries : ℕ → Result Terminal.Error Bytes) where
      turn-IsFine :
          form ≡ encrypted
          → (t : Desk d)
          → IsFine t.0
              (turn (next_entry d c k reads dir dur entries) (try_unlock d c k reads dir dur) t).0.0
            × (is_wrong
                    (turn
                      (next_entry d c k reads dir dur entries)
                      (try_unlock d c k reads dir dur)
                      t).1
                  ≡ true
                → (turn
                    (next_entry d c k reads dir dur entries)
                    (try_unlock d c k reads dir dur)
                    t).0.0
                  ≡ t.0)
      unfolding turn next_entry is_wrong
      turn-IsFine e t = elim (Result-cases (entries t.1)) [
        | inr (x, bad) ↦ rw (bad, turn) (inl refl, λ q. refl)
        | inl (p, got) ↦ rw (got, turn) (try_unlock-IsFine e (t.0, t.1 + 1) p)
      ]

      ask-IsFine :
          form ≡ encrypted
          → (n : ℕ) (t : Desk d)
          → IsFine t.0
              (ask
                (next_entry d c k reads dir dur entries)
                (try_unlock d c k reads dir dur)
                n
                t).0.0
      unfolding ask
      ask-IsFine e zero t = (turn-IsFine e t).0
      ask-IsFine e (suc n) t =
          let one =
            turn (next_entry d c k reads dir dur entries) (try_unlock d c k reads dir dur) t in
          elim (Bool-cases (is_wrong one.1)) [
            | inr other ↦ rw (other, ask) (turn-IsFine e t).0
            | inl wrong ↦
                rw (wrong, ask)
                  (moved one.0.0 t.0 _ ((turn-IsFine e t).1 wrong) (ask-IsFine e n one.0))
          ]

      by_form-IsFine :
          (f : Form)
          → form ≡ f
          → (t : Desk d) → IsFine t.0 (by_form d c k reads dir dur entries f t).0.0
      unfolding by_form send_plain send
      by_form-IsFine absent e t = inl refl
      by_form-IsFine encrypted e t = ask-IsFine e retries t
      by_form-IsFine unprotected e t =
          elim (Result-cases (load_file c k plain_file (content_of reads dir.txt.file) [])) [
            | inr (x, bad) ↦ rw (bad, send_plain) (inl refl)
            | inl (key, got) ↦
                rw (got, send_plain)
                  (inr (record {
                    pass = [];
                    key = key;
                    is_key = load-plain e [] ∙ got;
                    is_sent = refl;
                  }))
          ]

      asked-IsFine :
          (f : Form)
          → form ≡ f
          → (t : Desk d) → IsFine t.0 (asked d c k reads dir dur entries f t).0.0
      unfolding asked when_locked
      asked-IsFine f e t = elim (Result-cases (daemon_status d t.0)) [
        | inr (x, bad) ↦ rw (bad, asked) (inl refl)
        | inl (s, up) ↦ elim (Bool-cases s.locked) [
          | inr is_open ↦ rw (up, asked, is_open) (inl refl)
          | inl shut ↦ rw (up, asked, shut) (by_form-IsFine f e t)
        ]
      ]

      reached-IsFine :
          (f : Form)
          → form ≡ f
          → (t : Desk d) → IsFine t.0 (reached d c k reads dir dur entries f t).0.0
      unfolding reached
      reached-IsFine absent e t = inl refl
      reached-IsFine encrypted e t = asked-IsFine encrypted e t
      reached-IsFine unprotected e t = asked-IsFine unprotected e t

  -- The command unlock leaves the daemon as it was, or sends it one Unlock, with a key that Load
  -- reads from the directory with a passphrase: no wrong passphrase reaches the daemon.
  pub unlock-Sent :
      (entries : ℕ → Result Terminal.Error Bytes) (args : List Bytes) (bad_duration : Bool)
      (t : Desk d)
      → ((unlock d c k reads dir dur entries args bad_duration t).0.0 ≡ t.0)
        ⊎ Sent t.0 (unlock d c k reads dir dur entries args bad_duration t).0.0
  unfolding unlock
  unlock-Sent entries (a ∷ args) bad_duration t = inl refl
  unlock-Sent entries [] true t = inl refl
  unlock-Sent entries [] false t = elim (Result-cases (detect dir)) [
    | inr (x, bad) ↦ rw (bad, unlock) (inl refl)
    | inl (form, found) ↦ rw (found, unlock) (reached-IsFine form found entries form refl t)
  ]
