-- ===== src/Passphrases/Changing.antt =====
-- What the command `passphrase` leaves when it succeeds.
use keycell.Identity.Forms.{
  Form, encrypted, unprotected, absent, detect, Scrypt, Dir, Failure, load,
}
use keycell.Identity.Setup.{Env, change_passphrase}
use keycell.Identity.Setup.Loads.{IsAge, SameKey}
use keycell.Identity.Setup.Changes.{changes-SameKey}
use keycell.Passphrases.{
  Problem, setup, is_wrong, Desk, retries, ask_once, ask_new, ask, on_dir, after_new, change_with,
  try_change, change, try_remove, set_new, set_with, by_form, passphrase,
}
use keycell.Prelude.{
  ◌≡◌, refl, ap, ◌∙◌, arith, ℕ, Bool, true, false, List, [], ◌∷◌, Option, none, some, Result,
  Result-cases, ok, err, inl, inr, map_err-eq-ok,
}
use keycell.Prelude.Bytes.{Bytes}
use keycell.Terminal
use keycell.Vault.File.{Codec}
use keycell.Passphrases.Retries.{ask-Success, change_wrong, remove_wrong}

module _ {I : Type 0} (c : Codec I) (k : Scrypt) where
  -- One identity, before and after.
  pub record Changed (before after : Dir) : Type 0 where
    pub reads : Bool
    pub old : Bytes
    pub new : Bytes
    pub same : SameKey c k (load c k reads before old) (load c k true after new)

  moved : (a b z : Dir) → a ≡ b → Changed a z → Changed b z
  moved a b z q h = rw (← q) h

  module _ (law : IsAge c k) (entries : ℕ → Result Terminal.Error Bytes) (e : ℕ → Env) where
    on_dir-ok :
        (t : Desk) (r : Dir × Result Failure (Unit {0}))
        → (on_dir entries c k e t r).1 ≡ ok tt
        → (r.1 ≡ ok tt) × ((on_dir entries c k e t r).0.dir ≡ r.0)
    unfolding on_dir
    on_dir-ok t (d, r) h = (map_err-eq-ok setup r h, refl)

    changed :
        (i : ℕ) (t : Desk) (before : Dir) (old new : Bytes)
        → (on_dir entries c k e t (change_passphrase c k (e i) before old new)).1 ≡ ok tt
        → Changed before (on_dir entries c k e t (change_passphrase c k (e i) before old new)).0.dir
    changed i t before old new h =
        let (fine, is) = on_dir-ok t _ h in
        record {
          reads = (e i).reads;
          old = old;
          new = new;
          same = rw is ((changes-SameKey c k law (e i) before old new).0 fine);
        }

    after_new-Changed :
        (old : Bytes) (x : Desk × Result Terminal.Error Bytes)
        → (after_new entries c k e old x).1 ≡ ok tt
        → Changed x.0.dir (after_new entries c k e old x).0.dir
    unfolding after_new
    after_new-Changed old (t, err x) h = absurd (cc)
    after_new-Changed old (t, ok new) h =
        changed t.asked (record t { new_pass = some new }) t.dir old new h

    ask_new-dir : (t : Desk) → (ask_new entries t).0.dir ≡ t.dir
    unfolding ask_new
    ask_new-dir t = ground arith

    change_with-Changed :
        (t : Desk) (old : Bytes) (o : Option Bytes)
        → (change_with entries c k e t old o).1 ≡ ok tt
        → Changed t.dir (change_with entries c k e t old o).0.dir
    unfolding change_with
    change_with-Changed t old (some new) h = changed t.asked t t.dir old new h
    change_with-Changed t old none h =
        moved _ t.dir _ (ask_new-dir t) (after_new-Changed old (ask_new entries t) h)

    -- A success of a function that keeps the directory on a wrong passphrase.
    ask-Changed :
        (fn : Desk → Bytes → Desk × Result Problem (Unit {0}))
        → ((t : Desk) (p : Bytes) → is_wrong (fn t p).1 ≡ true → (fn t p).0.dir ≡ t.dir)
        → ((t : Desk) (p : Bytes) → (fn t p).1 ≡ ok tt → Changed t.dir (fn t p).0.dir)
        → (t : Desk) → (ask (ask_once entries) fn retries t).1 ≡ ok tt
        → Changed t.dir (ask (ask_once entries) fn retries t).0.dir
    ask-Changed fn keeps good t h =
        let s = ask-Success entries fn keeps retries t h in
        rw (← s.is_end, ← s.same_dir) (good s.at_call s.entry (ap (λ r. r.1) s.is_end ∙ h))

    after_new_keeps :
        (old : Bytes) (x : Desk × Result Terminal.Error Bytes)
        → is_wrong (after_new entries c k e old x).1 ≡ true
        → (after_new entries c k e old x).0.dir ≡ x.0.dir
    unfolding after_new on_dir is_wrong
    after_new_keeps old (t, err x) h = refl
    after_new_keeps old (t, ok new) h = change_wrong c k (e t.asked) t.dir old new h

    change_with_keeps :
        (t : Desk) (old : Bytes) (o : Option Bytes)
        → is_wrong (change_with entries c k e t old o).1 ≡ true
        → (change_with entries c k e t old o).0.dir ≡ t.dir
    unfolding change_with on_dir
    change_with_keeps t old (some new) h = change_wrong c k (e t.asked) t.dir old new h
    change_with_keeps t old none h = after_new_keeps old (ask_new entries t) h ∙ ask_new-dir t

    set_with-Changed :
        (x : Desk × Result Terminal.Error Bytes)
        → (set_with entries c k e x).1 ≡ ok tt
        → Changed x.0.dir (set_with entries c k e x).0.dir
    unfolding set_with on_dir
    set_with-Changed (t, err x) h = absurd (cc)
    set_with-Changed (t, ok new) h = record {
      reads = (e t.asked).reads;
      old = [];
      new = new;
      same = (changes-SameKey c k law (e t.asked) t.dir [] new).1 (map_err-eq-ok setup _ h);
    }

    by_form-Changed :
        (remove : Bool) (t : Desk) (form : Form)
        → (by_form entries c k e remove t form).1 ≡ ok tt
        → Changed t.dir (by_form entries c k e remove t form).0.dir
    unfolding by_form change set_new try_remove try_change on_dir
    by_form-Changed remove t absent h = absurd (cc)
    by_form-Changed true t unprotected h = absurd (cc)
    by_form-Changed false t unprotected h =
        moved _ t.dir _ (ask_new-dir t) (set_with-Changed (ask_new entries t) h)
    by_form-Changed true t encrypted h =
        ask-Changed (try_remove entries c k e) (λ t p q. remove_wrong c k (e t.asked) t.dir p q)
          (λ t p q. record {
            reads = (e t.asked).reads;
            old = p;
            new = [];
            same = (changes-SameKey c k law (e t.asked) t.dir p []).2 [] (map_err-eq-ok setup _ q);
          })
          t h
    by_form-Changed false t encrypted h =
        ask-Changed (try_change entries c k e) (λ t p q. change_with_keeps t p t.new_pass q)
          (λ t p q. change_with-Changed t p t.new_pass q) t h

    -- With age's documented behaviour: when the command `passphrase` succeeds, the directory holds
    -- the same key as before, and Load reads it with a passphrase, after up to two wrong entries too.
    pub passphrase-Changed :
        (args : List Bytes) (remove : Bool) (t : Desk)
        → (passphrase entries c k e args remove t).1 ≡ ok tt
        → Changed t.dir (passphrase entries c k e args remove t).0.dir
    unfolding passphrase
    passphrase-Changed (a ∷ args) remove t h = absurd (cc)
    passphrase-Changed [] remove t h = elim (Result-cases (detect t.dir)) [
      | inr (x, bad) ↦ absurd (cc (rw (bad, passphrase) at h))
      | inl (form, found) ↦
          rw (found, passphrase) (by_form-Changed remove t form (rw (found, passphrase) at h))
    ]
