-- ===== src/Passphrases/Asking.antt =====
-- How often the commands ask, and what they leave.

use keycell.Identity.Forms.{Form, encrypted, unprotected, absent, detect, Scrypt}
use keycell.Identity.Setup.{Env}
use keycell.Passphrases.{
  Problem, is_wrong, Desk, retries, ask_once, ask_new, turn, ask, on_dir, try_change, change_with,
  change, try_remove, set_new, set_with, by_form, passphrase, after_new,
}
use keycell.Prelude.{
  ◌≡◌, ◌≤◌, refl, ap, arith, ℕ, zero, suc, ◌+◌, Bool, true, false, Bool-cases, List, [], ◌∷◌,
  Option, Option-cases, none, some, Result, Result-cases, ok, err, inl, inr,
}
use keycell.Prelude.Bytes.{Bytes}
use keycell.Terminal
use keycell.Vault.File.{Codec}

-- The entries that a new passphrase still needs.
weight : Option Bytes → ℕ
weight none = 2
weight (some p) = 0

-- The entries that a command has asked for, and those for a new passphrase that it may.
cost : Desk → ℕ
unfolding weight
cost t = t.asked + weight t.new_pass

module _ (entries : ℕ → Result Terminal.Error Bytes) where
  -- A new passphrase asks for two entries at most, and leaves the one that is there.
  ask_new_lem :
      (t : Desk)
      → ((ask_new entries t).0.asked ≤ t.asked + 2) × ((ask_new entries t).0.new_pass ≡ t.new_pass)
  unfolding ask_new
  ask_new_lem t = elim (Result-cases (entries t.asked)) [
    | inr (e, bad) ↦ rw (bad, ask_new) (ground arith, refl)
    | inl ([], got) ↦ rw (got, ask_new) (ground arith, refl)
    | inl (b ∷ bs, got) ↦ rw (got, ask_new) (ground arith, refl)
  ]

  -- What a function that is asked with an entry costs: when it wants another entry it has asked
  -- for no more than it may.
  abbrev IsSmall : (Desk → Bytes → Desk × Result Problem (Unit {0})) → Type 0
  IsSmall fn =
      (t : Desk) (p : Bytes)
      → ((fn t p).0.asked ≤ cost t) × (is_wrong (fn t p).1 ≡ true → cost (fn t p).0 ≤ cost t)

  module _ (fn : Desk → Bytes → Desk × Result Problem (Unit {0})) (small : IsSmall fn) where
    turn-cost :
        (t : Desk)
        → ((turn (ask_once entries) fn t).0.asked ≤ cost t + 1)
          × (is_wrong (turn (ask_once entries) fn t).1 ≡ true
              → cost (turn (ask_once entries) fn t).0 ≤ cost t + 1)
    unfolding turn ask_once cost is_wrong
    turn-cost t = elim (Result-cases (entries t.asked)) [
      | inr (e, bad) ↦ rw (bad, turn) (ground arith, λ q. absurd (ground arith))
      | inl (p, got) ↦
          let (few, fewer) = small (ask_once entries t).0 p in
          rw (got, turn) (ground arith, λ q. let f = fewer q in ground arith)
    ]

    ask-cost : (n : ℕ) (t : Desk) → (ask (ask_once entries) fn n t).0.asked ≤ cost t + n + 1
    unfolding ask
    ask-cost zero t = ground (arith, turn-cost t)
    ask-cost (suc n) t = elim (Bool-cases (is_wrong (turn (ask_once entries) fn t).1)) [
      | inr other ↦ rw (other, ask) (ground (arith, turn-cost t))
      | inl wrong ↦
          let small_turn = (turn-cost t).1 wrong in
          rw (wrong, ask) (ground (arith, ask-cost n (turn (ask_once entries) fn t).0))
    ]

  module _ {I : Type 0} (c : Codec I) (k : Scrypt) (e : ℕ → Env) where
    after_new-cost :
        (old : Bytes) (x : Desk × Result Terminal.Error Bytes)
        → ((after_new entries c k e old x).0.asked ≡ x.0.asked)
          × (is_wrong (after_new entries c k e old x).1 ≡ true
              → cost (after_new entries c k e old x).0 ≡ x.0.asked)
    unfolding after_new on_dir is_wrong cost weight
    after_new-cost old (t, err x) = (refl, λ q. absurd (cc))
    after_new-cost old (t, ok new) = (refl, λ q. ground arith)

    try_change-IsSmall : IsSmall (try_change entries c k e)
    unfolding try_change change_with on_dir cost weight
    try_change-IsSmall t p = elim (Option-cases t.new_pass) [
      | inr (new, there) ↦ rw (there, try_change) (ground arith, λ q. ground arith)
      | inl none_yet ↦
          let (few, same) = ask_new_lem t in
          let two : weight t.new_pass ≡ 2 = ap weight none_yet in
          let (a, b) = after_new-cost p (ask_new entries t) in
          let is : try_change entries c k e t p ≡ after_new entries c k e p (ask_new entries t) =
            ap (change_with entries c k e t p) none_yet in
          rw is (ground arith, λ q. let d = b q in ground arith)
    ]

    try_remove-IsSmall : IsSmall (try_remove entries c k e)
    unfolding try_remove on_dir cost
    try_remove-IsSmall t p = (ground arith, λ q. ground arith)

    set_with_asks :
        (x : Desk × Result Terminal.Error Bytes) → (set_with entries c k e x).0.asked ≡ x.0.asked
    unfolding set_with on_dir
    set_with_asks (t, err x) = refl
    set_with_asks (t, ok new) = refl

    by_form_asks :
        (remove : Bool) (form : Form) (t : Desk)
        → t.new_pass ≡ none
        → (by_form entries c k e remove t form).0.asked ≤ t.asked + 5
    unfolding by_form set_new change cost weight try_remove on_dir
    by_form_asks remove absent t fresh = ground arith
    by_form_asks true unprotected t fresh = ground arith
    by_form_asks false unprotected t fresh =
        ground (arith, ask_new_lem t, set_with_asks (ask_new entries t))
    by_form_asks true encrypted t fresh =
        ground (arith, ask-cost (try_remove entries c k e) try_remove-IsSmall retries t)
    by_form_asks false encrypted t fresh =
        ground (arith, ask-cost (try_change entries c k e) try_change-IsSmall retries t)

    -- The command `passphrase` asks for five entries at most: three times the current passphrase, and
    -- a new one twice.
    pub passphrase_asks :
        (args : List Bytes) (remove : Bool) (t : Desk)
        → t.new_pass ≡ none
        → (passphrase entries c k e args remove t).0.asked ≤ t.asked + 5
    unfolding passphrase by_form set_new change cost weight
    passphrase_asks (a ∷ args) remove t fresh = ground arith
    passphrase_asks [] remove t fresh = elim (Result-cases (detect t.dir)) [
      | inr (x, bad) ↦ rw (bad, passphrase) (ground arith)
      | inl (form, found) ↦ rw (found, passphrase) (by_form_asks remove form t fresh)
    ]
