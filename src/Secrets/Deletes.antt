-- ===== src/Secrets/Deletes.antt =====
-- What delete of the command line does to the daemon.
use keycell.Client.{Api, Failure, Sentinel, sentinel}
use keycell.Client.Exit.{Exit, exit_error}
use keycell.Prelude.{
  ◌≡◌, ◌⊎◌, Bool, true, false, List, [], ◌∷◌, ◌++◌, none, some, Result, ok, err, if◌then◌else◌,
}
use keycell.Prelude.Bytes.{Bytes}
use keycell.Secrets.{attempt, finish, delete}

module _ {S : Type 0} (api : Api S) where
  -- The daemon after Delete of each name in order.
  pub after : List Bytes → S → S
  after [] st = st
  after (n ∷ ns) st = after ns (api.delete st n).0

  -- Whether Delete answers that there is no such name.
  pub is_missing : Result Failure (Unit {0}) → Bool
  is_missing (ok u) = false
  is_missing (err e) = elim (sentinel e) [
    | none ↦ false
    | some Sentinel.not_found ↦ true
    | some s ↦ false
  ]

  -- The names, of those that are deleted in order, that were not there.
  pub missing_of : List Bytes → S → List Bytes
  unfolding is_missing
  missing_of [] st = []
  missing_of (n ∷ ns) st =
      let rest = missing_of ns (api.delete st n).0 in
      if is_missing (api.delete st n).1 then n ∷ rest else rest

  -- Delete of each name in order succeeds, or answers that there is no such name.
  pub AllEnd : List Bytes → S → Type 0
  AllEnd [] st = Unit
  AllEnd (n ∷ ns) st =
      (((api.delete st n).1 ≡ ok tt) ⊎ (is_missing (api.delete st n).1 ≡ true))
      × AllEnd ns (api.delete st n).0

  -- The run deletes every name, or stops at the first that ends in another error than ErrNotFound.
  pub data Course (ns : List Bytes) (st : S) (m : List Bytes) (r : S × Exit) : Type 0 where
    complete : AllEnd ns st → r ≡ (after ns st, finish (m ++ missing_of ns st)) → Course ns st m r
    stopped :
        (done rest : List Bytes) (n : Bytes) (e : Failure)
        → ns ≡ done ++ n ∷ rest
        → AllEnd done st
        → (api.delete (after done st) n).1 ≡ err e
        → is_missing (err e) ≡ false
        → r ≡ (after (done ++ n ∷ []) st, exit_error e)
        → Course ns st m r

  -- How one attempt ends.
  pub data Ending (st : S) (n : Bytes) : Type 0 where
    was_there : (attempt api st n).1 ≡ ok true → (api.delete st n).1 ≡ ok tt → Ending st n
    was_missing :
        (attempt api st n).1 ≡ ok false → is_missing (api.delete st n).1 ≡ true → Ending st n
    failed :
        (e : Failure)
        → (attempt api st n).1 ≡ err e
        → (api.delete st n).1 ≡ err e
        → is_missing (err e) ≡ false
        → Ending st n
