-- ===== src/DockerHelper/Commands.antt =====
-- The four commands of the docker helper, over the client's operations.
pub mod Logins
use keycell.Client.{Api, Secret, Failure, Sentinel, sentinel}
use keycell.Daemon.Store.{Filter}
use keycell.DockerHelper.Quote.{Problem, quote, unquote}
use keycell.Prelude.{
  ℕ, ◌*◌, ◌^◌, Bool, true, false, not, ◌&&◌, ◌||◌, List, [], ◌∷◌, ◌++◌, map, Option, none, some,
  Result, ok, err, if◌then◌else◌, take,
}
use keycell.Prelude.Bytes.{Bytes, text, equal, has_prefix, cut, contains_byte, or_empty}
use keycell.Prelude.Maps.{Map, lookup, insert}
use keycell.Prelude.Text.{sort_strings}
use keycell.Prelude.Utf8.{trim_space}
use keycell.DockerHelper.{
  StoreRequest, Json, Trouble, no_match, bad_secret, daemon, End, done, fail, read_server_url,
  read_store_request, only, server_filter, every_login, logins, renewed, new_login,
}

module _ {S : Type 0} (json : Json) (api : Api S) where
  -- match
  unfoldable pub match_server : S → Bytes → Result Trouble Secret
  unfolding only
  match_server st server = elim (api.list st (server_filter server)) [
    | err e ↦ err (daemon e)
    | ok ss ↦ only ss
  ]

  -- writeCredential
  unfoldable pub write_credential : Bytes → Bytes → Bytes → Bytes
  write_credential server username secret =
      text "{\"ServerURL\":"
      ++ (json.string server
          ++ (text ",\"Username\":"
              ++ (json.string username
                  ++ (text ",\"Secret\":" ++ (quote secret ++ (b'}' ∷ b'\n' ∷ []))))))

  -- get, once the match is known
  reply : S → Bytes → Result Trouble Secret → End
  unfolding write_credential
  reply st server (err no_match) = record {
    out = text "credentials not found in native keychain\n";
    hint = false;
    error = some no_match;
  }
  reply st server (err t) = fail t
  reply st server (ok s) = elim (api.get st s.name) [
    | err e ↦ fail (daemon e)
    | ok full ↦
        done (write_credential server (or_empty (lookup (text "username") s.attributes)) full.value)
  ]

  -- helper.get
  unfoldable pub get : S → Bytes → End
  unfolding reply match_server
  get st stdin = elim (read_server_url stdin) [
    | err t ↦ fail t
    | ok server ↦ elim (api.connect st) [
      | err e ↦ fail (daemon e)
      | ok _ ↦ reply st server (match_server st server)
    ]
  ]

  listed : Result Failure (List Secret) → End
  unfolding logins sentinel
  listed (ok ss) = done (json.object (logins ss []) ++ b'\n' ∷ [])
  listed (err e) = elim (sentinel e) [
    | some Sentinel.locked ↦ record { out = text "{}\n"; hint = true; error = none }
    | some _ ↦ fail (daemon e)
    | none ↦ fail (daemon e)
  ]

  -- helper.list
  unfoldable pub list : S → End
  unfolding listed
  list st = elim (api.connect st) [
    | err e ↦ fail (daemon e)
    | ok _ ↦ listed (api.list st every_login)
  ]

  ended : S × Result Failure (Unit {0}) → S × End
  ended (st, ok _) = (st, done [])
  ended (st, err e) = (st, fail (daemon e))

  save : S → StoreRequest → Bytes → Result Trouble Secret → S × End
  unfolding ended renewed
  save st r value (err no_match) = ended (api.store st (renewed r value (new_login r.server_url)))
  save st r value (err t) = (st, fail t)
  save st r value (ok s) = ended (api.store st (renewed r value s))

  -- store, once the login is read
  keep : S → StoreRequest → S × End
  unfolding save match_server
  keep st r = elim (unquote r.secret) [
    | err p ↦ (st, fail (bad_secret p))
    | ok value ↦ elim (api.connect st) [
      | err e ↦ (st, fail (daemon e))
      | ok _ ↦ save st r value (match_server st r.server_url)
    ]
  ]

  -- helper.store
  unfoldable pub store : S → Bytes → S × End
  unfolding keep
  store st stdin = elim (read_store_request json stdin) [ err t ↦ (st, fail t) | ok r ↦ keep st r ]

  dropped : S × Result Failure (Unit {0}) → S × End
  unfolding sentinel
  dropped (st, ok _) = (st, done [])
  dropped (st, err e) = elim (sentinel e) [
    | some Sentinel.not_found ↦ (st, done [])
    | some _ ↦ (st, fail (daemon e))
    | none ↦ (st, fail (daemon e))
  ]

  forget : S → Result Trouble Secret → S × End
  unfolding dropped
  forget st (err no_match) = (st, done [])
  forget st (err t) = (st, fail t)
  forget st (ok s) = dropped (api.delete st s.name)

  -- helper.erase
  unfoldable pub erase : S → Bytes → S × End
  unfolding forget match_server
  erase st stdin = elim (read_server_url stdin) [
    | err t ↦ (st, fail t)
    | ok server ↦ elim (api.connect st) [
      | err e ↦ (st, fail (daemon e))
      | ok _ ↦ forget st (match_server st server)
    ]
  ]
