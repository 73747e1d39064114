-- ===== src/Tests/Wires.antt =====
-- The theorem about a Store and a Get over the connection, with lengths in front of bytes in place
-- of JSON.
use keycell.Client
use keycell.Client.{response}
use keycell.Client.Calls.{Link, store, served}
use keycell.Client.Calls.Paired.{IsPaired}
use keycell.Daemon.Server.{Server, Env}
use keycell.Daemon.Store
use keycell.Prelude.{ℕ, ◌≡◌, refl, arith, [], ◌∷◌, List, Option, none, some, Result, ok, err, true}
use keycell.Prelude.Bytes.{Bytes, text, equal}
use keycell.Prelude.Maps.{Map}
use keycell.Protocol.{
  Wire, Request, Response, SecretInfo, GetResult, StoreParams, ListParams, UnlockParams,
  StatusResult, Answer, state, secret, listing, empty,
}
use keycell.Tests.Scene.{files, opened, env, sealed}
use keycell.Tests.ToyCodec.{
  toy, ◌>>=◌, put_bytes, get_bytes, get_bytes-put, put_map, get_map, get_map-put,
}

unfoldable put_request : Request → Bytes
put_request r = put_bytes r.id (put_bytes r.method r.params)

unfoldable get_request : Bytes → Option Request
get_request s = do
  (id, s1) ← get_bytes s
  (method, params) ← get_bytes s1
  some (record { id = id; method = method; params = params })

unfoldable get_name : Bytes → Option Bytes
get_name [] = none
get_name (c ∷ n) = some n

abbrev put_attributes : Map Bytes → Bytes → Bytes
put_attributes m rest = put_map put_bytes get_bytes m rest

unfoldable put_store : StoreParams → Bytes
put_store p = 1 ∷ put_bytes p.name (put_bytes p.kind (put_attributes p.attributes p.value))

unfoldable get_store : Bytes → Option StoreParams
unfolding get_name
get_store s = do
  s0 ← get_name s
  (n, s1) ← get_bytes s0
  (k, s2) ← get_bytes s1
  (a, v) ← get_map put_bytes get_bytes s2
  some (record { name = n; kind = k; attributes = a; value = v })

unfoldable put_answer : Answer → Option Bytes
put_answer (secret g) = some (
    put_bytes g.info.name (
      put_bytes g.info.kind
        (put_attributes g.info.attributes (g.info.created ∷ g.info.updated ∷ g.value))))
put_answer a = some []

unfoldable with_times : Bytes → Bytes → Map Bytes → Bytes → Option GetResult
with_times n k a (c ∷ u ∷ v) = some (record {
  info = record { name = n; kind = k; attributes = a; created = c; updated = u };
  value = v;
})
with_times n k a s = none

unfoldable get_got : Bytes → Option GetResult
unfolding with_times
get_got s = do
  (n, s1) ← get_bytes s
  (k, s2) ← get_bytes s1
  (a, s3) ← get_map put_bytes get_bytes s2
  with_times n k a s3

unfoldable wire : Wire
unfolding get_request get_name get_store put_answer
wire = record {
  request = get_request;
  name = get_name;
  list_params = λ b. none;
  store_params = get_store;
  unlock_params = λ b. none;
  answer = put_answer;
}

unfoldable link : Link
unfolding put_request put_store get_got
link = record {
  request = λ r. some (put_request r);
  name = λ n. some (1 ∷ n);
  list_params = λ p. none;
  store_params = λ p. some (put_store p);
  unlock_params = λ p. none;
  no_params = [];
  get_result = get_got;
  list_result = λ b. none;
  status_result = λ b. none;
  carry = response;
}

unfoldable paired : IsPaired wire link
unfolding wire link put_request get_request put_store get_store put_answer get_got equal get_map
    put_map
paired = record {
  IsJson = λ b. Unit;
  requests = λ r a b t. (put_request r, refl, simp get_bytes-put);
  names = λ n t. (1 ∷ n, tt, (refl, refl), refl, refl);
  stores = λ s a b t. (
    put_store s,
    tt,
    (refl, refl),
    refl,
    simp (get_bytes-put, get_map-put put_bytes get_bytes get_bytes-put),
  );
  gets = λ g a b t. (_, refl, simp (get_bytes-put, get_map-put put_bytes get_bytes get_bytes-put));
  empties = ([], refl);
  carries = λ r t. refl;
}

abbrev server : Server ℕ
server = record { session = opened; files = files }

abbrev sent : Client.Secret
sent = record {
  name = text "a";
  kind = text "generic";
  attributes = (text "k", text "v") ∷ [];
  value = text "x";
  created = 0;
  updated = 0;
}

stored : (store link (served toy wire link env) (text "1") server sent).1 ≡ ok tt
unfolding store link served keycell.Protocol.read_request wire get_bytes put_bytes equal get_map
    put_map toy sealed keycell.Daemon.Server.call keycell.Protocol.bind Store.store
    keycell.Daemon.Session.unlock keycell.Identity.parse keycell.Prelude.Utf8.trim_space
    keycell.Prelude.Utf8.decode_rune keycell.Secmem.new keycell.Vault.File.read
    keycell.Vault.File.write keycell.Atomicfile.write_file keycell.Vault.Validate.validate_secret
    keycell.Prelude.Maps.lookup keycell.Prelude.Maps.insert keycell.Prelude.Utf8.valid_string
    Store.put
stored = refl
