-- ===== src/Client/Calls/EndToEnd.antt =====
-- A secret from one client to another, by way of the daemon and the vault file.
use keycell.Atomicfile.{Files}
use keycell.Client
use keycell.Client.{answered}
use keycell.Client.Calls.{Link, store}
use keycell.Client.Calls.Paired.{IsPaired}
use keycell.Daemon.Server as Serving
use keycell.Daemon.Server.{Server, Env, disk, to_error}
use keycell.Daemon.Store
use keycell.Prelude.{Result}
use keycell.Prelude.Bytes.{Bytes}
use keycell.Protocol
use keycell.Protocol.{Wire, SecretInfo, StoreParams}
use keycell.Vault.File.{Codec, IsFaithful}

module _ {I : Type 0} (c : Codec I) (w : Wire) where
  -- What the daemon does with the params of a Store and of a Get.
  abbrev stores : Env → Server I → StoreParams → Files × Result Store.Error (Unit {0})
  stores e s q = Store.store c s.session (disk c w e s) e.now q.name q.kind q.attributes q.value

  module _ (law : IsFaithful c) (l : Link) (pair : IsPaired w l) where
    abbrev params_of : Client.Secret → StoreParams
    params_of x = record {
      name = x.name;
      kind = x.kind;
      attributes = x.attributes;
      value = x.value;
    }
