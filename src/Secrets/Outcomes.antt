-- ===== src/Secrets/Outcomes.antt =====
-- What store and delete of the command line do to the daemon.
use keycell.Client.{Api, Secret}
use keycell.Client.Exit.{Exit}
use keycell.Import.{is_listed}
use keycell.Prelude.{◌≡◌, ◌≢◌, true, false, List, [], ◌∷◌, some, ok}
use keycell.Prelude.Bytes.{Bytes}
use keycell.Prelude.Maps.{Map}
use keycell.Secrets.{StoreFlags, Input, Output, value_of}
use keycell.Secrets.Syntax.{parse_attrs}

module _ {S : Type 0} (api : Api S) (o : Output S) where
  -- A call of Store that the flags and the input ask for, with nothing of that name listed when
  -- the flags say so.
  pub record Asked (f : StoreFlags) (input : Input) (st : S) : Type 0 where
    pub name : Bytes
    pub attributes : Map Bytes
    pub value : Bytes
    pub is_name : f.args ≡ name ∷ []
    pub is_parsed : parse_attrs f.attrs ≡ ok attributes
    pub is_value : value_of input ≡ some value
    pub not_empty : value ≢ []
    pub is_new :
        f.no_overwrite ≡ true
        → (ss : List Secret) × (api.list st (record { kind = []; prefix = name; attributes = [] })
            ≡ ok ss)
          × (is_listed name ss ≡ false)

  abbrev pub sent : (f : StoreFlags) (input : Input) (st : S) → Asked f input st → Secret
  sent f input st a = record {
    name = a.name;
    kind = f.kind;
    attributes = a.attributes;
    value = a.value;
    created = 0;
    updated = 0;
  }
