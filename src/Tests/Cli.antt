-- ===== src/Tests/Cli.antt =====
-- The theorems about the commands on secrets and about unlock, with a daemon that is a list.
use keycell.Client.{Secret}
use keycell.Prelude.{
  ℕ, ◌≡◌, ◌≤◌, ◌<◌, ◌⊎◌, ◌+◌, ◌*◌, refl, arith, Bool, true, false, [], ◌∷◌, List, Option, none,
  some, Result, ok, map,
}
use keycell.Prelude.Bytes.{Bytes, text}
use keycell.Prelude.Maps.{Map}
use keycell.Secrets.{StoreFlags, Input, piped, Output}
use keycell.Secrets.Syntax.{parse_attrs, pair_of}
use keycell.Secrets.Attributes.{parse_attrs-pairs}
use keycell.Tests.Setups.{scrypt, age_dir, entries}
use keycell.Tests.ToyCodec.{toy}
use keycell.Unlock.{Daemon, unlock, format_remaining}
use keycell.Unlock.Sends.{Sent, unlock-Sent}
use keycell.Unlock.Shown.{IsNear, format_remaining-IsNear}

abbrev two_attributes : Map Bytes
two_attributes = (text "user", text "me") ∷ (text "url", text "a=b") ∷ []

parse_attrs-pairs_example : parse_attrs (map pair_of two_attributes) ≡ ok two_attributes
unfolding keycell.Prelude.Bytes.contains_byte keycell.Prelude.Maps.lookup
    keycell.Prelude.Bytes.equal
parse_attrs-pairs_example = parse_attrs-pairs two_attributes (refl, (refl, tt)) (refl, (refl, tt))

abbrev output : Output (List Secret)
output = record {
  is_locked = λ st. ok false;
  json_one = λ s. some [];
  json_list = λ ss. some [];
  table = λ rows. [];
  local_time = λ t. [];
  writes = true;
  to_terminal = false;
}

abbrev flags : StoreFlags
flags = record {
  args = text "a" ∷ [];
  kind = text "generic";
  attrs = text "k=v" ∷ [];
  no_overwrite = true;
}

abbrev input : Input
input = piped (some (text "hunter2\n"))

-- A daemon that keeps the keys that were sent.
abbrev heard : Daemon (List Bytes)
heard = record {
  connect = λ st. ok tt;
  status = λ st. ok (record { locked = true; locks_at = none });
  unlock = λ st key dur. (key ∷ st, ok tt);
  lock = λ st. ([], ok tt);
}

unlock-Sent_example :
    ((unlock heard toy scrypt true age_dir none entries [] false ([], 2)).0.0 ≡ [])
    ⊎ Sent heard toy scrypt true age_dir none []
        (unlock heard toy scrypt true age_dir none entries [] false ([], 2)).0.0
unlock-Sent_example = unlock-Sent heard toy scrypt true age_dir none entries [] false ([], 2)

-- Half a minute is shown as a whole one.
format_remaining-IsNear_example : IsNear 5_430_000_000_000 (format_remaining 5_430_000_000_000)
format_remaining-IsNear_example = format_remaining-IsNear 5_430_000_000_000
