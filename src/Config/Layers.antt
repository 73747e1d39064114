-- ===== src/Config/Layers.antt =====
-- Which source a setting comes from.
use keycell.Config.{
  Config, Layer, Error, System, defaults, expand_path, parse_auto_lock, parse_log_level,
  config_path, read_file, env_layer, default_data_dir, default_socket,
}
use keycell.Prelude.{◌≡◌, Option, none, some, Result, ok, Bool}
use keycell.Prelude.Bytes.{Bytes, text}

-- The first of the sources that sets a field.
abbrev pub first_set : Option Bytes → Option Bytes → Option Bytes
first_set none o = o
first_set (some s) o = some s

-- A setting: the value of the source that sets it, as `read` makes it, or `old` without one.
abbrev pub IsFrom : {A : Type 0} → (Bytes → Result Error A) → Option Bytes → A → A → Type 0
IsFrom read none old new = new ≡ old
IsFrom read (some s) old new = read s ≡ ok new

-- The fields of one source where it sets them, else of another.
abbrev pub over : Layer → Layer → Layer
over m l = record {
  data_dir = first_set m.data_dir l.data_dir;
  socket = first_set m.socket l.socket;
  auto_lock = first_set m.auto_lock l.auto_lock;
  log_level = first_set m.log_level l.log_level;
}

abbrev the_config : Config → Result Error Config
the_config c = ok c

module _ (sys : System) where
  abbrev pub expand : Bytes → Result Error Bytes
  expand p = expand_path sys p (sys.env (text "HOME"))

  -- The fields of `new` come from the source `l`, or else from `old`.
  pub record Applied (l : Layer) (old new : Config) : Type 0 where
    pub data_dir : IsFrom expand l.data_dir old.data_dir new.data_dir
    pub socket : IsFrom expand l.socket old.socket new.socket
    pub auto_lock : IsFrom (parse_auto_lock sys) l.auto_lock old.auto_lock new.auto_lock
    pub log_level : IsFrom (parse_log_level sys) l.log_level old.log_level new.log_level

  -- A configuration that was loaded, from the file's layer and the merged one.
  pub record Loaded (flag : Bytes) (flags : Layer) (c : Config) : Type 0 where
    pub path : Bytes
    pub named : Bool
    pub file : Layer
    pub merged : Config
    pub at : config_path sys flag ≡ ok (path, named)
    pub read : read_file sys path named ≡ ok file
    pub applied : Applied (over flags (over (env_layer sys) file)) defaults merged
    pub data_dir : default_data_dir sys merged.data_dir ≡ ok c.data_dir
    pub socket : default_socket sys merged.socket ≡ ok c.socket
    pub auto_lock : c.auto_lock ≡ merged.auto_lock
    pub log_level : c.log_level ≡ merged.log_level
