-- ===== src/Config.antt =====
-- internal/config: the settings from the file, the environment and the flags. The text of the
-- file, JSON, `time.ParseDuration` and the package `filepath` are parameters.
pub mod Layers
use keycell.Prelude.{
  ℕ, ◌+◌, ◌-◌, ◌*◌, Bool, true, false, not, ◌&&◌, ◌||◌, List, [], ◌∷◌, map, Option, none, some,
  Result, ok, err, ◌>>=◌, if◌then◌else◌, ltb, leb, ◌==◌, drop,
}
use keycell.Prelude.Bytes.{Bytes, text, equal, has_prefix}
use keycell.Prelude.Int.{ℤ, pos, negsuc}
use keycell.Prelude.Utf8.{trim_space}

pub record Config : Type 0 where
  pub data_dir : Bytes
  pub socket : Bytes
  pub auto_lock : ℤ
  pub log_level : Bytes

-- One source of settings, also Flags; every field is optional.
pub record Layer : Type 0 where
  pub data_dir : Option Bytes
  pub socket : Option Bytes
  pub auto_lock : Option Bytes
  pub log_level : Option Bytes

pub data Error : Type 0 where
  home_unset not_absolute : Bytes → Error
  bad_duration negative_duration : Bytes → Error
  bad_level : Bytes → Error
  no_dir : Bytes → Error
  no_runtime_dir : Error
  unreadable bad_file : Bytes → Error

-- What opening the file gives.
pub data Opened : Type 0 where
  contents : Layer → Opened
  missing : Opened
  cannot_open : Opened
  cannot_decode : Opened

-- The packages that the settings stand on. `file` is os.Open and the decoding of the one
-- document of the file.
pub record System : Type 0 where
  pub file : Bytes → Opened
  pub env : Bytes → Bytes
  pub parse_duration : Bytes → Option ℤ
  pub join : List Bytes → Bytes
  pub clean : Bytes → Bytes
  pub to_lower : Bytes → Bytes

-- DefaultAutoLock is 8 hours, in nanoseconds.
abbrev pub defaults : Config
defaults = record {
  data_dir = [];
  socket = [];
  auto_lock = pos 28_800_000_000_000;
  log_level = text "info";
}

abbrev pub log_levels : List Bytes
log_levels = text "trace" ∷ text "debug" ∷ text "info" ∷ text "warn" ∷ text "error" ∷ []

-- slices.Contains
unfoldable pub contains : List Bytes → Bytes → Bool
contains [] s = false
contains (x ∷ xs) s = equal x s || contains xs s

-- filepath.IsAbs
abbrev pub is_abs : Bytes → Bool
is_abs p = has_prefix p (text "/")

module _ (sys : System) where
  -- expandPath
  unfoldable pub expand_path : Bytes → Bytes → Result Error Bytes
  expand_path p home =
      if equal p (text "~") || has_prefix p (text "~/")
      then if equal home [] then err (home_unset p) else absolute (sys.join (home ∷ drop 1 p ∷ []))
      else absolute p
    where
      absolute : Bytes → Result Error Bytes
      absolute p = if not (is_abs p) then err (not_absolute p) else ok (sys.clean p)

  -- parseAutoLock
  unfoldable pub parse_auto_lock : Bytes → Result Error ℤ
  parse_auto_lock s = if equal s (text "0") then ok (pos 0) else elim (sys.parse_duration s) [
    | none ↦ err (bad_duration s)
    | some (negsuc n) ↦ err (negative_duration s)
    | some (pos n) ↦ ok (pos n)
  ]

  -- parseLogLevel
  unfoldable pub parse_log_level : Bytes → Result Error Bytes
  unfolding contains
  parse_log_level s =
      let lv = sys.to_lower (trim_space s) in
      if contains log_levels lv then ok lv else err (bad_level s)

  -- One step of apply: a field that is not set keeps what it was.
  unfoldable pub override :
      {A : Type 0} → (Bytes → Result Error A) → Option Bytes → A → Result Error A
  override read none old = ok old
  override read (some s) old = read s

  -- apply
  unfoldable pub apply : Layer → Bytes → Config → Result Error Config
  unfolding override
  apply l home c = do
    data_dir ← override (λ p. expand_path p home) l.data_dir c.data_dir
    socket ← override (λ p. expand_path p home) l.socket c.socket
    auto_lock ← override parse_auto_lock l.auto_lock c.auto_lock
    log_level ← override parse_log_level l.log_level c.log_level
    ok (record {
      data_dir = data_dir;
      socket = socket;
      auto_lock = auto_lock;
      log_level = log_level;
    })

  -- envValue
  unfoldable pub env_value : Bytes → Option Bytes
  env_value name = let v = sys.env name in if not (equal v []) then some v else none

  -- xdgDir
  unfoldable pub xdg_dir : Bytes → Bytes → Result Error Bytes
  xdg_dir xdg fallback =
      let dir = sys.env xdg in
      let home = sys.env (text "HOME") in
      if not (equal dir [])
      then ok (sys.join (dir ∷ text "keycell" ∷ []))
      else if equal home []
      then err (no_dir xdg)
      else ok (sys.join (home ∷ fallback ∷ text "keycell" ∷ []))

  -- A path that was named, which must exist.
  unfoldable pub explicit : Result Error Bytes → Result Error (Bytes × Bool)
  explicit (err e) = err e
  explicit (ok p) = ok (p, true)

  -- configPath: the path, and whether it was named
  unfoldable pub config_path : Bytes → Result Error (Bytes × Bool)
  unfolding expand_path explicit xdg_dir
  config_path flag =
      let named = sys.env (text "KEYCELL_CONFIG") in
      if not (equal flag [])
      then explicit (expand_path flag (sys.env (text "HOME")))
      else if not (equal named [])
      then explicit (expand_path named (sys.env (text "HOME")))
      else elim (xdg_dir (text "XDG_CONFIG_HOME") (text ".config")) [
        | err e ↦ err e
        | ok dir ↦ ok (sys.join (dir ∷ text "config.json" ∷ []), false)
      ]

  abbrev pub no_layer : Layer
  no_layer = record { data_dir = none; socket = none; auto_lock = none; log_level = none }

  -- readFile
  unfoldable pub read_file : Bytes → Bool → Result Error Layer
  read_file path named = elim (sys.file path) [
    | contents l ↦ ok l
    | missing ↦ if not named then ok no_layer else err (unreadable path)
    | cannot_open ↦ err (unreadable path)
    | cannot_decode ↦ err (bad_file path)
  ]

  -- The layer of the environment.
  unfoldable pub env_layer : Layer
  unfolding env_value
  env_layer = record {
    data_dir = env_value (text "KEYCELL_DATA_DIR");
    socket = env_value (text "KEYCELL_SOCKET");
    auto_lock = env_value (text "KEYCELL_AUTO_LOCK");
    log_level = env_value (text "KEYCELL_LOG_LEVEL");
  }

  -- The defaults of Load for the paths that no layer set.
  unfoldable pub default_data_dir : Bytes → Result Error Bytes
  unfolding xdg_dir
  default_data_dir d =
      if equal d [] then xdg_dir (text "XDG_DATA_HOME") (text ".local/share") else ok d

  unfoldable pub default_socket : Bytes → Result Error Bytes
  default_socket s =
      let rt = sys.env (text "XDG_RUNTIME_DIR") in
      if not (equal s [])
      then ok s
      else if equal rt []
      then err no_runtime_dir
      else ok (sys.join (rt ∷ text "keycell" ∷ text "keycell.sock" ∷ []))

  -- Load
  unfoldable pub load : Bytes → Layer → Result Error Config
  unfolding config_path read_file apply env_layer default_data_dir default_socket
  load flag flags = do
    let home = sys.env (text "HOME")
    (path, named) ← config_path flag
    from_file ← read_file path named
    c ← apply from_file home defaults
    d ← apply env_layer home c
    e ← apply flags home d
    data_dir ← default_data_dir e.data_dir
    socket ← default_socket e.socket
    ok (record e { data_dir = data_dir; socket = socket })
