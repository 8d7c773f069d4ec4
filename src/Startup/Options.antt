-- ===== src/Startup/Options.antt =====
-- pkg/cmd/rsyslogrelp/options.go: the configuration of the extension, read from a file.
use gardener_extension_shoot.Common.{
  String, Text, Option, some, Bool-cases, Sum-cases, inl, inr, ◌⊎◌, ◌≡◌, ◌≢◌, refl, str_eq, eq_iff,
  if◌then◌else◌,
}
use gardener_extension_shoot.Common.Outcome.{Outcome, ok, err, panic, ◌>>=◌, deref}
use gardener_extension_shoot.Common.Effect.{Effect}
use gardener_extension_shoot.Api.{TypeMeta}
use gardener_extension_shoot.Gardener.{Error, message, or_error}

-- config.Configuration
pub record Configuration : Type 0 where
  pub type_meta : TypeMeta

-- RsyslogRelpServiceConfig
pub record ServiceConfig : Type 0 where
  pub config : Configuration

pub record Options : Type 0 where
  pub config_location : String
  pub config : Option ServiceConfig

abbrev pub completed : Options → Option ServiceConfig
completed o = o.config

-- what `*config` is afterwards
abbrev pub apply : Option ServiceConfig → Outcome Error Configuration
apply c = deref c >>= λ service. ok service.config

-- os.ReadFile, and runtime.DecodeInto an empty Configuration
module _ (read_file : String → Error ⊎ Text) (decode : Text → Error ⊎ Configuration) where
  -- the file, decoded
  unfoldable pub read_configuration : String → Outcome Error Configuration
  read_configuration location = do
    contents ← or_error (read_file location)
    or_error (decode contents)

  abbrev pub set_config : Options → Outcome Error Configuration → Outcome Error (Unit {0}) × Options
  set_config o (ok configuration) =
      (ok tt, record o { config = some (record { config = configuration }) })
  set_config o (err e) = (err e, o)
  set_config o panic = (panic, o)

  unfoldable pub complete : Effect Error Options (Unit {0})
  unfolding read_configuration
  complete o =
      if str_eq o.config_location ""
      then (err (message "config location is not set"), o)
      else set_config o (read_configuration o.config_location)

  -- The options hold the configuration of their file, and Apply hands it on.
  pub record IsComplete (before after : Options) : Type 0 where
    pub located : before.config_location ≢ ""
    pub contents : Text
    pub configuration : Configuration
    pub is_read : read_file before.config_location ≡ inr contents
    pub is_decoded : decode contents ≡ inr configuration
    pub applied : apply (completed after) ≡ ok configuration
    pub kept : after.config_location ≡ before.config_location

  -- Complete either returns an error and leaves the options as they are, or it returns none, the file
  -- at the location, which is not empty, has been read and decoded, and Apply of the completed options
  -- gives what was decoded and does not panic.
  pub complete-IsComplete :
      (o : Options)
      → ((e : Error) × (complete o ≡ (err e, o)))
        ⊎ (((complete o).0 ≡ ok tt) × IsComplete o (complete o).1)
  unfolding complete
  complete-IsComplete o = elim (Bool-cases (str_eq o.config_location "")) [
    | inl unset ↦ inl (message "config location is not set", rw unset)
    | inr set ↦ elim (Sum-cases (read_file o.config_location)) [
      | inl (e, unread) ↦ inl (e, rw (set, unread))
      | inr (contents, is_read) ↦ elim (Sum-cases (decode contents)) [
        | inl (e, undecoded) ↦ inl (e, rw (set, is_read, undecoded))
        | inr (configuration, is_decoded) ↦ inr (
            rw (set, is_read, is_decoded)
              (
                refl,
                record {
                  located = λ empty. cc ((eq_iff o.config_location "").1 empty);
                  contents = contents;
                  configuration = configuration;
                  is_read = is_read;
                  is_decoded = is_decoded;
                  applied = refl;
                  kept = refl;
                },
              ))
      ]
    ]
  ]
