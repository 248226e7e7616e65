-- ===== src/Logger/Writes.antt =====
-- What a logger of pkg/logger/logger.go writes, and where.
use Prim.Native.Char.{Char}
use mbsscaner.Prelude.{ℕ, ◌≢◌, String, ◌≤◌, ◌≡◌, refl, sym, ap, ◌⊎◌, inl, inr, List, [], ◌∷◌, All}
use mbsscaner.Config.Settings.{LoggerConfig}
use mbsscaner.Modbus.Result.{
  Result, ok, err, panics, Reply, reply, refused, then_run, of_reply, return,
}
use mbsscaner.Logger.{
  Level, debug, info, warn, error, panic_level, fatal, Sink, stdout, stderr, file, Core, Output,
  to_console, to_file, to_both, output_of, parse_log_level, cores_for, new_logger, file_core,
  log_file, get_log_dir,
}

-- The severity of a level; a core writes an entry of its own level or a more severe one.
abbrev pub severity : Level → ℕ
severity debug = 0
severity info = 1
severity warn = 2
severity error = 3
severity panic_level = 4
severity fatal = 5

-- An entry of the level reaches the sink through one of the cores.
abbrev pub Receives : Level → List Core → Sink → Type 0
Receives l [] sink = ⊥
Receives l (c ∷ cs) sink = ((c.sink ≡ sink) × (severity c.level ≤ severity l)) ⊎ Receives l cs sink

-- The rolling file of a configuration.
abbrev pub rolling_of : LoggerConfig → Sink
rolling_of config = file (record {
  filename = log_file config.filename;
  max_size = config.max_size;
  max_backups = config.max_backups;
  max_age = config.max_age;
  compress = config.compress;
})

-- Where the log goes, and where errors go besides.
abbrev pub destinations : Output → LoggerConfig → List Sink
destinations to_console config = stdout ∷ []
destinations to_file config = rolling_of config ∷ []
destinations to_both config = stdout ∷ rolling_of config ∷ []

abbrev pub for_errors : Output → List Sink
for_errors to_console = []
for_errors _ = stderr ∷ []

-- The cores write to every destination.
abbrev pub Writes : Output → LoggerConfig → Level → List Core → Type 0
Writes output config level cores =
    (l : Level)
    → (severity level ≤ severity l → All (Receives l cores) (destinations output config))
      × (severity error ≤ severity l → All (Receives l cores) (for_errors output))

module _ (lower_rune : Char → Char) {Files : Type 0}
    (mkdir_all : String → Files → Reply (Unit {0}) × Files) where
  -- The answer of the file system when the folder of the log file is made.
  abbrev pub folder_made : LoggerConfig → Files → Reply (Unit {0}) × Files
  folder_made config fs = mkdir_all (get_log_dir (log_file config.filename)) fs

  -- The files as they are behind that call, if the output needs it.
  abbrev pub files_after : Output → LoggerConfig → Files → Files
  files_after to_console config fs = fs
  files_after _ config fs = (folder_made config fs).1

  -- The call is made only for an output with a file, and its refusal is the only error.
  abbrev pub Reaches : Output → LoggerConfig → Level → Files → Result (List Core) × Files → Type 0
  Reaches output config level fs (ok cores, fs') =
      Writes output config level cores
      × (fs' ≡ files_after output config fs)
      × ((output ≡ to_console) ⊎ ((folder_made config fs).0 ≡ reply tt))
  Reaches output config level fs (err e, fs') =
      (output ≢ to_console) × (folder_made config fs ≡ (refused e, fs'))
  Reaches output config level fs (panics, fs') = ⊥

  with_folder-Reaches :
      (output : Output) (config : LoggerConfig) (level : Level) (cores : List Core) (fs : Files)
      (r : Reply (Unit {0}) × Files)
      → folder_made config fs ≡ r
      → output ≢ to_console
      → files_after output config fs ≡ r.1
      → Writes output config level cores
      → Reaches output config level fs (then_run (of_reply r) λ _. return cores)
  with_folder-Reaches output config level cores fs (reply u, fs') e d f h =
      (h, sym f, inr (ap (λ r. r.0) e))
  with_folder-Reaches output config level cores fs (refused x, fs') e d f h = (d, e)

  cores_for-Reaches :
      (output : Output) (config : LoggerConfig) (level : Level) (fs : Files)
      → Reaches output config level fs (cores_for lower_rune mkdir_all output config level fs)
  unfolding cores_for file_core
  cores_for-Reaches to_console config level fs =
      (λ l. (λ h. (inl (refl, h), tt), λ h. tt), refl, inl refl)
  cores_for-Reaches to_file config level fs =
      with_folder-Reaches to_file config level _ fs (folder_made config fs) refl (λ e. cc e) refl
        λ l. (λ h. (inl (refl, h), tt), λ h. (inr (inl (refl, h)), tt))
  cores_for-Reaches to_both config level fs =
      with_folder-Reaches to_both config level _ fs (folder_made config fs) refl (λ e. cc e) refl
        λ l. (λ h. (inl (refl, h), (inr (inl (refl, h)), tt)), λ h. (inr (inr (inl (refl, h))), tt))

  pub new_logger-Reaches :
      (config : LoggerConfig) (fs : Files)
      → Reaches
          (output_of lower_rune config.output)
          config
          (parse_log_level lower_rune config.level)
          fs
          (new_logger lower_rune mkdir_all config fs)
  unfolding new_logger
  new_logger-Reaches config fs =
      cores_for-Reaches (output_of lower_rune config.output) config
        (parse_log_level lower_rune config.level) fs
