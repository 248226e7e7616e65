-- ===== src/Service/Launched/Exits.antt =====
-- How the process ends, or what it serves (main.go, pkg/service/service.go).
use mbsscaner.Prelude.{
  All, ◌≡◌, ◌≢◌, refl, sym, subst, String, List, [], ◌∷◌, true, false, Bool-cases, Option, none,
  some, ◌⊎◌, inl, inr,
}
use mbsscaner.Config.Settings.{AppConfig, ConfigError, validate}
use mbsscaner.Config.Settings.Defaults.{IsFilled, validate-IsFilled}
use mbsscaner.Modbus.Result.{Result, ok, err, panics, Reply, reply, refused}
use mbsscaner.Modbus.Collector.{Collector}
use mbsscaner.Logger.{Core, new_logger, output_of, parse_log_level}
use mbsscaner.Logger.Writes.{Writes, Reaches, new_logger-Reaches}
use mbsscaner.Service.{start, Registry, Polling, init, some_collector}
use mbsscaner.Service.Started.{IsClosed, init-IsClosed}
use mbsscaner.Service.Files.{PollsFormed, start-PollsFormed}
use mbsscaner.Service.Launched.{
  loader, Launch, launched, failed, crashed, then_launch, Flags, Service, after_validate,
  after_decode, after_logger, after_init, Host, Process, exits, serves, panicked, load_config,
  new_service, run, run_as_service, exit_code, after_absolute, main,
}

-- No panic, and a property of the value, if there is one.
abbrev Ensures : {A : Type 0} → (A → Type 0) → Launch A → Type 0
Ensures P (launched a) = P a
Ensures P (failed e) = Unit
Ensures P crashed = ⊥

then_launch-Ensures :
    {A B : Type 0} (Q : A → Type 0) (P : B → Type 0) (l : Launch A) (f : A → Launch B)
    → Ensures Q l
    → ((a : A) → Q a → Ensures P (f a))
    → Ensures P (then_launch l f)
then_launch-Ensures Q P (launched a) f h k = k a h
then_launch-Ensures Q P (failed e) f h k = tt
then_launch-Ensures Q P crashed f h k = h

-- A service whose logger, service and Kafka settings are set and whose logger writes where it says.
abbrev pub IsReady : Host → Service → Type 0
IsReady host s =
    IsFilled s.config
    × Writes (output_of host.lower_rune s.config.logger.output) s.config.logger
        (parse_log_level host.lower_rune s.config.logger.level) s.logger

-- A registry with a collector, in which the manager finds what the service registered.
abbrev pub IsServing : {Conn : Type 0} → Registry Conn → Type 0
IsServing r = (r.collectors ≢ []) × (r.collectors ≡ r.manager.collectors) × IsClosed r.manager

after_decode-Ensures : (r : Reply AppConfig) → Ensures IsFilled (after_decode r)
unfolding after_decode after_validate
after_decode-Ensures (refused e) = tt
after_decode-Ensures (reply c) = checked (validate c) refl
  where
    checked :
        (r : Option ConfigError × AppConfig) → validate c ≡ r → Ensures IsFilled (after_validate r)
    checked (some e, c') h = tt
    checked (none, c') h = (validate-IsFilled c c' h).0

module _ (host : Host) where
  new_service-Ensures :
      (file : String) (fs : host.Files) → Ensures (IsReady host) (new_service host file fs)
  unfolding new_service load_config after_logger
  new_service-Ensures file fs =
      then_launch-Ensures IsFilled (IsReady host) (after_decode (host.decode file)) _
        (after_decode-Ensures (host.decode file))
        λ c filled.
          logged c filled (new_logger host.lower_rune host.mkdir_all c.logger fs)
            (new_logger-Reaches host.lower_rune host.mkdir_all c.logger fs)
    where
      logged :
          (c : AppConfig)
          → IsFilled c
          → (r : Result (List Core) × host.Files)
          → Reaches host.lower_rune host.mkdir_all
              (output_of host.lower_rune c.logger.output)
              c.logger
              (parse_log_level host.lower_rune c.logger.level)
              fs
              r
          → Ensures (IsReady host) (after_logger c r)
      logged c filled (ok cores, fs') h = (filled, h.0)
      logged c filled (err e, fs') h = tt
      logged c filled (panics, fs') h = h

  open host use {client, new_client, lower_rune, parse_float, read_csv}
  open client use {Conn}

  some_collector-ok :
      (s r : Registry Conn) (cs : List (String × Collector Conn))
      → s.collectors ≡ cs
      → some_collector client new_client (loader host) s cs ≡ ok r
      → r.collectors ≢ []
  some_collector-ok s r [] e h = cc
  some_collector-ok s r (c ∷ cs) e h =
      let same : s ≡ r = cc h in
      subst (λ (x : Registry Conn). x.collectors ≢ []) same λ none_left. cc (e, none_left)

  some_collector_panics_never :
      (s : Registry Conn) (cs : List (String × Collector Conn))
      → some_collector client new_client (loader host) s cs ≢ panics
  some_collector_panics_never s [] h = cc h
  some_collector_panics_never s (c ∷ cs) h = cc h

  init-IsServing :
      (s : Service)
      → (r : Result (Registry Conn)) → init client new_client (loader host) s.config.devices ≡ r
      → Ensures IsServing (after_init r)
  unfolding init after_init
  init-IsServing s (ok r) h =
      let (same, closed) = init-IsClosed client new_client (loader host) s.config.devices r h in
      (some_collector-ok _ r _ refl h, same, closed)
  init-IsServing s (err e) h = tt
  init-IsServing s panics h = some_collector_panics_never _ _ h

  -- A registry that serves, and goroutines whose points are well-formed.
  abbrev pub Runs : Registry Conn × List (Polling Conn) → Type 0
  Runs (r, ps) =
      IsServing r × All (PollsFormed lower_rune parse_float read_csv client new_client) ps

  run-Ensures : (s : Service) → Ensures Runs (run host s)
  unfolding run
  run-Ensures s =
      then_launch-Ensures IsServing Runs
        (after_init (init client new_client (loader host) s.config.devices))
        (λ r. launched (r, start client new_client (loader host) s.config.devices r))
        (init-IsServing s (init client new_client (loader host) s.config.devices) refl)
        λ r h. (
          h,
          start-PollsFormed lower_rune parse_float read_csv client new_client s.config.devices r,
        )

  run_as_service-Ensures :
      (file : String) (fs : host.Files) → Ensures Runs (run_as_service host file fs)
  unfolding run_as_service
  run_as_service-Ensures file fs =
      then_launch-Ensures (IsReady host) Runs (new_service host file fs) (run host)
        (new_service-Ensures file fs) λ s h. run-Ensures s

  -- What the process does, for the flags that it was given.
  abbrev pub Behaves : Flags → Process Conn → Type 0
  Behaves flags (exits n) =
      ((n ≡ 0) × ((flags.version ≡ true) ⊎ (flags.help ≡ true)))
      ⊎ ((n ≡ 1) × (flags.version ≡ false) × (flags.help ≡ false))
  Behaves flags (serves r ps) =
      (flags.version ≡ false)
      × (flags.help ≡ false)
      × (host.exists flags.config ≡ true)
      × Runs (r, ps)
  Behaves flags panicked = ⊥

  after_absolute-Behaves :
      (flags : Flags) (r : Reply String) (fs : host.Files)
      → flags.version ≡ false
      → flags.help ≡ false
      → host.exists flags.config ≡ true
      → Behaves flags (after_absolute host r fs)
  unfolding after_absolute
  after_absolute-Behaves flags (refused e) fs v h x = inr (refl, v, h)
  after_absolute-Behaves flags (reply path) fs v h x =
      exit_code-Behaves (run_as_service host path fs) (run_as_service-Ensures path fs)
    where
      exit_code-Behaves :
          (l : Launch (Registry Conn × List (Polling Conn)))
          → Ensures Runs l
          → Behaves flags (exit_code host l)
      exit_code-Behaves (launched (r, ps)) k = (v, h, x, k)
      exit_code-Behaves (failed e) k = inr (refl, v, h)
      exit_code-Behaves crashed k = k

  main_for_version :
      (flags : Flags) (fs : host.Files) → flags.version ≡ true → main host flags fs ≡ exits 0
  unfolding main
  main_for_version flags fs v = simp v

  main_for_help :
      (flags : Flags) (fs : host.Files)
      → flags.version ≡ false
      → flags.help ≡ true
      → main host flags fs ≡ exits 0
  unfolding main
  main_for_help flags fs v h = simp (v, h)

  main_without_file :
      (flags : Flags) (fs : host.Files)
      → flags.version ≡ false
      → flags.help ≡ false
      → host.exists flags.config ≡ false
      → main host flags fs ≡ exits 1
  unfolding main
  main_without_file flags fs v h x = simp (v, h, x)

  main_with_file :
      (flags : Flags) (fs : host.Files)
      → flags.version ≡ false
      → flags.help ≡ false
      → host.exists flags.config ≡ true
      → main host flags fs ≡ after_absolute host (host.absolute flags.config) fs
  unfolding main
  main_with_file flags fs v h x = simp (v, h, x)

  -- The process ends at once with status 0 exactly if it was asked for its version or for help.
  -- Otherwise it ends with status 1, or serves: then the configuration file exists, the service has
  -- a collector, its manager holds the same collectors and leads from every name to a collector and
  -- a point, or does not know the name, and every goroutine polls at least one point, each with a
  -- name, a 16-bit address and length, and known types. It does not panic on the way.
  pub main-Behaves : (flags : Flags) (fs : host.Files) → Behaves flags (main host flags fs)
  main-Behaves flags fs = elim (Bool-cases flags.version) [
    | inl v ↦ subst (Behaves flags) (sym (main_for_version flags fs v)) (inl (refl, inl v))
    | inr v ↦ elim (Bool-cases flags.help) [
      | inl h ↦ subst (Behaves flags) (sym (main_for_help flags fs v h)) (inl (refl, inr h))
      | inr h ↦ elim (Bool-cases (host.exists flags.config)) [
        | inl x ↦
            subst (Behaves flags) (sym (main_with_file flags fs v h x))
              (after_absolute-Behaves flags (host.absolute flags.config) fs v h x)
        | inr x ↦ subst (Behaves flags) (sym (main_without_file flags fs v h x)) (inr (refl, v, h))
      ]
    ]
  ]
