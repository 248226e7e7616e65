-- ===== src/Config/Settings/Filled.antt =====
-- The defaults that `Config.Validate` (config/config.go) fills in, with their values.
use mbsscaner.Prelude.{
  ℕ, zero, suc, ◌≡◌, ◌≢◌, refl, sym, ap, subst, ℤ, pos, negsuc, String, str_eq, eq_iff, true, false,
  Option, none, some, ◌⊎◌, inl, inr, Bool-cases,
}
use mbsscaner.Config.Settings.{
  KafkaConfig, LoggerConfig, ServiceConfig, AppConfig, ConfigError, is_positive, default_text,
  default_int, validate_devices, check_kafka, default_kafka, default_logger, default_service,
  fill_defaults, after_checks, validate,
}
use mbsscaner.Config.Settings.Defaults.{validate-IsFilled}

-- The text `t` that is left of `s` with the default `d`.
abbrev pub FilledText : String → String → String → Type 0
FilledText s d t = ((s ≡ "") × (t ≡ d)) ⊎ ((s ≢ "") × (t ≡ s))

-- Greater than 0.
abbrev pub Positive : ℤ → Type 0
Positive (pos (suc n)) = Unit
Positive _ = ⊥

-- The number `w` that is left of `z` with the default `d`.
abbrev pub FilledNumber : ℤ → ℕ → ℤ → Type 0
FilledNumber z d w = (Positive z × (w ≡ z)) ⊎ ((Positive z → ⊥) × (w ≡ pos d))

default_text-FilledText : (s d : String) → FilledText s d (default_text s d)
unfolding default_text
default_text-FilledText s d = elim (Bool-cases (str_eq s "")) [
  | inl missing ↦ rw missing (inl ((eq_iff s "").0 missing, refl))
  | inr given ↦ rw given (inr (λ e. cc (given, (eq_iff s "").1 e), refl))
]

default_int-FilledNumber : (z : ℤ) (d : ℕ) → FilledNumber z d (default_int z d)
unfolding default_int is_positive
default_int-FilledNumber (pos zero) d = inr (λ h. h, refl)
default_int-FilledNumber (pos (suc n)) d = inl (tt, refl)
default_int-FilledNumber (negsuc n) d = inr (λ h. h, refl)

-- The settings of Kafka: the two numbers have defaults if it is enabled.
pub record FillsKafka (k k' : KafkaConfig) : Type 0 where
  pub enable : k'.enable ≡ k.enable
  pub brokers : k'.brokers ≡ k.brokers
  pub topic : k'.topic ≡ k.topic
  pub compression : k'.compression ≡ k.compression
  pub numbers :
      ((k.enable ≡ true)
        × FilledNumber k.batch_size 100 k'.batch_size
        × FilledNumber k.flush_frequency 100 k'.flush_frequency)
      ⊎ ((k.enable ≡ false)
          × (k'.batch_size ≡ k.batch_size)
          × (k'.flush_frequency ≡ k.flush_frequency))

pub record FillsLogger (l l' : LoggerConfig) : Type 0 where
  pub level : FilledText l.level "info" l'.level
  pub output : FilledText l.output "stdout" l'.output
  pub filename : l'.filename ≡ l.filename
  pub max_size : FilledNumber l.max_size 100 l'.max_size
  pub max_backups : FilledNumber l.max_backups 3 l'.max_backups
  pub max_age : FilledNumber l.max_age 28 l'.max_age
  pub compress : l'.compress ≡ l.compress

pub record FillsService (s s' : ServiceConfig) : Type 0 where
  pub name : FilledText s.name "mbsscaner" s'.name
  pub display_name : FilledText s.display_name "MBS Scanner" s'.display_name
  pub description : FilledText s.description "Modbus Data Scanner Service" s'.description

-- What the second configuration has for what the first was given.
pub record Fills (c c' : AppConfig) : Type 0 where
  pub devices : c'.devices ≡ c.devices
  pub kafka : FillsKafka c.kafka c'.kafka
  pub logger : FillsLogger c.logger c'.logger
  pub service : FillsService c.service c'.service
  pub http : c'.http ≡ c.http

default_kafka-FillsKafka : (k : KafkaConfig) → FillsKafka k (default_kafka k)
unfolding default_kafka
default_kafka-FillsKafka k = elim (Bool-cases k.enable) [
  | inl on ↦ simp on record {
    enable = sym on;
    brokers = refl;
    topic = refl;
    compression = refl;
    numbers = inl (
      on,
      default_int-FilledNumber k.batch_size 100,
      default_int-FilledNumber k.flush_frequency 100,
    );
  }
  | inr off ↦ simp off record {
    enable = refl;
    brokers = refl;
    topic = refl;
    compression = refl;
    numbers = inr (off, refl, refl);
  }
]

default_logger-FillsLogger : (l : LoggerConfig) → FillsLogger l (default_logger l)
unfolding default_logger
default_logger-FillsLogger l = record {
  level = default_text-FilledText l.level "info";
  output = default_text-FilledText l.output "stdout";
  filename = refl;
  max_size = default_int-FilledNumber l.max_size 100;
  max_backups = default_int-FilledNumber l.max_backups 3;
  max_age = default_int-FilledNumber l.max_age 28;
  compress = refl;
}

default_service-FillsService : (s : ServiceConfig) → FillsService s (default_service s)
unfolding default_service
default_service-FillsService s = record {
  name = default_text-FilledText s.name "mbsscaner";
  display_name = default_text-FilledText s.display_name "MBS Scanner";
  description = default_text-FilledText s.description "Modbus Data Scanner Service";
}

fill_defaults-Fills : (c : AppConfig) → Fills c (fill_defaults c)
unfolding fill_defaults
fill_defaults-Fills c = record {
  devices = refl;
  kafka = default_kafka-FillsKafka c.kafka;
  logger = default_logger-FillsLogger c.logger;
  service = default_service-FillsService c.service;
  http = refl;
}

after_checks-Fills :
    (d k : Option ConfigError) (c c' : AppConfig) → after_checks d k c ≡ (none, c') → Fills c c'
unfolding after_checks
after_checks-Fills (some e) k c c' h = cc
after_checks-Fills none (some e) c c' h = cc
after_checks-Fills none none c c' h = subst (Fills c) (ap (λ r. r.1) h) (fill_defaults-Fills c)

-- If `Validate` accepts a configuration, then in what it leaves behind an empty level is "info", an
-- empty output "stdout", a file size, a number of backups and an age of the log that are not
-- positive are 100, 3 and 28, the texts of the service have their defaults if they were empty, and,
-- where Kafka is enabled, a batch size and a flush frequency that are not positive are 100. Every
-- other setting, the devices with their timeouts and intervals among them, is as it was given.
-- Validating the result once more accepts it and changes nothing.
pub validate-Fills :
    (c c' : AppConfig) → validate c ≡ (none, c') → Fills c c' × (validate c' ≡ (none, c'))
unfolding validate
validate-Fills c c' h = (
  after_checks-Fills (validate_devices c.devices) (check_kafka c.kafka) c c' h,
  (validate-IsFilled c c' h).1,
)
