-- ===== src/Config/Settings/Defaults.antt =====
-- What `Config.Validate` (config/config.go) leaves behind.
use mbsscaner.Prelude.{
  ℕ, zero, suc, ◌≡◌, ◌≢◌, subst, refl, ap, ap₂, ◌∙◌, ℤ, pos, negsuc, String, str_eq, eq_iff, List,
  ◌∷◌, true, false, Option, none, some, ◌⊎◌, inl, inr, Bool-cases,
}
use mbsscaner.Config.Types.{ModbusDevice}
use mbsscaner.Config.Settings.{
  KafkaConfig, LoggerConfig, ServiceConfig, AppConfig, ConfigError, is_positive, default_text,
  default_int, check_devices, validate_devices, check_kafka, default_kafka, default_logger,
  default_service, fill_defaults, after_checks, validate,
}

-- A default that is not empty, or positive, leaves such a value.
default_text-ne : (s d : String) → d ≢ "" → default_text s d ≢ ""
unfolding default_text
default_text-ne s d h = elim (Bool-cases (str_eq s "")) [
  | inl missing ↦ rw missing h
  | inr given ↦ rw given (λ e. cc ((eq_iff s "").1 e))
]

default_text-default_text :
    (s d : String) → d ≢ "" → default_text (default_text s d) d ≡ default_text s d
unfolding default_text
default_text-default_text s d h = elim (Bool-cases (str_eq s "")) [
  | inl missing ↦ rw missing (elim (Bool-cases (str_eq d "")) [ inl e ↦ rw e | inr e ↦ rw e ])
  | inr given ↦ rw given (rw given)
]

default_int-positive : (z : ℤ) (n : ℕ) → is_positive (default_int z (suc n)) ≡ true
unfolding default_int
default_int-positive (pos zero) n = refl
default_int-positive (pos (suc k)) n = refl
default_int-positive (negsuc k) n = refl

default_int-default_int :
    (z : ℤ) (n : ℕ) → default_int (default_int z (suc n)) (suc n) ≡ default_int z (suc n)
unfolding default_int
default_int-default_int (pos zero) n = refl
default_int-default_int (pos (suc k)) n = refl
default_int-default_int (negsuc k) n = refl

-- The settings of the logger and the service, and those of Kafka where it is enabled, are set: the
-- texts are not empty, the numbers are positive.
pub record IsFilled (c : AppConfig) : Type 0 where
  pub kafka :
      (c.kafka.enable ≡ false)
      ⊎ ((is_positive c.kafka.batch_size ≡ true) × (is_positive c.kafka.flush_frequency ≡ true))
  pub level : c.logger.level ≢ ""
  pub output : c.logger.output ≢ ""
  pub max_size : is_positive c.logger.max_size ≡ true
  pub max_backups : is_positive c.logger.max_backups ≡ true
  pub max_age : is_positive c.logger.max_age ≡ true
  pub name : c.service.name ≢ ""
  pub display_name : c.service.display_name ≢ ""
  pub description : c.service.description ≢ ""

literal : (s t : String) → str_eq s t ≡ false → s ≢ t
literal s t h e = cc ((eq_iff s t).1 e)

default_kafka-filled :
    (k : KafkaConfig)
    → ((default_kafka k).enable ≡ false)
      ⊎ ((is_positive (default_kafka k).batch_size ≡ true)
          × (is_positive (default_kafka k).flush_frequency ≡ true))
unfolding default_kafka
default_kafka-filled k = elim (Bool-cases k.enable) [
  | inl on ↦
      simp on
        (inr (default_int-positive k.batch_size 99, default_int-positive k.flush_frequency 99))
  | inr off ↦ simp off (inl refl)
]

fill_defaults-IsFilled : (c : AppConfig) → IsFilled (fill_defaults c)
unfolding fill_defaults default_logger default_service
fill_defaults-IsFilled c = record {
  kafka = default_kafka-filled c.kafka;
  level = default_text-ne c.logger.level "info" (literal "info" "" refl);
  output = default_text-ne c.logger.output "stdout" (literal "stdout" "" refl);
  max_size = default_int-positive c.logger.max_size 99;
  max_backups = default_int-positive c.logger.max_backups 2;
  max_age = default_int-positive c.logger.max_age 27;
  name = default_text-ne c.service.name "mbsscaner" (literal "mbsscaner" "" refl);
  display_name =
      default_text-ne c.service.display_name "MBS Scanner" (literal "MBS Scanner" "" refl);
  description =
      default_text-ne c.service.description "Modbus Data Scanner Service"
        (literal "Modbus Data Scanner Service" "" refl);
}

default_kafka-default_kafka : (k : KafkaConfig) → default_kafka (default_kafka k) ≡ default_kafka k
unfolding default_kafka
default_kafka-default_kafka k = elim (Bool-cases k.enable) [
  | inl on ↦ simp on (
      ap₂ (λ b f. record k { enable = true; batch_size = b; flush_frequency = f })
        (default_int-default_int k.batch_size 99) (default_int-default_int k.flush_frequency 99))
  | inr off ↦ simp off
]

default_logger-default_logger :
    (l : LoggerConfig) → default_logger (default_logger l) ≡ default_logger l
unfolding default_logger
default_logger-default_logger l = simp (
  default_text-default_text l.level "info" (literal "info" "" refl),
  default_text-default_text l.output "stdout" (literal "stdout" "" refl),
  default_int-default_int l.max_size 99,
  default_int-default_int l.max_backups 2,
  default_int-default_int l.max_age 27,
)

default_service-default_service :
    (s : ServiceConfig) → default_service (default_service s) ≡ default_service s
unfolding default_service
default_service-default_service s = simp (
  default_text-default_text s.name "mbsscaner" (literal "mbsscaner" "" refl),
  default_text-default_text s.display_name "MBS Scanner" (literal "MBS Scanner" "" refl),
  default_text-default_text s.description "Modbus Data Scanner Service"
      (literal "Modbus Data Scanner Service" "" refl),
)

fill_defaults-fill_defaults : (c : AppConfig) → fill_defaults (fill_defaults c) ≡ fill_defaults c
unfolding fill_defaults
fill_defaults-fill_defaults c = simp (
  default_kafka-default_kafka c.kafka,
  default_logger-default_logger c.logger,
  default_service-default_service c.service,
)

default_kafka-enable : (k : KafkaConfig) → (default_kafka k).enable ≡ k.enable
unfolding default_kafka
default_kafka-enable k = elim (Bool-cases k.enable) [ inl on ↦ simp on | inr off ↦ simp off ]

check_kafka-default_kafka : (k : KafkaConfig) → check_kafka (default_kafka k) ≡ check_kafka k
unfolding check_kafka default_kafka
check_kafka-default_kafka k = elim (Bool-cases k.enable) [ inl on ↦ simp on | inr off ↦ simp off ]

fill_defaults-devices : (c : AppConfig) → (fill_defaults c).devices ≡ c.devices
unfolding fill_defaults
fill_defaults-devices c = refl

fill_defaults-kafka : (c : AppConfig) → (fill_defaults c).kafka ≡ default_kafka c.kafka
unfolding fill_defaults
fill_defaults-kafka c = refl

validate-passes :
    (c : AppConfig)
    → validate_devices c.devices ≡ none
    → check_kafka c.kafka ≡ none
    → validate c ≡ (none, fill_defaults c)
unfolding validate after_checks
validate-passes c hd hk = simp (hd, hk)

-- Filling in the defaults of a configuration that passed leaves one that passes and stays.
fill_defaults-passes :
    (c : AppConfig)
    → validate_devices c.devices ≡ none
    → check_kafka c.kafka ≡ none
    → validate (fill_defaults c) ≡ (none, fill_defaults c)
fill_defaults-passes c hd hk =
    validate-passes (fill_defaults c) (ap validate_devices (fill_defaults-devices c) ∙ hd)
      (ap check_kafka (fill_defaults-kafka c) ∙ check_kafka-default_kafka c.kafka ∙ hk)
    ∙ ap (λ x. (none, x)) (fill_defaults-fill_defaults c)

-- If `Validate` accepts a configuration, the settings of the logger, the service and an enabled
-- Kafka are set in what it leaves behind, and validating that once more changes nothing.
pub validate-IsFilled :
    (c c' : AppConfig) → validate c ≡ (none, c') → IsFilled c' × (validate c' ≡ (none, c'))
unfolding validate after_checks
validate-IsFilled c c' h = go (validate_devices c.devices) refl (check_kafka c.kafka) refl h
  where
    go :
        (d : Option ConfigError)
        → validate_devices c.devices ≡ d
        → (k : Option ConfigError) → check_kafka c.kafka ≡ k
        → after_checks d k c ≡ (none, c')
        → IsFilled c' × (validate c' ≡ (none, c'))
    go (some e) hd k hk h = cc
    go none hd (some e) hk h = cc
    go none hd none hk h =
        subst (λ x. IsFilled x × (validate x ≡ (none, x))) (ap (λ r. r.1) h)
          (fill_defaults-IsFilled c, fill_defaults-passes c hd hk)

-- The timeout and the interval of the first device stay as they are given, positive or not, and
-- have no influence on what `Validate` answers or on anything else that it leaves behind.
pub interval_not_defaulted :
    (c : AppConfig) (d : ModbusDevice) (ds : List ModbusDevice) (timeout interval : ℤ)
    → c.devices ≡ d ∷ ds
    → validate (record c { devices = record d { timeout = timeout; interval = interval } ∷ ds }) ≡ (
      (validate c).0,
      record (validate c).1 { devices = record d { timeout = timeout; interval = interval } ∷ ds },
    )
unfolding validate after_checks fill_defaults validate_devices check_devices
interval_not_defaulted c d ds t v h = simp h (go (validate_devices (d ∷ ds)) (check_kafka c.kafka))
  where
    c2 : AppConfig
    c2 = record c { devices = record d { timeout = t; interval = v } ∷ ds }

    go :
        (e k : Option ConfigError)
        → after_checks e k c2 ≡ (
          (after_checks e k c).0,
          record (after_checks e k c).1 { devices = record d { timeout = t; interval = v } ∷ ds },
        )
    go (some e) k = refl
    go none (some e) = refl
    go none none = refl
