-- ===== src/Tests/Settings.antt =====
-- Validation (config/points.go, config/config.go) at concrete inputs.
use mbsscaner.Prelude.{◌≡◌, refl, ◌↔◌, List, [], ◌∷◌, true, false, pos, negsuc, none, some}
use mbsscaner.Config.Types.{Point, RegisterType}
use mbsscaner.Config.Points.{validate_points, duplicate_address}
use mbsscaner.Config.Points.Valid.{IsValid, validate_points_iff}
use mbsscaner.Config.Settings.{AppConfig, validate, fill_defaults, invalid_port}
use mbsscaner.Config.Settings.Defaults.{interval_not_defaulted}
use mbsscaner.Config.Settings.Filled.{Fills, validate-Fills}
use mbsscaner.Tests.Grouping.{plant, point}
use mbsscaner.Tests.Reading.{plc}

-- One device; every setting that has a default is missing.
abbrev pub bare : AppConfig
bare = record {
  devices = plc ∷ [];
  kafka = record {
    enable = true;
    brokers = "broker:9092" ∷ [];
    topic = "points";
    compression = "";
    batch_size = pos 0;
    flush_frequency = negsuc 0;
  };
  logger = record {
    level = "";
    output = "";
    filename = "";
    max_size = pos 0;
    max_backups = pos 0;
    max_age = pos 0;
    compress = false;
  };
  service = record { name = ""; display_name = ""; description = "" };
  http = record { enable = false; addr = "" };
}

bare_passes : validate bare ≡ (none, fill_defaults bare)
unfolding validate
bare_passes = refl

bad_port :
    (validate (record bare { devices = record plc { port = pos 70000 } ∷ [] })).0
    ≡ some (invalid_port "plc")
unfolding validate
bad_port = refl

-- The second point has the address of the first.
abbrev clashing : List Point
clashing = point "a" RegisterType.coil 5 1 ∷ point "b" RegisterType.coil 5 2 ∷ []

repeated : validate_points clashing ≡ some (duplicate_address 1)
unfolding validate_points
repeated = refl

validate_points_iff_example : (validate_points plant ≡ none) ↔ IsValid plant
validate_points_iff_example = validate_points_iff plant

validate-Fills_example :
    Fills bare (fill_defaults bare) × (validate (fill_defaults bare) ≡ (none, fill_defaults bare))
validate-Fills_example = validate-Fills bare (fill_defaults bare) bare_passes

-- An interval of -1 is accepted and kept.
interval_not_defaulted_example :
    validate (record bare { devices = record plc { timeout = pos 0; interval = negsuc 0 } ∷ [] })
    ≡ (
      (validate bare).0,
      record (validate bare).1 {
        devices = record plc { timeout = pos 0; interval = negsuc 0 } ∷ [];
      },
    )
interval_not_defaulted_example = interval_not_defaulted bare plc [] (pos 0) (negsuc 0) refl
