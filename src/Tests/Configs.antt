-- ===== src/Tests/Configs.antt =====
-- Examples for the configuration (crates/republish-core/src/config.rs).
use netix_protocol_core.Prelude.{◌≡◌, refl, false, [], ◌∷◌, none, some}
use netix_protocol_core.Prelude.Eq.{nat_eq, list_eq}
use netix_protocol_core.Text.{lit, is_blank}
use netix_protocol_core.Topic.{validate_publish_topic, device_envelope_topic}
use netix_protocol_core.Model.{Addressing, JsonValue}
use netix_protocol_core.Config.App.{
  AppConfig, valid, validate, check_envelope, check_point, check_points,
}
use netix_protocol_core.Config.Checks.{IsPublishable, validate-IsPublishable}
use netix_protocol_core.Tests.Fixtures.{config, supply, disabled}

abbrev bacnet : Addressing
bacnet =
    (lit "interface", JsonValue.string (lit "eth0"))
    ∷ (lit "port", JsonValue.number (record { as_u64 = some 47808; display = lit "47808" }))
    ∷ []

abbrev app : AppConfig
app = record {
  version = 1;
  protocol = lit "bacnet";
  connections = (lit "bacnet", bacnet) ∷ [];
  mqtt = config;
  points = supply ∷ disabled ∷ [];
  discover_on_start = false;
  sim_config_checksum = none;
}

app_valid : validate app ≡ valid
unfolding validate check_envelope check_point check_points is_blank validate_publish_topic
    device_envelope_topic
app_valid = refl

validate-IsPublishable_example : IsPublishable app
validate-IsPublishable_example = validate-IsPublishable app app_valid
