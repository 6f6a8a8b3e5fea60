-- ===== src/Bacnet/Discovery.antt =====
-- Discovery in crates/proto-bacnet/src/republish/mod.rs: the devices that answer Who-Is, by instance.
pub mod Table
pub mod Distinct
use netix_protocol_core.Prelude.{
  ℕ, zero, suc, ◌+◌, ◌*◌, ◌/◌, ◌%◌, Bool, List, [], ◌∷◌, ◌++◌, map, Option, none, some, unwrap_or,
  is_empty, leb, length, if◌then◌else◌,
}
use netix_protocol_core.Prelude.Eq.{nat_eq}
use netix_protocol_core.Prelude.Maps.{HashMap, insert}
use netix_protocol_core.Text.{Text, lit, trim, is_blank, join}
use netix_protocol_core.Text.Numbers.{decimal}
use netix_protocol_core.Model.{DiscoveredDevice, DiscoverOutcome, TelemetryValue, show_value}
use netix_protocol_core.Model.Identity.{text_leb}
use netix_protocol_core.Model.Neutral.{base_key}
use netix_protocol_core.Mqtt.Publisher.{Error}
use netix_protocol_core.Worker.Events.{Result, ok, err}
use netix_protocol_core.Modbus.Params.{anyhow}
use netix_protocol_core.Modbus.Discovery.{show_ipv4}
use netix_protocol_core.Bacnet.Value.{hex}
use netix_protocol_core.Bacnet.Settings.{
  BindFailurePolicy, ConnCfg, NetworkInterface, device_key, target_interfaces,
}

-- An entry of the client's device table, with what reads of its name, vendor and model give.
pub record Answering : Type 0 where
  pub device_instance : ℕ
  pub mac : List ℕ
  pub vendor : ℕ
  pub object_name : Option TelemetryValue
  pub vendor_name : Option TelemetryValue
  pub model_name : Option TelemetryValue

-- `format_bip_mac`: an address and a port, or the bytes
unfoldable format_bip_mac : List ℕ → Text
unfolding show_ipv4 decimal hex join
format_bip_mac (a ∷ b ∷ c ∷ d ∷ e ∷ f ∷ rest) =
    show_ipv4 (a * 16_777_216 + b * 65_536 + c * 256 + d) ++ (b':' ∷ decimal (e * 256 + f))
format_bip_mac mac = join (lit ":") (map (λ b. hex (b ∷ [])) mac)

abbrev named_key : ℕ → Option TelemetryValue → Text
named_key n none = device_key n
named_key n (some v) =
    if is_blank (show_value v) then device_key n else base_key (trim (show_value v))

-- `resolve_device_key`, for an instance that is a valid identifier
unfoldable resolve_device_key : ℕ → Option TelemetryValue → Text
unfolding device_key base_key trim is_blank
resolve_device_key n name = named_key n name

-- `read_device_text`
unfoldable read_device_text : Option TelemetryValue → Option Text
unfolding trim
read_device_text none = none
read_device_text (some v) =
    if is_empty (trim (show_value v)) then none else some (trim (show_value v))

abbrev collected : Answering → DiscoveredDevice
collected a = record {
  key = resolve_device_key a.device_instance a.object_name;
  instance_id = some a.device_instance;
  address = format_bip_mac a.mac;
  detail = lit "instance " ++ (decimal a.device_instance ++ (lit ", vendor " ++ decimal a.vendor));
  vendor_id = some a.vendor;
  vendor_name = read_device_text a.vendor_name;
  model_name = read_device_text a.model_name;
}

-- `sort_by(key)`, by insertion
unfoldable pub insert_by_key : DiscoveredDevice → List DiscoveredDevice → List DiscoveredDevice
insert_by_key d [] = d ∷ []
insert_by_key d (e ∷ es) =
    let rest = insert_by_key d es in if text_leb d.key e.key then d ∷ e ∷ es else e ∷ rest

unfoldable pub sort_by_key : List DiscoveredDevice → List DiscoveredDevice
unfolding insert_by_key
sort_by_key [] = []
sort_by_key (d ∷ ds) = insert_by_key d (sort_by_key ds)

unfoldable pub collect_devices : List Answering → List DiscoveredDevice
unfolding sort_by_key resolve_device_key format_bip_mac read_device_text decimal
collect_devices answers = sort_by_key (map collected answers)

abbrev pub Devices : Type 0
Devices = HashMap ℕ DiscoveredDevice

-- `by_instance.insert(device.instance.unwrap_or_default(), device)` for each device
unfoldable pub insert_devices : List DiscoveredDevice → Devices → Devices
insert_devices [] found = found
insert_devices (d ∷ ds) found = insert_devices ds (insert (unwrap_or d.instance_id 0) d found)

-- The passes of one client: `none` where its Who-Is fails, which ends them.
unfoldable pub broadcast_passes : List (Option (List Answering)) → Devices → Devices
unfolding insert_devices collect_devices
broadcast_passes [] found = found
broadcast_passes (none ∷ passes) found = found
broadcast_passes (some answers ∷ passes) found =
    broadcast_passes passes (insert_devices (collect_devices answers) found)

-- What a client bound to an interface answers in its `DISCOVERY_BROADCAST_PASSES` passes, or why it
-- cannot be built.
abbrev pub Bind : Type 0
Bind = ℕ → Result (List (Option (List Answering)))

abbrev pub first_passes : List (Option (List Answering)) → List (Option (List Answering))
first_passes (a ∷ b ∷ c ∷ more) = a ∷ b ∷ c ∷ []
first_passes passes = passes

abbrev bind_failed : ℕ → Error → Text
bind_failed addr e = lit "bind failed on " ++ (show_ipv4 addr ++ (lit ": " ++ e.chain))

pub record Found : Type 0 where
  pub by_instance : Devices
  pub warnings : List Text

abbrev pub after_failure : BindFailurePolicy → Text → Found → (Found → Result Found) → Result Found
after_failure BindFailurePolicy.strict message found next = err (anyhow message)
after_failure BindFailurePolicy.skip message found next =
    next (record found { warnings = found.warnings ++ message ∷ [] })

-- The loop over the interfaces.
unfoldable pub scan_interfaces : Bind → BindFailurePolicy → List ℕ → Found → Result Found
unfolding broadcast_passes show_ipv4
scan_interfaces bind policy [] found = ok found
scan_interfaces bind policy (addr ∷ addrs) found = elim (bind addr) [
  | err e ↦ after_failure policy (bind_failed addr e) found (scan_interfaces bind policy addrs)
  | ok passes ↦
      scan_interfaces bind policy addrs
        (record found { by_instance = broadcast_passes (first_passes passes) found.by_instance })
]

abbrev pub values : Devices → List DiscoveredDevice
values [] = []
values ((n, d) ∷ found) = d ∷ values found

abbrev pub sorted_outcome : Result Found → Result DiscoverOutcome
sorted_outcome (err e) = err e
sorted_outcome (ok found) =
    ok (record { devices = sort_by_key (values found.by_instance); warnings = found.warnings })

-- `discover`
unfoldable pub discover : Bind → ConnCfg → List NetworkInterface → Result DiscoverOutcome
unfolding scan_interfaces target_interfaces sort_by_key
discover bind cfg interfaces = sorted_outcome (
    scan_interfaces bind cfg.bind_failure_policy (target_interfaces cfg interfaces)
      (record { by_instance = []; warnings = [] }))
