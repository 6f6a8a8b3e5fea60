-- ===== src/Modbus/Discovery.antt =====
-- Discovery and browsing of crates/proto-modbus/src/republish/mod.rs. The reads of a probe and of a
-- browse have no timeout, so their answers are values, exceptions or transport errors.

pub mod Named
pub mod Ascending
use netix_protocol_core.Prelude.{
  ℕ, zero, suc, ◌+◌, ◌-◌, ◌/◌, ◌%◌, Bool, true, false, not, ◌&&◌, ◌||◌, List, [], ◌∷◌, ◌++◌, map,
  Option, none, some, min, leb, range, filter_map, is_empty, length, is_some, or_else,
  if◌then◌else◌, ◌==◌,
}
use netix_protocol_core.Prelude.Eq.{beq, nat_eq, list_eq}
use netix_protocol_core.Prelude.Maps.{HashMap, get, insert}
use netix_protocol_core.Text.{Text, lit, trim, has}
use netix_protocol_core.Text.Numbers.{decimal, u16_max}
use netix_protocol_core.Model.{
  Addressing, DiscoveredDevice, DiscoveredPoint, DiscoverOutcome, BrowseOutcome, Float, JsonValue,
  TelemetryValue,
}
use netix_protocol_core.Model.Identity.{text_leb}
use netix_protocol_core.Model.Floats.{Floats}
use netix_protocol_core.Mqtt.Publisher.{Error}
use netix_protocol_core.Worker.Events.{Result, ok, err}
use netix_protocol_core.Modbus.Wire.{
  Answer, DeviceIdObject, ReadCode, ReadDeviceIdentificationResponse,
}
use netix_protocol_core.Modbus.Params.{ConnParams, anyhow, endpoint_label, parse_conn}
use netix_protocol_core.Modbus.Client.{Context}
use netix_protocol_core.Modbus.Scan.{parse_host_targets}

-- Whether a probe of a table ends the search: `none` at a transport error, or whether it can be read.
abbrev probed : {A : Type 0} → Answer A → Option Bool
probed Answer.elapsed = none
probed (Answer.failed e) = none
probed (Answer.exception e) = some false
probed (Answer.value a) = some true

abbrev first_table : List (Option Bool × Text) → Option Text
first_table [] = none
first_table ((none, t) ∷ ts) = none
first_table ((some true, t) ∷ ts) = some t
first_table ((some false, t) ∷ ts) = first_table ts

unfoldable probe_modbus : Context → Option Text
probe_modbus ctx = first_table (
    (probed (ctx.read_holding_registers 0 1), lit "holding")
    ∷ (probed (ctx.read_input_registers 0 1), lit "input")
    ∷ (probed (ctx.read_coils 0 1), lit "coil")
    ∷ (probed (ctx.read_discrete_inputs 0 1), lit "discrete")
    ∷ [])

pub data Identification : Type 0 where
  objects : HashMap ℕ Text → Identification
  refused silent : Identification

-- `entry(id).or_insert_with(…)`
abbrev keep_first : ℕ → Text → HashMap ℕ Text → HashMap ℕ Text
keep_first id text found = if is_some (get id found) then found else insert id text found

abbrev take_text : ℕ → Option Text → HashMap ℕ Text → HashMap ℕ Text
take_text id none found = found
take_text id (some t) found = if is_empty (trim t) then found else keep_first id (trim t) found

unfoldable pub collect_objects : List DeviceIdObject → HashMap ℕ Text → HashMap ℕ Text
unfolding get insert trim
collect_objects [] found = found
collect_objects (o ∷ os) found = collect_objects os (take_text o.id o.value found)

-- A client's identification reads: by category, reads left and first object.
abbrev pub Identify : Type 0
Identify = ReadCode → ℕ → ℕ → Answer ReadDeviceIdentificationResponse

abbrev broken : Identification → HashMap ℕ Text → Identification
broken outcome found = if is_empty found then outcome else Identification.objects found

unfoldable pub read_identification : Identify → ReadCode → ℕ → ℕ → HashMap ℕ Text → Identification
unfolding collect_objects
read_identification ask code zero object_id found = Identification.objects found
read_identification ask code (suc left) object_id found = elim (ask code left object_id) [
  | Answer.exception e ↦ broken Identification.refused found
  | Answer.elapsed ↦ broken Identification.silent found
  | Answer.failed e ↦ broken Identification.silent found
  | Answer.value response ↦
      let all = collect_objects response.device_id_objects found in
      let rest = read_identification ask code left response.next_object_id all in
      if response.more_follows then rest else Identification.objects all
]

-- `MAX_IDENTIFICATION_READS` reads from object 0 on
abbrev pub identification : Identify → ReadCode → Identification
identification ask code = read_identification ask code 4 0 []

abbrev basic_objects : Identification → HashMap ℕ Text
basic_objects (Identification.objects found) = found
basic_objects Identification.refused = []
basic_objects Identification.silent = []

abbrev best_objects : Identification → Identification → HashMap ℕ Text
best_objects (Identification.objects found) basic = found
best_objects Identification.refused basic = basic_objects basic
best_objects Identification.silent basic = []

abbrev names_of : HashMap ℕ Text → Option Text × Option Text
names_of found = (get 0 found, or_else (get 5 found) (or_else (get 4 found) (get 1 found)))

-- The vendor and the model.
unfoldable pub read_identity : Identify → Option Text × Option Text
unfolding read_identification get
read_identity ask =
    names_of
      (best_objects (identification ask ReadCode.regular) (identification ask ReadCode.basic))

-- `Ipv4Addr` in dotted form
unfoldable pub show_ipv4 : ℕ → Text
unfolding decimal
show_ipv4 a =
    decimal (a / 16_777_216 % 256)
    ++ (b'.' ∷ decimal (a / 65_536 % 256)
        ++ (b'.' ∷ decimal (a / 256 % 256) ++ (b'.' ∷ decimal (a % 256))))

abbrev dashed : ℕ → ℕ
dashed c = if c == b':' || c == b'.' then b'-' else c

abbrev found_device : ℕ → ConnParams → Text → Option Text × Option Text → DiscoveredDevice
found_device ip params table (vendor_name, model_name) =
    let label = endpoint_label (show_ipv4 ip) params.port in
    record {
      key = lit "modbus-" ++ map dashed label;
      instance_id = none;
      address = label;
      detail = lit "unit " ++ (decimal params.unit_id ++ (lit " (" ++ (table ++ lit ")")));
      vendor_id = none;
      vendor_name = vendor_name;
      model_name = model_name;
    }

-- What the connection to a host gives: `none`, or its reads.
abbrev pub Connect : Type 0
Connect = ℕ → Option (Context × Identify)

unfoldable probe_host : Connect → ConnParams → ℕ → Option DiscoveredDevice
unfolding probe_modbus read_identity endpoint_label show_ipv4 decimal
probe_host connect params ip = elim (connect ip) [
  | none ↦ none
  | some (ctx, ask) ↦ elim (probe_modbus ctx) [
    | none ↦ none
    | some table ↦ some (found_device ip params table (read_identity ask))
  ]
]

-- `sort_by(address)`, by insertion, and `dedup_by(address)`
unfoldable pub insert_device : DiscoveredDevice → List DiscoveredDevice → List DiscoveredDevice
insert_device d [] = d ∷ []
insert_device d (e ∷ es) =
    let rest = insert_device d es in if text_leb d.address e.address then d ∷ e ∷ es else e ∷ rest

unfoldable pub sort_devices : List DiscoveredDevice → List DiscoveredDevice
unfolding insert_device
sort_devices [] = []
sort_devices (d ∷ ds) = insert_device d (sort_devices ds)

-- Of devices with one address the first is kept.
unfoldable pub dedup_after : DiscoveredDevice → List DiscoveredDevice → List DiscoveredDevice
dedup_after d [] = []
dedup_after d (e ∷ es) =
    let kept = dedup_after d es in
    let rest = dedup_after e es in if beq d.address e.address then kept else e ∷ rest

unfoldable pub dedup_devices : List DiscoveredDevice → List DiscoveredDevice
unfolding dedup_after
dedup_devices [] = []
dedup_devices (d ∷ ds) = d ∷ dedup_after d ds

abbrev outcome_of : List DiscoveredDevice → DiscoverOutcome
outcome_of devices = record { devices = devices; warnings = [] }

abbrev single : ConnParams → Option DiscoveredDevice → Result DiscoverOutcome
single params none =
    err (anyhow (lit "no Modbus response at " ++ endpoint_label params.host params.port))
single params (some d) = ok (outcome_of (d ∷ []))

abbrev one_of : List ℕ → Option ℕ
one_of (t ∷ []) = some t
one_of [] = none
one_of (t ∷ u ∷ ts) = none

-- The probes of a scan answer in some order, `arrived targets`.
abbrev discovered : Connect → (List ℕ → List ℕ) → ConnParams → List ℕ → Result DiscoverOutcome
discovered connect arrived params targets =
    let found = filter_map (probe_host connect params) (arrived targets) in
    let scanned : Result DiscoverOutcome = ok (outcome_of (dedup_devices (sort_devices found))) in
    elim (one_of targets) [
      | none ↦ scanned
      | some t ↦
          if has b'/' params.host then scanned else single params (probe_host connect params t)
    ]

module _ (parse_ipv4 : Text → Option ℕ) (resolve : Text → Result (List ℕ)) where
  unfoldable pub discover :
      Error → Connect → (List ℕ → List ℕ) → Addressing → Result DiscoverOutcome
  unfolding parse_conn parse_host_targets probe_host sort_devices dedup_devices endpoint_label
  discover syntax connect arrived conn = elim (parse_conn conn) [
    | err e ↦ err e
    | ok params ↦ elim (parse_host_targets parse_ipv4 resolve syntax params.host params.max_hosts) [
      | err e ↦ err e
      | ok targets ↦ discovered connect arrived params targets
    ]
  ]
