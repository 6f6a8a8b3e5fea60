-- ===== src/Modbus/Client/Served.antt =====
-- A point of the simulator, crates/proto-modbus/src/sim, read by the client of src/republish.
use netix_protocol_core.Prelude.{
  ℕ, ◌+◌, ◌/◌, ◌%◌, ◌≡◌, refl, ap, ◌∙◌, ◌⊎◌, inl, inr, Bool, false, List, [], ◌∷◌, ◌++◌, Option,
  none, some, unwrap_or, arith, if◌then◌else◌,
}
use netix_protocol_core.Prelude.Eq.{nat_eq, list_eq}
use netix_protocol_core.Text.{Text, lit, trim}
use netix_protocol_core.Model.{Float, PointConfig, TelemetryValue}
use netix_protocol_core.Model.Floats.{Floats}
use netix_protocol_core.Model.Neutral.{PointKind, PointValue}
use netix_protocol_core.Simulator.Points.{
  SimulatedPoint, SimulatedDevice, to_ascii_lowercase, point_value,
}
use netix_protocol_core.Simulator.Points.Lookup.{Holds, neutral_value-Holds}
use netix_protocol_core.Simulator.Metrics.{AppMetrics}
use netix_protocol_core.Worker.Events.{ok}
use netix_protocol_core.Modbus.{ExceptionCode, illegal_function, illegal_data_address, word}
use netix_protocol_core.Modbus.Wire.{Request, Response, Reply, Answer}
use netix_protocol_core.Modbus.Image.{
  build_modbus_map, f32_word, number_of, bool_of, rounded, read_registers, read_bits,
}
use netix_protocol_core.Modbus.Image.Assembly.{
  point_registers, device_registers, point_bits, device_bits, reg_width, bit_width,
}
use netix_protocol_core.Modbus.Image.Placing.{current, shown_words, shown_bits, read-build}
use netix_protocol_core.Modbus.Service.{ModbusService, call, handle_request}
use netix_protocol_core.Modbus.Client.{
  Context, read_point, decode, scale_of, table_of, address_of, datatype_of, word_order_of,
  bit_value, scaled, words_for,
}
use netix_protocol_core.Modbus.Client.Words.{pair_of, decode-pair_of}

abbrev exception_text : ExceptionCode → Text
exception_text illegal_function = lit "IllegalFunction"
exception_text illegal_data_address = lit "IllegalDataAddress"

-- What a client call gets of a reply: the registers or bits, or the exception.
abbrev registers_of : Option Reply → Answer (List ℕ)
registers_of (some (Reply.ok (Response.read_holding_registers ws))) = Answer.value ws
registers_of (some (Reply.ok (Response.read_input_registers ws))) = Answer.value ws
registers_of (some (Reply.ok _)) = Answer.failed (lit "unexpected response")
registers_of (some (Reply.err code)) = Answer.exception (exception_text code)
registers_of none = Answer.failed (lit "connection closed")

abbrev bits_of_reply : Option Reply → Answer (List Bool)
bits_of_reply (some (Reply.ok (Response.read_coils bs))) = Answer.value bs
bits_of_reply (some (Reply.ok (Response.read_discrete_inputs bs))) = Answer.value bs
bits_of_reply (some (Reply.ok _)) = Answer.failed (lit "unexpected response")
bits_of_reply (some (Reply.err code)) = Answer.exception (exception_text code)
bits_of_reply none = Answer.failed (lit "connection closed")

abbrev IsRegisterTable : PointConfig → Type 0
IsRegisterTable c = (table_of c ≡ lit "holding") ⊎ (table_of c ≡ lit "input")

-- A configured point that fits a point of the image: an analog one is read as a big-endian `f32`, a
-- multi-state one as `u16`, both from a register table, and a binary one from a bit table.
abbrev Fits :
    {F32 : Type 0}
    → PointKind
    → List (SimulatedDevice F32)
    → List (SimulatedPoint F32)
    → PointConfig
    → Type 0
Fits PointKind.analog before ps c =
    IsRegisterTable c
    × (datatype_of c ≡ lit "f32")
    × (word_order_of c ≡ lit "big")
    × (address_of c ≡ device_registers before + point_registers ps)
Fits PointKind.multi_state before ps c =
    IsRegisterTable c
    × (datatype_of c ≡ lit "u16")
    × (address_of c ≡ device_registers before + point_registers ps)
Fits PointKind.binary before ps c =
    ((table_of c ≡ lit "coil") ⊎ (table_of c ≡ lit "discrete"))
    × (address_of c ≡ device_bits before + point_bits ps)
Fits PointKind.text before ps c = ⊥

module _ {F32 : Type 0} (fp : Floats F32) where
  -- A client that is connected to the service.
  abbrev pub client_of : ModbusService F32 → AppMetrics → Context
  client_of s m = record {
    read_holding_registers =
        λ a n. registers_of (call fp s (Request.read_holding_registers a n) m).1;
    read_input_registers = λ a n. registers_of (call fp s (Request.read_input_registers a n) m).1;
    read_coils = λ a n. bits_of_reply (call fp s (Request.read_coils a n) m).1;
    read_discrete_inputs = λ a n. bits_of_reply (call fp s (Request.read_discrete_inputs a n) m).1;
  }

  -- The number that is polled of a value.
  abbrev pub seen : PointKind → Option PointValue → Float → Float
  seen PointKind.analog v scale =
      fp.mul64
        (fp.widen (fp.from_bits (fp.to_bits (fp.narrow (unwrap_or (number_of fp v) (fp.nat64 0))))))
        scale
  seen PointKind.multi_state v scale = fp.mul64 (fp.nat64 (rounded fp (number_of fp v))) scale
  seen PointKind.binary v scale = if unwrap_or (bool_of fp v) false then fp.nat64 1 else fp.nat64 0
  seen PointKind.text v scale = fp.nat64 0

  shown_words-pair_of :
      (v : Option PointValue)
      → shown_words fp PointKind.analog v
        ≡ pair_of false (fp.to_bits (fp.narrow (unwrap_or (number_of fp v) (fp.nat64 0))))
  unfolding f32_word
  shown_words-pair_of v =
      let bits = fp.to_bits (fp.narrow (unwrap_or (number_of fp v) (fp.nat64 0))) in
      let high : bits / word % word ≡ bits / word =
        omega (arith, fp.to_bits_lt (fp.narrow (unwrap_or (number_of fp v) (fp.nat64 0)))) in
      ap (λ w. w ∷ bits % word ∷ []) high

  module _ (s : ModbusService F32) (m : AppMetrics) (c : PointConfig) where
    -- A read through the client, where the service reads the range.
    registers-read :
        (a n : ℕ) (ws : List ℕ)
        → IsRegisterTable c
        → words_for (datatype_of c) ≡ n
        → address_of c ≡ a
        → read_registers fp s.sim s.image a n ≡ some (some ws)
        → read_point fp (client_of s m) c
          ≡ scaled fp (scale_of fp c) (decode fp ws (datatype_of c) (word_order_of c))
    unfolding read_point call handle_request
    registers-read a n ws (inl t) w at r = rw (t, w, at, r) refl
    registers-read a n ws (inr t) w at r = rw (t, w, at, r) refl

    bits-read :
        (a : ℕ) (bs : List Bool)
        → (table_of c ≡ lit "coil") ⊎ (table_of c ≡ lit "discrete")
        → address_of c ≡ a
        → read_bits fp s.sim s.image a 1 ≡ some (some bs)
        → read_point fp (client_of s m) c ≡ bit_value fp bs
    unfolding read_point call handle_request
    bits-read a bs (inl t) at r = rw (t, at, r) refl
    bits-read a bs (inr t) at r = rw (t, at, r) refl

    read_point-kind :
        (k : PointKind) (v : Option PointValue) (before : List (SimulatedDevice F32))
        (ps : List (SimulatedPoint F32))
        → Fits k before ps c
        → read_registers fp s.sim s.image
            (device_registers before + point_registers ps)
            (reg_width k)
          ≡ some (some (shown_words fp k v))
        → read_bits fp s.sim s.image (device_bits before + point_bits ps) (bit_width k)
          ≡ some (some (shown_bits fp k v))
        → read_point fp (client_of s m) c
          ≡ some (ok (TelemetryValue.number (seen k v (scale_of fp c))))
    read_point-kind PointKind.analog v before ps (table, type, order, at) words bits =
        let w : words_for (datatype_of c) ≡ 2 = ap words_for type in
        let all = words ∙ ap (λ l. some (some l)) (shown_words-pair_of v) in
        registers-read (device_registers before + point_registers ps) 2
          (pair_of false (fp.to_bits (fp.narrow (unwrap_or (number_of fp v) (fp.nat64 0))))) table w
          at all
        ∙ rw (type, order) (ap (scaled fp (scale_of fp c)) (decode-pair_of fp _ (lit "big")).2)
    read_point-kind PointKind.multi_state v before ps (table, type, at) words bits =
        let w : words_for (datatype_of c) ≡ 1 = ap words_for type in
        registers-read (device_registers before + point_registers ps) 1 _ table w at words
        ∙ rw (type) (unfold decode in refl)
    read_point-kind PointKind.binary v before ps (table, at) words bits =
        bits-read (device_bits before + point_bits ps) _ table at bits
    read_point-kind PointKind.text v before ps fits words bits = elim fits [ ]

-- A point of the simulator, polled at the address that the points before it leave, as its kind wants,
-- gives the number that its value at that moment encodes to: an analog point the value that its 32
-- bits stand for, a multi-state point its rounded and clamped number, both times the configured scale,
-- and a binary point 1 or 0. The value is that of the simulation's first point of the object type and
-- number in its first device of the id. The object type is trimmed and in lower case, and the image is
-- the one built at the start, of any devices.
pub read_point-served :
    {F32 : Type 0} (fp : Floats F32) (s : ModbusService F32) (m : AppMetrics) (c : PointConfig)
    (before after : List (SimulatedDevice F32)) (d : SimulatedDevice F32)
    (ps qs : List (SimulatedPoint F32)) (p q : SimulatedPoint F32)
    → s.image ≡ build_modbus_map (before ++ d ∷ after)
    → d.points ≡ ps ++ p ∷ qs
    → Fits p.kind before ps c
    → Holds s.sim d.device_id p.object_type p.instance_number q
    → to_ascii_lowercase (trim p.object_type) ≡ p.object_type
    → read_point fp (client_of fp s m) c
      ≡ some (
          ok (
            TelemetryValue.number (seen fp p.kind (some (point_value fp q.value)) (scale_of fp c))))
read_point-served fp s m c before after d ps qs p q image at fits holds lower =
    let (words, bits) = read-build fp s.sim before after d ps qs p at in
    read_point-kind fp s m c p.kind (current fp s.sim d p) before ps fits (rw (image) words)
      (rw (image) bits)
    ∙ ap (λ v. some (ok (TelemetryValue.number (seen fp p.kind v (scale_of fp c)))))
        (neutral_value-Holds fp s.sim d.device_id p.object_type p.instance_number q holds lower)
