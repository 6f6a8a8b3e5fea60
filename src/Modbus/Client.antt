-- ===== src/Modbus/Client.antt =====
-- Polling of crates/proto-modbus/src/republish/mod.rs: `read_point`, `decode` and `poll`. A register
-- list that a response leaves empty where `decode` indexes it is a panic, `none`.
pub mod Words
pub mod Served
use netix_protocol_core.Prelude.{
  ℕ, ◌+◌, ◌-◌, ◌*◌, ◌%◌, suc, Bool, true, false, not, List, [], ◌∷◌, ◌++◌, Option, none, some, ltb,
  unwrap_or, is_empty, if◌then◌else◌, ◌||◌,
}
use netix_protocol_core.Prelude.Int.{ℤ, pos, negsuc}
use netix_protocol_core.Prelude.Eq.{beq, nat_eq, list_eq}
use netix_protocol_core.Prelude.Maps.{get}
use netix_protocol_core.Text.{Text, lit, trim}
use netix_protocol_core.Model.{
  Addressing, Float, JsonValue, PointConfig, PointSample, PointFailure, PollOutcome, TelemetryValue,
}
use netix_protocol_core.Model.Floats.{Floats}
use netix_protocol_core.Worker.Events.{Result, ok, err}
use netix_protocol_core.Mqtt.Publisher.{Error}
use netix_protocol_core.Modbus.{word}
use netix_protocol_core.Modbus.Wire.{Answer}
use netix_protocol_core.Modbus.Params.{ConnParams, parse_conn, anyhow, scalar_of, u64_of}

-- The reads of a connected client, at an address and for a number of registers or bits.
pub record Context : Type 0 where
  pub read_holding_registers : ℕ → ℕ → Answer (List ℕ)
  pub read_input_registers : ℕ → ℕ → Answer (List ℕ)
  pub read_coils : ℕ → ℕ → Answer (List Bool)
  pub read_discrete_inputs : ℕ → ℕ → Answer (List Bool)

unfoldable pub addr_str : PointConfig → Text → Option Text
unfolding get
addr_str p key = scalar_of (get key p.addressing)

unfoldable pub addr_u64 : PointConfig → Text → Option ℕ
unfolding get
addr_u64 p key = u64_of (get key p.addressing)

-- How a point is to be read.
abbrev pub table_of : PointConfig → Text
table_of p = unwrap_or (addr_str p (lit "table")) (lit "holding")

abbrev pub address_of : PointConfig → ℕ
address_of p = unwrap_or (addr_u64 p (lit "address")) 0 % word

abbrev pub datatype_of : PointConfig → Text
datatype_of p = unwrap_or (addr_str p (lit "datatype")) (lit "u16")

abbrev pub word_order_of : PointConfig → Text
word_order_of p = unwrap_or (addr_str p (lit "word_order")) (lit "big")

-- `w as i16`, `w as i32`
abbrev pub signed : ℕ → ℕ → ℤ
signed half w = if ltb w half then pos w else negsuc (half + half - w - 1)

-- The closure `combined`; the two registers have 16 bits, so `|` adds.
unfoldable pub combined : Bool → ℕ → ℕ → ℕ
combined little hi lo = if little then lo * word + hi else hi * word + lo

abbrev pub words_for : Text → ℕ
words_for datatype =
    if beq datatype (lit "u32") || (beq datatype (lit "i32") || beq datatype (lit "f32"))
    then 2
    else 1

module _ {F32 : Type 0} (fp : Floats F32) where
  abbrev first_or : List ℕ → (ℕ → Float) → Option (Result Float)
  first_or [] f = some (err (anyhow (lit "no register")))
  first_or (r ∷ rs) f = some (ok (f r))

  -- `regs[0]` and `regs.get(1).unwrap_or(&0)`
  abbrev pub both : Bool → List ℕ → (ℕ → Float) → Option (Result Float)
  both little [] f = none
  both little (hi ∷ []) f = some (ok (f (combined little hi 0)))
  both little (hi ∷ lo ∷ rs) f = some (ok (f (combined little hi lo)))

  unfoldable pub decode : List ℕ → Text → Text → Option (Result Float)
  unfolding combined
  decode regs datatype word_order =
      let little = beq word_order (lit "little") in
      if beq datatype (lit "u16")
      then first_or regs fp.nat64
      else if beq datatype (lit "i16")
      then first_or regs (λ r. fp.int64 (signed 32768 r))
      else if beq datatype (lit "u32")
      then both little regs fp.nat64
      else if beq datatype (lit "i32")
      then both little regs (λ r. fp.int64 (signed 2_147_483_648 r))
      else if beq datatype (lit "f32")
      then both little regs (λ r. fp.widen (fp.from_bits r))
      else some (err (anyhow (lit "unknown datatype " ++ datatype)))

  abbrev nonzero : Option Float → Option Float
  nonzero none = none
  nonzero (some s) = if fp.is_zero s then none else some s

  abbrev parsed : Option Text → Option Float
  parsed none = none
  parsed (some s) = fp.parse64 (trim s)

  unfoldable pub scale_of : PointConfig → Float
  unfolding addr_str trim
  scale_of p = unwrap_or (nonzero (parsed (addr_str p (lit "scale")))) (fp.nat64 1)

  -- The three `map_err` of a read.
  abbrev pub answered : {A B : Type 0} → Answer A → (A → Option (Result B)) → Option (Result B)
  answered Answer.elapsed f = some (err (anyhow (lit "read timed out")))
  answered (Answer.failed e) f = some (err (anyhow (lit "io error: " ++ e)))
  answered (Answer.exception e) f = some (err (anyhow (lit "modbus exception: " ++ e)))
  answered (Answer.value a) f = f a

  abbrev pub bit_value : List Bool → Option (Result TelemetryValue)
  bit_value [] = some (ok (TelemetryValue.number (fp.nat64 0)))
  bit_value (b ∷ bs) = some (ok (TelemetryValue.number (if b then fp.nat64 1 else fp.nat64 0)))

  abbrev pub scaled : Float → Option (Result Float) → Option (Result TelemetryValue)
  scaled scale none = none
  scaled scale (some (err e)) = some (err e)
  scaled scale (some (ok number)) = some (ok (TelemetryValue.number (fp.mul64 number scale)))

  unfoldable pub read_point : Context → PointConfig → Option (Result TelemetryValue)
  unfolding addr_str addr_u64 scale_of decode
  read_point ctx p =
      let decoded : List ℕ → Option (Result TelemetryValue) =
        λ regs. scaled (scale_of p) (decode regs (datatype_of p) (word_order_of p)) in
      let words = words_for (datatype_of p) in
      if beq (table_of p) (lit "coil")
      then answered (ctx.read_coils (address_of p) 1) bit_value
      else if beq (table_of p) (lit "discrete")
      then answered (ctx.read_discrete_inputs (address_of p) 1) bit_value
      else if beq (table_of p) (lit "input")
      then answered (ctx.read_input_registers (address_of p) words) decoded
      else answered (ctx.read_holding_registers (address_of p) words) decoded

  -- The outcome with one more sample or failure in front. `now` is what `now_millis()` returns.
  abbrev pub recorded : PointConfig → ℤ → Result TelemetryValue → PollOutcome → PollOutcome
  recorded p now (ok value) o = record o {
    samples = record { point = p; value = value; topic = []; timestamp_ms = now } ∷ o.samples;
  }
  recorded p now (err e) o = record o {
    failures = record { point = p; error = e.chain } ∷ o.failures;
  }

  -- The loop of `poll`; `ctx i` and `now i` are what the client and the clock answer for the point at `i`.
  unfoldable poll_points : (ℕ → Context) → (ℕ → ℤ) → ℕ → List PointConfig → Option PollOutcome
  unfolding read_point
  poll_points ctx now i [] = some (record { samples = []; failures = []; warnings = [] })
  poll_points ctx now i (p ∷ ps) = elim (read_point (ctx i) p) [
    | none ↦ none
    | some r ↦ elim (poll_points ctx now (suc i) ps) [
      | none ↦ none
      | some o ↦ some (recorded p (now i) r o)
    ]
  ]

  abbrev polled : Option PollOutcome → Option (Result PollOutcome)
  polled none = none
  polled (some o) = some (ok o)

  -- `poll`, where `connected` is the result of `connect`
  unfoldable pub poll :
      (ConnParams → Result (ℕ → Context))
      → (ℕ → ℤ)
      → Addressing
      → List PointConfig
      → Option (Result PollOutcome)
  unfolding poll_points parse_conn
  poll connected now conn points = elim (parse_conn conn) [
    | err e ↦ some (err e)
    | ok params ↦ elim (connected params) [
      | err e ↦ some (err e)
      | ok ctx ↦ polled (poll_points ctx now 0 points)
    ]
  ]
