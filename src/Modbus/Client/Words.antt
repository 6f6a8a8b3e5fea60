-- ===== src/Modbus/Client/Words.antt =====
-- The words that `decode` of crates/proto-modbus/src/republish/mod.rs puts together.
use netix_protocol_core.Prelude.{
  ℕ, ◌+◌, ◌*◌, ◌/◌, ◌%◌, ◌≡◌, refl, Bool, true, false, List, [], ◌∷◌, some, arith, if◌then◌else◌,
}
use netix_protocol_core.Prelude.Eq.{beq, nat_eq, list_eq}
use netix_protocol_core.Text.{Text, lit}
use netix_protocol_core.Model.{Float}
use netix_protocol_core.Model.Floats.{Floats}
use netix_protocol_core.Worker.Events.{ok}
use netix_protocol_core.Modbus.{word}
use netix_protocol_core.Modbus.Client.{decode, combined, signed, both}

-- A 32-bit number as two registers.
abbrev pub pair_of : Bool → ℕ → List ℕ
pair_of little bits =
    if little then bits % word ∷ bits / word ∷ [] else bits / word ∷ bits % word ∷ []

module _ {F32 : Type 0} (fp : Floats F32) where
  both-pair_of :
      (little : Bool) (bits : ℕ) (f : ℕ → Float)
      → both fp little (pair_of little bits) f ≡ some (ok (f bits))
  unfolding combined
  both-pair_of true bits f =
      let whole : bits / word * word + bits % word ≡ bits = omega arith in rw (whole) refl
  both-pair_of false bits f =
      let whole : bits / word * word + bits % word ≡ bits = omega arith in rw (whole) refl

  -- Two registers that hold a number, the high word first, or last where the word order is `little`,
  -- decode to that number: as unsigned, as two's complement, and as the bits of a float.
  pub decode-pair_of :
      (bits : ℕ) (order : Text)
      → let regs = pair_of (beq order (lit "little")) bits in
        (decode fp regs (lit "u32") order ≡ some (ok (fp.nat64 bits)))
        × (decode fp regs (lit "i32") order ≡ some (ok (fp.int64 (signed 2_147_483_648 bits))))
        × (decode fp regs (lit "f32") order ≡ some (ok (fp.widen (fp.from_bits bits))))
  unfolding decode
  decode-pair_of bits order =
      let little = beq order (lit "little") in
      (both-pair_of little bits _, both-pair_of little bits _, both-pair_of little bits _)
