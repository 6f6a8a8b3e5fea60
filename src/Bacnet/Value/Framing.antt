-- ===== src/Bacnet/Value/Framing.antt =====
-- The framing of tagged values in crates/proto-bacnet/src/republish/value.rs.
use netix_protocol_core.Prelude.{
  ℕ, suc, ◌+◌, ◌*◌, ◌%◌, ◌≤◌, ◌≡◌, refl, ap, false, List, [], ◌∷◌, ◌++◌, take, length,
  length-append, ltb, leb, arith, Bool-cases, inl, inr, if◌then◌else◌,
}
use netix_protocol_core.Bacnet.Value.{ok, application_payload}

-- A value of an application tag as it is sent: the tag with the length, the length in a byte of its own
-- where it is 5 or more, and the payload.
abbrev pub header : ℕ → ℕ → List ℕ
header tag n = if leb n 4 then (tag * 16 + n) ∷ [] else (tag * 16 + 5) ∷ n ∷ []

abbrev pub frame : ℕ → List ℕ → List ℕ
frame tag payload = header tag (length payload) ++ payload

take-append : (xs ys : List ℕ) → take (length xs) (xs ++ ys) ≡ xs
take-append [] ys = refl
take-append (x ∷ xs) ys = ap (λ l. x ∷ l) (take-append xs ys)

-- The payload of a framed value is read back, whatever follows it.
pub application_payload-frame :
    (tag : ℕ) (payload rest : List ℕ)
    → length payload ≤ 253
    → application_payload (frame tag payload ++ rest) ≡ ok payload
unfolding application_payload
application_payload-frame tag payload rest h = elim (Bool-cases (leb (length payload) 4)) [
  | inl short ↦
      let code : (tag * 16 + length payload) % 8 ≡ length payload = ground (arith, short) in
      let fits : ltb (suc (length (payload ++ rest))) (1 + length payload) ≡ false =
        ground (arith, length-append payload rest) in
      rw (short, code, short, fits, take-append payload rest) refl
  | inr long ↦
      let code : (tag * 16 + 5) % 8 ≡ 5 = omega arith in
      let fits : ltb (suc (suc (length (payload ++ rest)))) (2 + length payload) ≡ false =
        ground (arith, length-append payload rest) in
      rw (long, code, fits, take-append payload rest) refl
]
