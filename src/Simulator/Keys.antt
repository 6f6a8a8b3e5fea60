-- ===== src/Simulator/Keys.antt =====
-- The names of simulated devices, `SimulatorConfig::expand` of crates/sim-core/src/config.rs, and the
-- keys that crates/proto-api/src/lib.rs makes of them.
use mathlib.Core.Path.{subst}
use netix_protocol_core.Prelude.{
  ℕ, zero, suc, ◌+◌, ◌-◌, sym, ◌/◌, ◌%◌, ◌<◌, ◌≤◌, ◌≡◌, refl, ap, ◌∙◌, true, false, List, [], ◌∷◌,
  ◌++◌, none, some, arith, length, ltb, ◌==◌, Bool-cases, inl, inr, if◌then◌else◌, all,
}
use netix_protocol_core.Text.{Text, lit}
use netix_protocol_core.Text.Numbers.{digits_onto, decimal, is_digit}
use netix_protocol_core.Model.Neutral.{rsplit_dash, base_key}
use netix_protocol_core.Simulator.{AssetInstanceSpec, PointSpec, new_device, pad, u32}

digit-is_digit : (n : ℕ) → n < 10 → is_digit (n + b'0') ≡ true
unfolding is_digit
digit-is_digit n h = ground (arith, h)

all-digits_onto :
    (f n : ℕ) (rest : Text) → all is_digit rest ≡ true → all is_digit (digits_onto f n rest) ≡ true
unfolding digits_onto
all-digits_onto zero n rest h = h
all-digits_onto (suc f) n rest h = elim (Bool-cases (ltb n 10)) [
  | inl few ↦ rw (few, digit-is_digit n (ground (arith, few))) h
  | inr many ↦ rw (many) (
      all-digits_onto f (n / 10) ((n % 10 + b'0') ∷ rest)
        (rw (digit-is_digit (n % 10) (omega arith)) h))
]

-- Digits have no dash.
rsplit_dash-digits : (s : Text) → all is_digit s ≡ true → rsplit_dash s ≡ none
unfolding rsplit_dash is_digit
rsplit_dash-digits [] h = refl
rsplit_dash-digits (c ∷ s) h =
    let rest : rsplit_dash s ≡ none = rsplit_dash-digits s (ground (arith, h)) in
    let other : (c == b'-') ≡ false = ground (arith, h) in rw (rest, other) refl

rsplit_dash-append : (p s : Text) → rsplit_dash s ≡ none → rsplit_dash (p ++ b'-' ∷ s) ≡ some (p, s)
unfolding rsplit_dash
rsplit_dash-append [] s h = rw (h) refl
rsplit_dash-append (c ∷ p) s h = rw (rsplit_dash-append p s h) refl

length-digits_onto : (f n : ℕ) (rest : Text) → length rest ≤ length (digits_onto f n rest)
unfolding digits_onto
length-digits_onto zero n rest = omega arith
length-digits_onto (suc f) n rest = elim (Bool-cases (ltb n 10)) [
  | inl few ↦ rw (few) (omega arith)
  | inr many ↦ rw (many) (omega (arith, length-digits_onto f (n / 10) ((n % 10 + b'0') ∷ rest)))
]

all-append :
    (z s : Text) → all is_digit z ≡ true → all is_digit s ≡ true → all is_digit (z ++ s) ≡ true
all-append [] s h k = k
all-append (c ∷ z) s h k =
    let here : is_digit c ≡ true = ground (arith, h) in
    rw (here) (all-append z s (ground (arith, h)) k)

all-pad : (n : ℕ) → all is_digit (pad n) ≡ true
unfolding pad
all-pad n = all-append _ (decimal n) zeros digits
  where
    digits : all is_digit (decimal n) ≡ true
    digits = unfold decimal in all-digits_onto (suc n) n [] refl

    zeros : all is_digit (if ltb n 10 then lit "00" else if ltb n 100 then lit "0" else []) ≡ true
    zeros = elim (Bool-cases (ltb n 10)) [
      | inl few ↦ unfold is_digit in (rw (few) refl)
      | inr more ↦ elim (Bool-cases (ltb n 100)) [
        | inl few ↦ unfold is_digit in (rw (more, few) refl)
        | inr many ↦ rw (more, many) refl
      ]
    ]

last_digit :
    (f n : ℕ) (rest : Text) → n < 10 → length (digits_onto (suc f) n rest) ≡ suc (length rest)
unfolding digits_onto
last_digit f n rest h = let few : ltb n 10 ≡ true = ground (arith, h) in rw (few) refl

next_digit :
    (f n : ℕ) (rest : Text)
    → 10 ≤ n
    → digits_onto (suc f) n rest ≡ digits_onto f (n / 10) ((n % 10 + b'0') ∷ rest)
unfolding digits_onto
next_digit f n rest h = let many : ltb n 10 ≡ false = ground (arith, h) in rw (many) refl

longer : (f n : ℕ) (rest : Text) → suc (length rest) ≤ length (digits_onto (suc f) n rest)
longer f n rest = elim (Bool-cases (ltb n 10)) [
  | inl few ↦ omega (arith, last_digit f n rest (ground (arith, few)))
  | inr many ↦
      rw (next_digit f n rest (ground (arith, many)))
        (length-digits_onto f (n / 10) ((n % 10 + b'0') ∷ rest))
]

two : (f n : ℕ) → 10 ≤ n → n < 100 → length (digits_onto (suc (suc f)) n []) ≡ 2
two f n h k = rw (next_digit (suc f) n [] h) (last_digit f (n / 10) _ (omega (arith, k)))

three : (f n : ℕ) → 100 ≤ n → n < 1000 → length (digits_onto (suc (suc (suc f))) n []) ≡ 3
three f n h k =
    rw
      (
        next_digit (suc (suc f)) n [] (omega (arith, h)),
        next_digit (suc f) (n / 10) ((n % 10 + b'0') ∷ []) (omega (arith, h)),
      )
      (last_digit f (n / 10 / 10) _ (omega (arith, k)))

four : (f n : ℕ) → 1000 ≤ n → 4 ≤ length (digits_onto (suc (suc (suc (suc f)))) n [])
four f n h =
    rw
      (
        next_digit (suc (suc (suc f))) n [] (omega (arith, h)),
        next_digit (suc (suc f)) (n / 10) ((n % 10 + b'0') ∷ []) (omega (arith, h)),
        next_digit (suc f) (n / 10 / 10) ((n / 10 % 10 + b'0') ∷ (n % 10 + b'0') ∷ [])
            (omega (arith, h)),
      )
      (longer f (n / 10 / 10 / 10) _)

length-decimal_one : (n : ℕ) → n < 10 → length (decimal n) ≡ 1
unfolding decimal
length-decimal_one n h = last_digit n n [] h

length-decimal_two : (n : ℕ) → 10 ≤ n → n < 100 → length (decimal n) ≡ 2
unfolding decimal
length-decimal_two n h k =
    let e : n ≡ suc (n - 1) = omega (arith, h) in
    ap (λ f. length (digits_onto (suc f) n [])) e ∙ two (n - 1) n h k

length-decimal_three : (n : ℕ) → 100 ≤ n → n < 1000 → length (decimal n) ≡ 3
unfolding decimal
length-decimal_three n h k =
    let e : n ≡ suc (suc (n - 2)) = omega (arith, h) in
    ap (λ f. length (digits_onto (suc f) n [])) e ∙ three (n - 2) n h k

length-decimal_many : (n : ℕ) → 1000 ≤ n → 4 ≤ length (decimal n)
unfolding decimal
length-decimal_many n h =
    let e : n ≡ suc (suc (suc (n - 3))) = omega (arith, h) in
    subst (λ f. 4 ≤ length (digits_onto (suc f) n [])) (sym e) (four (n - 3) n h)

length-pad : (n : ℕ) → (length (pad n) == 3) ≡ ltb n 1000
unfolding pad
length-pad n = elim (Bool-cases (ltb n 10)) [
  | inl a ↦
      let small : ltb n 1000 ≡ true = ground (arith, a) in
      rw (a, small, length-decimal_one n (ground (arith, a))) refl
  | inr a ↦ elim (Bool-cases (ltb n 100)) [
    | inl b ↦
        let small : ltb n 1000 ≡ true = ground (arith, b) in
        rw (a, b, small, length-decimal_two n (ground (arith, a)) (ground (arith, b))) refl
    | inr b ↦ elim (Bool-cases (ltb n 1000)) [
      | inl c ↦ rw (a, b, c, length-decimal_three n (ground (arith, b)) (ground (arith, c))) refl
      | inr c ↦
          let digits = length-decimal_many n (ground (arith, c)) in
          let other : (length (decimal n) == 3) ≡ false = ground (arith, digits) in
          rw (a, b, c, other) refl
    ]
  ]
]

-- The key of a simulated device is its name's prefix, as long as its number within the instance, from 1
-- on, has at most three digits. From number 1000 on it is the whole name.
pub base_key-new_device :
    {Profile : Type 0} (inst : AssetInstanceSpec) (start n : ℕ) (points : List (PointSpec Profile))
    → let name = (new_device inst start n points).name in
      base_key name ≡ (if ltb ((n + 1) % u32) 1000 then inst.name_prefix else name)
unfolding base_key
base_key-new_device inst start n points =
    let number = (n + 1) % u32 in
    let split =
      rsplit_dash-append inst.name_prefix (pad number)
        (rsplit_dash-digits (pad number) (all-pad number)) in
    elim (Bool-cases (ltb number 1000)) [
      | inl e ↦ rw (split, all-pad number, length-pad number, e) refl
      | inr e ↦ rw (split, all-pad number, length-pad number, e) refl
    ]
