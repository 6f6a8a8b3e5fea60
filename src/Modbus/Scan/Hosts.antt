-- ===== src/Modbus/Scan/Hosts.antt =====
-- The hosts of a CIDR block in crates/proto-modbus/src/republish/scan.rs.
use netix_protocol_core.Prelude.{
  ℕ, zero, suc, ◌+◌, ◌-◌, ◌*◌, ◌/◌, ◌%◌, ◌^◌, ◌≤◌, ◌<◌, ◌≡◌, refl, sym, ap, ◌∙◌, true, false, List,
  ◌∷◌, map, Option, some, max, min, ltb, ◌==◌, range, All, arith, if◌then◌else◌,
}
use mathlib.Core.Path.{subst}
use native.Mathlib.Nat.{
  pow-suc, mul_assoc, suc-mul, div-lt_iff_lt-mul, mul-add-div_right, div-eq_of_lt, one-le-pow,
  pow-le-pow_right, mul-le-mul_right,
}
use netix_protocol_core.Text.{Text}
use netix_protocol_core.Text.Numbers.{u32_max}
use netix_protocol_core.Worker.Events.{Result, ok}
use netix_protocol_core.Mqtt.Publisher.{Error}
use netix_protocol_core.Modbus.Scan.{u32, block_size, masked, address_at, expand_cidr}

pow-add : (n m : ℕ) → 2 ^ (n + m) ≡ 2 ^ n * 2 ^ m
pow-add n zero = let e : n + 0 ≡ n = omega arith in rw (e) (omega arith)
pow-add n (suc m) =
    let e : n + suc m ≡ suc (n + m) = omega arith in
    rw (e, pow-suc, pow-suc, pow-add n m) (mul_assoc (2 ^ n) (2 ^ m) 2)

-- The blocks of a prefix fill the address space.
blocks : (prefix : ℕ) → prefix ≤ 32 → 2 ^ prefix * 2 ^ (32 - prefix) ≡ u32
blocks prefix h =
    let e : prefix + (32 - prefix) ≡ 32 = omega (arith, h) in
    sym (pow-add prefix (32 - prefix)) ∙ ap (λ n. 2 ^ n) e

block-fits :
    (base prefix : ℕ)
    → base < u32
    → prefix ≤ 32
    → masked base (32 - prefix) + 2 ^ (32 - prefix) ≤ u32
block-fits base prefix h p =
    let size = 2 ^ (32 - prefix) in
    let pos : 1 ≤ size = one-le-pow (32 - prefix) 2 (omega arith) in
    let whole = blocks prefix p in
    let below : base / size < 2 ^ prefix =
      (div-lt_iff_lt-mul {k = size} {x = base} {y = 2 ^ prefix} pos).1 (rw (whole) h) in
    let room : suc (base / size) * size ≤ 2 ^ prefix * size = mul-le-mul_right size below in
    omega (arith, room, whole, suc-mul (base / size) size)

block_size-min :
    (prefix : ℕ) → prefix ≤ 32 → block_size (32 - prefix) ≡ min (2 ^ (32 - prefix)) u32_max
block_size-min zero p = refl
block_size-min (suc prefix) p =
    let small : ltb (32 - suc prefix) 32 ≡ true = ground arith in
    let bound : 2 ^ (32 - suc prefix) ≤ 2 ^ 31 =
      pow-le-pow_right {n = 2} (omega arith) {i = 32 - suc prefix} {j = 31} (omega arith) in
    rw (small) (omega (arith, bound))

range-address :
    (p : Text → Option ℕ) (r : Text → Result (List ℕ)) (network first n : ℕ)
    → network + first + n ≤ u32
    → map (address_at p r network) (range first n) ≡ range (network + first) n
range-address p r network first zero h = refl
range-address p r network first (suc n) h =
    let here : (network + first) % u32 ≡ network + first = omega (arith, h) in
    let next : network + suc first ≡ suc (network + first) = omega arith in
    rw (here) (
      ap (λ l. (network + first) ∷ l)
        (range-address p r network (suc first) n (omega (arith, h)) ∙ ap (λ f. range f n) next))

in-block :
    (size q : ℕ) (first n : ℕ)
    → 1 ≤ size
    → first + n ≤ size
    → All (λ a. a / size ≡ q) (range (q * size + first) n)
in-block size q first zero pos h = tt
in-block size q first (suc n) pos h =
    let next : suc (q * size + first) ≡ q * size + suc first = omega arith in
    (
      mul-add-div_right pos q first
          ∙ ap (λ r. q + r) (div-eq_of_lt (omega (arith, h)))
          ∙ omega arith,
      rw (next) (in-block size q (suc first) n pos (omega (arith, h))),
    )

-- For a prefix of at most 32 bits, the hosts of a scan are the addresses of the block that the network
-- address lies in, from its first one on, in order, each once and without wrapping around: as many as
-- the block has or, if that is fewer, as the configured greatest number, but at least one (the whole
-- address space counts one less).
pub expand_cidr-block :
    (parse_ipv4 : Text → Option ℕ) (resolve : Text → Result (List ℕ)) (syntax : Error)
    (network : Text) (base prefix max_hosts : ℕ)
    → parse_ipv4 network ≡ some base
    → base < u32
    → prefix ≤ 32
    → let size = 2 ^ (32 - prefix) in
      let hosts = range (base / size * size) (min (max max_hosts 1) (min size u32_max)) in
      (expand_cidr parse_ipv4 resolve syntax network prefix max_hosts ≡ ok hosts)
      × All (λ a. a / size ≡ base / size) hosts
unfolding expand_cidr
expand_cidr-block parse_ipv4 resolve syntax network base prefix max_hosts parses small p =
    let size = 2 ^ (32 - prefix) in
    let pos : 1 ≤ size = one-le-pow (32 - prefix) 2 (omega arith) in
    let valid : ltb 32 prefix ≡ false = ground (arith, p) in
    let cap = min (max max_hosts 1) (min size u32_max) in
    let start : base / size * size + 0 ≡ base / size * size = omega arith in
    let first : (if prefix == 0 then 0 else masked base (32 - prefix)) ≡ base / size * size =
      network-start base prefix small in
    (
      rw (valid, parses, block_size-min prefix p, first)
          (ap ok (
            range-address parse_ipv4 resolve (base / size * size) 0 cap
              (omega (arith, block-fits base prefix small p))
            ∙ ap (λ f. range f cap) start)),
      subst (λ f. All (λ a. a / size ≡ base / size) (range f cap)) start
          (in-block size (base / size) 0 cap pos (omega arith)),
    )
  where
    network-start :
        (base prefix : ℕ)
        → base < u32
        → (if prefix == 0 then 0 else masked base (32 - prefix))
          ≡ base / 2 ^ (32 - prefix) * 2 ^ (32 - prefix)
    network-start base zero h = omega (arith, h)
    network-start base (suc prefix) h = ground arith
