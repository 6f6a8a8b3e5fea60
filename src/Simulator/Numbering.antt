-- ===== src/Simulator/Numbering.antt =====
-- `SimulatorConfig::expand` of crates/sim-core/src/config.rs: the numbers of the points of a type.
use netix_protocol_core.Prelude.{
  ℕ, zero, suc, ◌+◌, ◌<◌, ◌≡◌, refl, sym, ap, ◌∙◌, List, [], ◌∷◌, ◌++◌, arith, length,
  length-append, unwrap_or, ltb, Option-cases, Bool-cases, inl, inr, if◌then◌else◌,
}
use mathlib.Core.Path.{subst}
use mathlib.Core.List.{append_assoc}
use netix_protocol_core.Prelude.Eq.{beq, beq_iff, nat_eq, list_eq}
use netix_protocol_core.Prelude.Maps.{get, insert, get-insert}
use netix_protocol_core.Text.{Text}
use netix_protocol_core.Simulator.{
  TemplatePointSpec, AssetTemplate, AssetInstanceSpec, SimulatorConfig, PointSpec, DeviceSpec, ok,
  u32, Counters, count_up, start_of, block_of, new_point, expand_points, expand_devices,
  expand_instances, expand,
}
use netix_protocol_core.Simulator.Expansion.{WhenOk, prepend-WhenOk}

-- `n` numbers from `suc first` on.
abbrev pub following : ℕ → ℕ → List ℕ
following first zero = []
following first (suc n) = suc first ∷ following (suc first) n

following-append :
    (first n m : ℕ) → following first (n + m) ≡ following first n ++ following (first + n) m
following-append first zero m =
    let from : first + 0 ≡ first = omega arith in
    let all : 0 + m ≡ m = omega arith in rw (from, all) refl
following-append first (suc n) m =
    let all : suc n + m ≡ suc (n + m) = omega arith in
    let from : suc first + n ≡ first + suc n = omega arith in
    rw (all, ← from) (ap (λ r. suc first ∷ r) (following-append (suc first) n m))

module _ {Profile : Type 0} where
  -- The numbers of the points of one type, in order.
  abbrev pub numbers : Text → List (PointSpec Profile) → List ℕ
  numbers t [] = []
  numbers t (p ∷ ps) =
      let rest = numbers t ps in if beq p.object_type t then p.instance_number ∷ rest else rest

  abbrev pub all_points : List (DeviceSpec Profile) → List (PointSpec Profile)
  all_points [] = []
  all_points (d ∷ ds) = d.points ++ all_points ds

numbers-append :
    {Profile : Type 0} (t : Text) (ps qs : List (PointSpec Profile))
    → numbers t (ps ++ qs) ≡ numbers t ps ++ numbers t qs
numbers-append t [] qs = refl
numbers-append t (p ∷ ps) qs = ground (arith, numbers-append t ps qs)

abbrev current : Text → Counters → ℕ
current t c = unwrap_or (get t c) 0

-- The points are numbered from the counter on, and the counter afterwards is their last number,
-- where it does not wrap around.
abbrev Numbered :
    {Profile : Type 0} → Text → Counters → List (PointSpec Profile) → Counters → Type 0
Numbered t c ps after =
    current t c + length (numbers t ps) < u32
    → (numbers t ps ≡ following (current t c) (length (numbers t ps)))
      × (current t after ≡ current t c + length (numbers t ps))

Numbered-append :
    {Profile : Type 0} (t : Text) (c between after : Counters) (ps qs : List (PointSpec Profile))
    → Numbered t c ps between
    → Numbered t between qs after
    → Numbered t c (ps ++ qs) after
Numbered-append t c between after ps qs v w small =
    let split : length (numbers t (ps ++ qs)) ≡ length (numbers t ps) + length (numbers t qs) =
      ap length (numbers-append t ps qs) ∙ length-append (numbers t ps) (numbers t qs) in
    let a = v (omega (arith, small, split)) in
    let b = w (omega (arith, small, split, a.1)) in
    (
      numbers-append t ps qs
          ∙ ap (λ x. x ++ numbers t qs) a.0
          ∙ ap (λ x. following (current t c) (length (numbers t ps)) ++ x) b.0
          ∙ rw (split, following-append, ← a.1) refl,
      omega (arith, a.1, b.1, split),
    )

current-insert :
    (t o : Text) (k : ℕ) (c : Counters)
    → current t (insert o k c) ≡ (if beq o t then k else current t c)
current-insert t o k c = ground (arith, get-insert o t k c)

new_point-Numbered :
    {Profile : Type 0} (t : Text) (tp : TemplatePointSpec Profile) (c : Counters)
    → let counter = count_up tp.object_type c in
      Numbered t c (new_point tp counter ∷ []) (insert tp.object_type counter c)
new_point-Numbered t tp c = elim (Bool-cases (beq tp.object_type t)) [
  | inl e ↦ λ small.
      let fits : current t c + 1 < u32 = rw (e) at small in
      let same : tp.object_type ≡ t = (beq_iff tp.object_type t).0 e in
      let next : count_up tp.object_type c ≡ suc (current t c) =
        ap (λ o. count_up o c) same ∙ omega (arith, fits) in
      rw (current-insert t tp.object_type (count_up tp.object_type c) c, e)
        (ap (λ k. k ∷ []) next, omega (arith, next))
  | inr e ↦ λ small.
      rw (current-insert t tp.object_type (count_up tp.object_type c) c, e) (refl, omega arith)
]

expand_points-Numbered :
    {Profile : Type 0} (t : Text) (tps : List (TemplatePointSpec Profile)) (c : Counters)
    → Numbered t c (expand_points tps c).0 (expand_points tps c).1
unfolding expand_points
expand_points-Numbered t [] c = λ small. (refl, omega arith)
expand_points-Numbered t (tp ∷ tps) c =
    let counter = count_up tp.object_type c in
    let between = insert tp.object_type counter c in
    let (points, after) = expand_points tps between in
    Numbered-append t c between after (new_point tp counter ∷ []) points (new_point-Numbered t tp c)
      (expand_points-Numbered t tps between)

expand_devices-Numbered :
    {Profile : Type 0} (t : Text) (template : AssetTemplate Profile) (inst : AssetInstanceSpec)
    (start n left : ℕ) (c : Counters)
    → let r = expand_devices template inst start n left c in Numbered t c (all_points r.0) r.1
unfolding expand_devices
expand_devices-Numbered t template inst start n zero c = λ small. (refl, omega arith)
expand_devices-Numbered t template inst start n (suc left) c =
    let (points, between) = expand_points template.points c in
    let (devices, after) = expand_devices template inst start (suc n) left between in
    Numbered-append t c between after points (all_points devices)
      (expand_points-Numbered t template.points c)
      (expand_devices-Numbered t template inst start (suc n) left between)

all_points-append :
    {Profile : Type 0} (ds es : List (DeviceSpec Profile))
    → all_points (ds ++ es) ≡ all_points ds ++ all_points es
all_points-append [] es = refl
all_points-append (d ∷ ds) es =
    ap (λ r. d.points ++ r) (all_points-append ds es)
    ∙ sym (append_assoc d.points (all_points ds) (all_points es))

expand_instances-Numbered :
    {Profile : Type 0} (t : Text) (config : SimulatorConfig Profile) (idx : ℕ)
    (insts : List AssetInstanceSpec) (c : Counters)
    → WhenOk
        (λ ds. (after : Counters) × Numbered t c (all_points ds) after)
        (expand_instances config (block_of config.id_policy) idx insts c)
unfolding expand_instances
expand_instances-Numbered t config idx [] c = (c, λ small. (refl, omega arith))
expand_instances-Numbered t config idx (inst ∷ insts) c =
    elim (Option-cases (get inst.template config.templates)) [
      | inl e ↦ rw (e, expand_instances) tt
      | inr (template, e) ↦ elim (Bool-cases (ltb (block_of config.id_policy) inst.count)) [
        | inl over ↦ rw (e, over, expand_instances) tt
        | inr fits ↦
            let start = start_of config.id_policy (block_of config.id_policy) idx in
            let (devices, between) = expand_devices template inst start 0 inst.count c in
            rw (e, fits, expand_instances)
              (prepend-WhenOk (λ ds. (after : Counters) × Numbered t between (all_points ds) after)
                (λ ds. (after : Counters) × Numbered t c (all_points ds) after) devices
                (expand_instances config (block_of config.id_policy) (suc idx) insts between)
                (λ ds r. (
                  r.0,
                  rw (all_points-append devices ds) (
                      Numbered-append t c between r.0 (all_points devices) (all_points ds)
                        (expand_devices-Numbered t template inst start 0 inst.count c) r.1),
                ))
                (expand_instances-Numbered t config (suc idx) insts between))
      ]
    ]

-- The points of each object type are numbered 1, 2, 3 and so on through all devices, where there are
-- fewer than 2 ^ 32 of them: no two points of one object type have the same number.
pub expand-numbers :
    {Profile : Type 0} (config : SimulatorConfig Profile) (t : Text)
    {devices : List (DeviceSpec Profile)}
    → expand config ≡ ok devices
    → length (numbers t (all_points devices)) < u32
    → numbers t (all_points devices) ≡ following 0 (length (numbers t (all_points devices)))
expand-numbers config t {devices} e small =
    let same : expand_instances config (block_of config.id_policy) 0 config.instances []
        ≡ ok devices =
      unfold expand in e in
    let built =
      subst (WhenOk (λ ds. (after : Counters) × Numbered t [] (all_points ds) after)) same
        (expand_instances-Numbered t config 0 config.instances []) in
    let zero_start : current t [] ≡ 0 = unfold get in refl in
    rw (zero_start) at (built.1 (omega (arith, small, zero_start))).0
