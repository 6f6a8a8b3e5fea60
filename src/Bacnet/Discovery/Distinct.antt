-- ===== src/Bacnet/Discovery/Distinct.antt =====
-- The instances that a discovery of crates/proto-bacnet/src/republish/mod.rs reports.
use netix_protocol_core.Prelude.{
  ℕ, ◌++◌, take, ◌≡◌, refl, sym, ap, ◌∙◌, ◌||◌, List, [], ◌∷◌, map, Option, none, some, arith, inl,
  inr,
}
use mathlib.Core.Path.{subst}
use netix_protocol_core.Prelude.Eq.{nat_eq}
use netix_protocol_core.Prelude.Maps.{contains}
use netix_protocol_core.Text.{Text}
use netix_protocol_core.Model.{DiscoverOutcome}
use netix_protocol_core.Worker.Events.{Result, ok, err, OnOk, Result-cases}
use netix_protocol_core.Bacnet.Settings.{
  BindFailurePolicy, ConnCfg, NetworkInterface, target_interfaces,
}
use netix_protocol_core.Bacnet.Poll.Pigeonhole.{IsDistinct}
use netix_protocol_core.Bacnet.Discovery.{
  Answering, Bind, Devices, Found, collected, collect_devices, insert_devices, broadcast_passes,
  first_passes, after_failure, scan_interfaces, values, sorted_outcome, discover,
}
use netix_protocol_core.Bacnet.Discovery.Table.{
  instances, IsKeyed, sort_by_key-IsDistinct, contains-sort_by_key, insert_devices-IsKeyed,
  is_found, contains-insert_devices,
}

OnOk-map :
    {A : Type 0} {Q R : A → Type 0} (r : Result A) → ((a : A) → Q a → R a) → OnOk Q r → OnOk R r
OnOk-map (ok a) f h = f a h
OnOk-map (err e) f h = tt

-- The answers of the passes up to one whose Who-Is fails.
abbrev heard : List (Option (List Answering)) → List Answering
heard [] = []
heard (none ∷ passes) = []
heard (some answers ∷ passes) = answers ++ heard passes

abbrev pub answered : List Answering → List ℕ
answered answers = map (λ a. a.device_instance) answers

-- What is heard on some interfaces, in the first three passes on each that a client is bound to.
abbrev pub heard_on : Bind → List ℕ → List Answering
heard_on bind [] = []
heard_on bind (addr ∷ addrs) = elim (bind addr) [
  | ok passes ↦ heard (take 3 passes) ++ heard_on bind addrs
  | err e ↦ heard_on bind addrs
]

instances-collected : (xs : List Answering) → instances (map collected xs) ≡ answered xs
instances-collected [] = refl
instances-collected (a ∷ xs) = ap (λ l. a.device_instance ∷ l) (instances-collected xs)

contains-collect_devices :
    (i : ℕ) (xs : List Answering)
    → contains i (instances (collect_devices xs)) ≡ contains i (answered xs)
unfolding collect_devices
contains-collect_devices i xs =
    contains-sort_by_key i (map collected xs) ∙ ap (contains i) (instances-collected xs)

contains-answered :
    (i : ℕ) (xs bs : List Answering)
    → contains i (answered (xs ++ bs)) ≡ (contains i (answered xs) || contains i (answered bs))
unfolding contains
contains-answered i [] bs = refl
contains-answered i (a ∷ xs) bs = ground (arith, contains-answered i xs bs)

-- The table holds each device once, and those that it held before and those that were heard.
abbrev Holds : Devices → List Answering → Devices → Type 0
Holds m xs after =
    IsKeyed after × ((i : ℕ) → is_found i after ≡ (is_found i m || contains i (answered xs)))

Holds-trans :
    (m n o : Devices) (xs bs : List Answering) → Holds m xs n → Holds n bs o → Holds m (xs ++ bs) o
Holds-trans m n o xs bs (k, f) (l, g) =
    (l, λ i. ground (arith, f i, g i, contains-answered i xs bs))

Holds-refl : (m : Devices) → IsKeyed m → Holds m [] m
unfolding contains
Holds-refl m h = (h, λ i. ground arith)

broadcast_passes-Holds :
    (passes : List (Option (List Answering))) (m : Devices)
    → IsKeyed m
    → Holds m (heard passes) (broadcast_passes passes m)
unfolding broadcast_passes
broadcast_passes-Holds [] m h = Holds-refl m h
broadcast_passes-Holds (none ∷ passes) m h = Holds-refl m h
broadcast_passes-Holds (some answers ∷ passes) m h =
    let next = insert_devices (collect_devices answers) m in
    let keyed : IsKeyed next = insert_devices-IsKeyed (collect_devices answers) m h in
    let one : Holds m answers next = (
      keyed,
      λ i.
          contains-insert_devices i (collect_devices answers) m h
          ∙ ap (λ b. is_found i m || b) (contains-collect_devices i answers),
    ) in
    Holds-trans m next _ answers (heard passes) one (broadcast_passes-Holds passes next keyed)

heard-first_passes :
    (passes : List (Option (List Answering))) → heard (first_passes passes) ≡ heard (take 3 passes)
heard-first_passes [] = refl
heard-first_passes (a ∷ []) = refl
heard-first_passes (a ∷ b ∷ []) = refl
heard-first_passes (a ∷ b ∷ c ∷ more) = refl

values-IsDistinct : (m : Devices) → IsKeyed m → IsDistinct (instances (values m))
values-IsDistinct [] h = tt
values-IsDistinct ((n, d) ∷ m) (at, absent, h) =
    (ap (λ k. contains k (instances (values m))) at ∙ absent, values-IsDistinct m h)

after_failure-OnOk :
    (p : BindFailurePolicy) (message : Text) (found : Found) (next : Found → Result Found)
    (Q : Devices → Type 0)
    → ((g : Found) → g.by_instance ≡ found.by_instance → OnOk (λ f. Q f.by_instance) (next g))
    → OnOk (λ f. Q f.by_instance) (after_failure p message found next)
after_failure-OnOk BindFailurePolicy.strict message found next Q k = tt
after_failure-OnOk BindFailurePolicy.skip message found next Q k = k _ refl

scan_interfaces-Holds :
    (bind : Bind) (policy : BindFailurePolicy) (addrs : List ℕ) (found : Found)
    → IsKeyed found.by_instance
    → OnOk
        (λ f. Holds found.by_instance (heard_on bind addrs) f.by_instance)
        (scan_interfaces bind policy addrs found)
unfolding scan_interfaces
scan_interfaces-Holds bind policy [] found h = Holds-refl found.by_instance h
scan_interfaces-Holds bind policy (addr ∷ addrs) found h = elim (Result-cases (bind addr)) [
  | inl (passes, e) ↦
      let m = found.by_instance in
      let next = broadcast_passes (first_passes passes) m in
      let one : Holds m (heard (take 3 passes)) next =
        subst (λ xs. Holds m xs next) (heard-first_passes passes)
          (broadcast_passes-Holds (first_passes passes) m h) in
      rw (e, scan_interfaces, heard_on)
        (OnOk-map (scan_interfaces bind policy addrs _)
          (λ f rest.
            Holds-trans m next f.by_instance (heard (take 3 passes)) (heard_on bind addrs) one rest)
          (scan_interfaces-Holds bind policy addrs _ one.0))
  | inr (f, e) ↦
      rw (e, scan_interfaces, heard_on)
        (after_failure-OnOk policy _ found (scan_interfaces bind policy addrs)
          (Holds found.by_instance (heard_on bind addrs))
          (λ g same.
            subst
              (λ m.
                OnOk (λ f. Holds m (heard_on bind addrs) f.by_instance)
                  (scan_interfaces bind policy addrs g))
              same (scan_interfaces-Holds bind policy addrs g (subst IsKeyed (sym same) h))))
]

-- The devices that a discovery reports are distinct by their instance, and they are those that answered
-- on an interface that a client could be bound to, in its first three passes and before one whose
-- Who-Is failed. So a device that answers several passes or on several interfaces is reported exactly
-- once, also where devices share a name.
pub discover-IsDistinct :
    (bind : Bind) (cfg : ConnCfg) (interfaces : List NetworkInterface) {o : DiscoverOutcome}
    → discover bind cfg interfaces ≡ ok o
    → IsDistinct (instances o.devices)
      × ((i : ℕ)
          → contains i (instances o.devices)
            ≡ contains i (answered (heard_on bind (target_interfaces cfg interfaces))))
discover-IsDistinct bind cfg interfaces e =
    let addrs = target_interfaces cfg interfaces in
    let start : Found = record { by_instance = []; warnings = [] } in
    subst (OnOk (Reports (heard_on bind addrs))) e (
      unfold discover in
      (of_found (heard_on bind addrs) (scan_interfaces bind cfg.bind_failure_policy addrs start)
        (scan_interfaces-Holds bind cfg.bind_failure_policy addrs start tt)))
  where
    Reports : List Answering → DiscoverOutcome → Type 0
    Reports xs o =
        IsDistinct (instances o.devices)
        × ((i : ℕ) → contains i (instances o.devices) ≡ contains i (answered xs))

    of_found :
        (xs : List Answering) (r : Result Found)
        → OnOk (λ f. Holds [] xs f.by_instance) r
        → OnOk (Reports xs) (sorted_outcome r)
    of_found xs (err f) h = tt
    of_found xs (ok found) (keyed, all) = (
      sort_by_key-IsDistinct (values found.by_instance) (values-IsDistinct found.by_instance keyed),
      λ i. contains-sort_by_key i (values found.by_instance) ∙ (unfold contains in all i),
    )
