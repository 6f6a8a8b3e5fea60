-- ===== src/Bacnet/Discovery/Table.antt =====
-- The table of devices that a discovery of crates/proto-bacnet/src/republish/mod.rs fills, by instance.
use netix_protocol_core.Prelude.{
  ℕ, Bool, ◌≡◌, refl, sym, ap, ◌∙◌, false, ◌||◌, List, [], ◌∷◌, map, unwrap_or, ◌==◌, ==_iff, arith,
  Bool-cases, inl, inr,
}
use netix_protocol_core.Prelude.Eq.{nat_eq}
use netix_protocol_core.Prelude.Maps.{contains, insert}
use netix_protocol_core.Model.{DiscoveredDevice}
use netix_protocol_core.Model.Identity.{text_leb}
use netix_protocol_core.Bacnet.Poll.Pigeonhole.{IsDistinct}
use netix_protocol_core.Bacnet.Discovery.{
  Devices, insert_by_key, sort_by_key, insert_devices, values,
}

abbrev instance_of : DiscoveredDevice → ℕ
instance_of d = unwrap_or d.instance_id 0

abbrev pub instances : List DiscoveredDevice → List ℕ
instances ds = map instance_of ds

contains-insert_by_key :
    (i : ℕ) (d : DiscoveredDevice) (es : List DiscoveredDevice)
    → contains i (instances (insert_by_key d es))
      ≡ (instance_of d == i || contains i (instances es))
unfolding contains insert_by_key
contains-insert_by_key i d [] = refl
contains-insert_by_key i d (e ∷ es) = ground (arith, contains-insert_by_key i d es)

insert_by_key-IsDistinct :
    (d : DiscoveredDevice) (es : List DiscoveredDevice)
    → contains (instance_of d) (instances es) ≡ false
    → IsDistinct (instances es)
    → IsDistinct (instances (insert_by_key d es))
unfolding contains insert_by_key
insert_by_key-IsDistinct d [] h k = (refl, tt)
insert_by_key-IsDistinct d (e ∷ es) h k = elim (Bool-cases (text_leb d.key e.key)) [
  | inl b ↦ rw (b) (h, k)
  | inr b ↦
      let other : contains (instance_of d) (instances es) ≡ false = ground (arith, h) in
      let absent : contains (instance_of e) (instances (insert_by_key d es)) ≡ false = ground (
        arith,
        contains-insert_by_key (instance_of e) d es,
        k.0,
        h,
        ==_iff (instance_of d) (instance_of e),
        ==_iff (instance_of e) (instance_of d),
      ) in
      rw (b) (absent, insert_by_key-IsDistinct d es other k.1)
]

pub contains-sort_by_key :
    (i : ℕ) (ds : List DiscoveredDevice)
    → contains i (instances (sort_by_key ds)) ≡ contains i (instances ds)
unfolding contains sort_by_key
contains-sort_by_key i [] = refl
contains-sort_by_key i (d ∷ ds) =
    contains-insert_by_key i d (sort_by_key ds)
    ∙ ap (λ b. instance_of d == i || b) (contains-sort_by_key i ds)

pub sort_by_key-IsDistinct :
    (ds : List DiscoveredDevice)
    → IsDistinct (instances ds)
    → IsDistinct (instances (sort_by_key ds))
unfolding sort_by_key
sort_by_key-IsDistinct [] h = tt
sort_by_key-IsDistinct (d ∷ ds) h =
    insert_by_key-IsDistinct d (sort_by_key ds) (contains-sort_by_key (instance_of d) ds ∙ h.0)
      (sort_by_key-IsDistinct ds h.1)

-- Each device stands under its instance, once.
abbrev pub IsKeyed : Devices → Type 0
IsKeyed [] = Unit
IsKeyed ((n, d) ∷ m) = (instance_of d ≡ n) × (contains n (instances (values m)) ≡ false) × IsKeyed m

contains-insert :
    (i : ℕ) (d : DiscoveredDevice) (m : Devices)
    → IsKeyed m
    → contains i (instances (values (insert (instance_of d) d m)))
      ≡ (instance_of d == i || contains i (instances (values m)))
unfolding contains insert
contains-insert i d [] h = refl
contains-insert i d ((n, e) ∷ m) (at, absent, h) = elim (Bool-cases (n == instance_of d)) [
  | inl b ↦
      let same : n ≡ instance_of d = (==_iff n (instance_of d)).0 b in
      rw (b) (ground (arith, at, same))
  | inr b ↦ rw (b) (ground (arith, contains-insert i d m h))
]

insert-IsKeyed :
    (d : DiscoveredDevice) (m : Devices) → IsKeyed m → IsKeyed (insert (instance_of d) d m)
unfolding insert
insert-IsKeyed d [] h = (refl, unfold contains in refl, tt)
insert-IsKeyed d ((n, e) ∷ m) (at, absent, h) = elim (Bool-cases (n == instance_of d)) [
  | inl b ↦
      let same : n ≡ instance_of d = (==_iff n (instance_of d)).0 b in
      rw (b) (refl, ap (λ k. contains k (instances (values m))) (sym same) ∙ absent, h)
  | inr b ↦ rw (b) (
    at,
    ground (
      arith,
      contains-insert n d m h,
      absent,
      b,
      ==_iff n (instance_of d),
      ==_iff (instance_of d) n,
    ),
    insert-IsKeyed d m h,
  )
]

pub insert_devices-IsKeyed :
    (ds : List DiscoveredDevice) (m : Devices) → IsKeyed m → IsKeyed (insert_devices ds m)
unfolding insert_devices
insert_devices-IsKeyed [] m h = h
insert_devices-IsKeyed (d ∷ ds) m h =
    insert_devices-IsKeyed ds (insert (instance_of d) d m) (insert-IsKeyed d m h)

-- The instances that stand in the table.
abbrev pub is_found : ℕ → Devices → Bool
is_found i m = contains i (instances (values m))

pub contains-insert_devices :
    (i : ℕ) (ds : List DiscoveredDevice) (m : Devices)
    → IsKeyed m
    → is_found i (insert_devices ds m) ≡ (is_found i m || contains i (instances ds))
unfolding insert_devices contains
contains-insert_devices i [] m h = ground arith
contains-insert_devices i (d ∷ ds) m h = ground (
  arith,
  contains-insert_devices i ds (insert (instance_of d) d m) (insert-IsKeyed d m h),
  contains-insert i d m h,
)
