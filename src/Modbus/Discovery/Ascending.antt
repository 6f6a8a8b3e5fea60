-- ===== src/Modbus/Discovery/Ascending.antt =====
-- The devices of a scan in crates/proto-modbus/src/republish/mod.rs.
use netix_protocol_core.Prelude.{
  ◌≡◌, refl, sym, ap, ◌∙◌, Bool, true, false, ◌||◌, List, [], ◌∷◌, arith, any, Bool-cases, inl, inr,
}
use mathlib.Core.Path.{subst}
use netix_protocol_core.Prelude.Eq.{beq, beq_iff, nat_eq, list_eq}
use netix_protocol_core.Text.{Text}
use netix_protocol_core.Model.{DiscoveredDevice}
use netix_protocol_core.Model.Identity.{text_leb}
use netix_protocol_core.Modbus.Discovery.{insert_device, sort_devices, dedup_after, dedup_devices}

text_leb-total : (s t : Text) → text_leb s t ≡ false → text_leb t s ≡ true
text_leb-total [] t h = ground (arith, h)
text_leb-total (c ∷ s) [] h = refl
text_leb-total (c ∷ s) (d ∷ t) h = ground (arith, h, text_leb-total s t)

-- The first address is not above those of the list.
abbrev IsBelow : Text → List DiscoveredDevice → Type 0
IsBelow a [] = Unit
IsBelow a (e ∷ es) = text_leb a e.address ≡ true

abbrev IsSorted : List DiscoveredDevice → Type 0
IsSorted [] = Unit
IsSorted (d ∷ ds) = IsBelow d.address ds × IsSorted ds

-- Sorted by address, and no two neighbours have one address.
abbrev IsAscending : List DiscoveredDevice → Type 0
IsAscending [] = Unit
IsAscending (d ∷ []) = Unit
IsAscending (d ∷ e ∷ es) =
    (text_leb d.address e.address ≡ true) × (beq d.address e.address ≡ false) × IsAscending (e ∷ es)

abbrev has_address : Text → List DiscoveredDevice → Bool
has_address a ds = any (λ d. beq d.address a) ds

insert_device-IsSorted :
    (d : DiscoveredDevice) (es : List DiscoveredDevice)
    → IsSorted es
    → IsSorted (insert_device d es)
      × ((a : Text) → text_leb a d.address ≡ true → IsBelow a es → IsBelow a (insert_device d es))
unfolding insert_device
insert_device-IsSorted d [] h = ((tt, tt), λ a below _. below)
insert_device-IsSorted d (e ∷ es) h = elim (Bool-cases (text_leb d.address e.address)) [
  | inl b ↦ rw (b) ((b, h), λ a below _. below)
  | inr b ↦
      let (sorted, below) = insert_device-IsSorted d es h.1 in
      let up = text_leb-total d.address e.address b in
      rw (b) ((below e.address up h.0, sorted), λ a _ under. under)
]

sort_devices-IsSorted : (ds : List DiscoveredDevice) → IsSorted (sort_devices ds)
unfolding sort_devices
sort_devices-IsSorted [] = tt
sort_devices-IsSorted (d ∷ ds) =
    (insert_device-IsSorted d (sort_devices ds) (sort_devices-IsSorted ds)).0

dedup_after-IsAscending :
    (d : DiscoveredDevice) (es : List DiscoveredDevice)
    → IsSorted (d ∷ es)
    → IsAscending (d ∷ dedup_after d es)
unfolding dedup_after
dedup_after-IsAscending d [] h = tt
dedup_after-IsAscending d (e ∷ es) (below, (under, h)) =
    elim (Bool-cases (beq d.address e.address)) [
      | inl same ↦
          let at = (beq_iff d.address e.address).0 same in
          rw (same) (dedup_after-IsAscending d es (subst (λ a. IsBelow a es) (sym at) under, h))
      | inr other ↦ rw (other) (below, other, dedup_after-IsAscending e es (under, h))
    ]

dedup_devices-IsAscending :
    (ds : List DiscoveredDevice) → IsSorted ds → IsAscending (dedup_devices ds)
unfolding dedup_devices
dedup_devices-IsAscending [] h = tt
dedup_devices-IsAscending (d ∷ ds) h = dedup_after-IsAscending d ds h

has_address-insert :
    (a : Text) (d : DiscoveredDevice) (es : List DiscoveredDevice)
    → has_address a (insert_device d es) ≡ (beq d.address a || has_address a es)
unfolding insert_device
has_address-insert a d [] = refl
has_address-insert a d (e ∷ es) = ground (arith, has_address-insert a d es)

has_address-sort :
    (a : Text) (ds : List DiscoveredDevice) → has_address a (sort_devices ds) ≡ has_address a ds
unfolding sort_devices
has_address-sort a [] = refl
has_address-sort a (d ∷ ds) =
    has_address-insert a d (sort_devices ds)
    ∙ ap (λ b. beq d.address a || b) (has_address-sort a ds)

has_address-dedup :
    (a : Text) (d : DiscoveredDevice) (es : List DiscoveredDevice)
    → has_address a (d ∷ dedup_after d es) ≡ has_address a (d ∷ es)
unfolding dedup_after
has_address-dedup a d [] = refl
has_address-dedup a d (e ∷ es) = elim (Bool-cases (beq d.address e.address)) [
  | inl same ↦
      let at = (beq_iff d.address e.address).0 same in
      rw (same, has_address-dedup a d es, at) (ground arith)
  | inr other ↦ rw (other, has_address-dedup a e es) refl
]

-- The devices that a scan reports stand in the order of their addresses, no two neighbours with one
-- address, and an address is reported exactly if a probe found a device at it, in whatever order the
-- probes answered.
dedup_devices-sort_devices :
    (found : List DiscoveredDevice)
    → IsAscending (dedup_devices (sort_devices found))
      × ((a : Text) → has_address a (dedup_devices (sort_devices found)) ≡ has_address a found)
dedup_devices-sort_devices found = (
  dedup_devices-IsAscending (sort_devices found) (sort_devices-IsSorted found),
  λ a. all a (sort_devices found) ∙ has_address-sort a found,
)
  where
    all :
        (a : Text) (ds : List DiscoveredDevice)
        → has_address a (dedup_devices ds) ≡ has_address a ds
    all a [] = unfold dedup_devices in refl
    all a (d ∷ ds) = unfold dedup_devices in has_address-dedup a d ds
