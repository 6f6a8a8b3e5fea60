-- ===== src/Bacnet/Objects/Entries.antt =====
-- The points of a browse in crates/proto-bacnet/src/republish/mod.rs.
use netix_protocol_core.Prelude.{
  ℕ, zero, suc, ◌≤◌, ◌≡◌, refl, sym, ap, ◌∙◌, Option, List, [], ◌∷◌, ◌++◌, map, length, take, drop,
  arith,
}
use mathlib.Core.List.{map-append}
use netix_protocol_core.Model.{Addressing, DiscoveredPoint, JsonValue}
use netix_protocol_core.Text.{Text, lit}
use netix_protocol_core.Worker.Events.{Result, ok, err}
use netix_protocol_core.Modbus.Browse.{json_of}
use netix_protocol_core.Bacnet.Value.{object_type_name}
use netix_protocol_core.Bacnet.Requests.{Names}
use netix_protocol_core.Bacnet.Objects.{
  Object, Metadata, Scan, ScannedMetadata, metadata_of, discovered_point_from_object, chunk_points,
  scan_chunks,
}

module _ (names : Names) (scan : Scan) (dev_key : Text) (device : ℕ) where
  -- The addressing of an object's present value.
  abbrev pub address_of : Object → Addressing
  address_of (object_type, n) =
      (lit "device_instance", json_of device)
      ∷ (lit "object_instance", json_of n)
      ∷ (lit "object_type", JsonValue.string (object_type_name names.object_types object_type))
      ∷ (lit "property", JsonValue.string (lit "present_value"))
      ∷ []

  abbrev pub addresses : List DiscoveredPoint → List Addressing
  addresses points = map (λ p. p.addressing) points

  addresses-map :
      (f : Object → ScannedMetadata) (os : List Object)
      → addresses (map (λ o. discovered_point_from_object names dev_key device o (f o)) os)
        ≡ map address_of os
  unfolding discovered_point_from_object
  addresses-map f [] = refl
  addresses-map f (o ∷ os) = ap (λ l. address_of o ∷ l) (addresses-map f os)

  addresses-chunk :
      (chunk : List Object) (read : Result (Object → Metadata → Option (List ℕ)))
      → addresses (chunk_points names scan dev_key device chunk read) ≡ map address_of chunk
  addresses-chunk chunk (ok props) = addresses-map (λ o. metadata_of names scan (props o)) chunk
  addresses-chunk chunk (err e) = addresses-map (λ o. metadata_of names scan (scan.single o)) chunk

  take-drop : (n : ℕ) (os : List Object) → take n os ++ drop n os ≡ os
  take-drop zero os = refl
  take-drop (suc n) [] = refl
  take-drop (suc n) (o ∷ os) = ap (λ l. o ∷ l) (take-drop n os)

  length-drop_le : (n : ℕ) (os : List Object) → length (drop n os) ≤ length os
  length-drop_le zero os = omega arith
  length-drop_le (suc n) [] = omega arith
  length-drop_le (suc n) (o ∷ os) = omega (arith, length-drop_le n os)

  -- The chunks of a scan, read at once or one by one, give one point for each object, in order, and the
  -- point is addressed to the present value of its object, on the scanned device.
  addresses-scan_chunks :
      (fuel : ℕ) (entries : List Object)
      → length entries ≤ fuel
      → addresses (scan_chunks names scan fuel dev_key device entries).points
        ≡ map address_of entries
  unfolding scan_chunks
  addresses-scan_chunks zero [] h = refl
  addresses-scan_chunks zero (e ∷ es) h = ground (arith, h)
  addresses-scan_chunks (suc fuel) [] h = refl
  addresses-scan_chunks (suc fuel) (e ∷ es) h =
      let chunk = e ∷ take 31 es in
      let mine = chunk_points names scan dev_key device chunk (scan.multiple chunk) in
      let rest = scan_chunks names scan fuel dev_key device (drop 31 es) in
      map-append (λ (p : DiscoveredPoint). p.addressing) mine rest.points
      ∙ ap (λ l. l ++ addresses rest.points) (addresses-chunk chunk (scan.multiple chunk))
      ∙ ap (λ l. map address_of chunk ++ l)
          (addresses-scan_chunks fuel (drop 31 es) (omega (arith, h, length-drop_le 31 es)))
      ∙ sym (map-append address_of chunk (drop 31 es))
      ∙ ap (λ l. address_of e ∷ map address_of l) (take-drop 31 es)
