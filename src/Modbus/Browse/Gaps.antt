-- ===== src/Modbus/Browse/Gaps.antt =====
-- Where a scan of crates/proto-modbus/src/republish/mod.rs stops.
use netix_protocol_core.Prelude.{
  ℕ, max, ◌+◌, ◌≤◌, ◌≡◌, refl, ap, ◌⊎◌, inl, inr, List, [], ◌∷◌, ◌++◌, Option, none, some, leb,
  filter_map, arith, Option-cases, Bool-cases,
}
use netix_protocol_core.Modbus.Browse.{scan_table}

abbrev at_address : {A : Type 0} → ℕ → Option A → Option (ℕ × A)
at_address addr none = none
at_address addr (some v) = some (addr, v)

module _ {A : Type 0} (read : ℕ → Option A) where
  abbrev pub with_value : ℕ → Option (ℕ × A)
  with_value addr = at_address addr (read addr)

  -- The length of the longest run of unreadable addresses, with `n` of them right before.
  abbrev longest_gap : ℕ → List ℕ → ℕ
  longest_gap n [] = n
  longest_gap n (addr ∷ addrs) =
      let behind = longest_gap 0 addrs in
      let longer = longest_gap (n + 1) addrs in
      elim (read addr) [ some v ↦ max n behind | none ↦ longer ]

  -- All addresses were tried, without eight unreadable ones in a row, or the last one tried is the
  -- first to complete such a row.
  abbrev pub Stopped : ℕ → List ℕ → List ℕ → Type 0
  Stopped n seen left =
      ((left ≡ []) × (longest_gap n seen ≤ 7))
      ⊎ ((run : List ℕ) × (last : ℕ) × (seen ≡ run ++ last ∷ [])
          × (longest_gap n run ≤ 7)
          × (longest_gap n seen ≡ 8))

  -- The addresses that were tried, the others, and the points that were found.
  abbrev pub Scanned : ℕ → List ℕ → List (ℕ × A) → Type 0
  Scanned n addrs found =
      (seen left : List ℕ) × (addrs ≡ seen ++ left)
      × (found ≡ filter_map with_value seen)
      × Stopped n seen left

  -- One more address that could be read, or not.
  seen-some :
      (n : ℕ) (addrs : List ℕ) (addr : ℕ) (v : A) (found : List (ℕ × A))
      → n ≤ 7
      → read addr ≡ some v
      → Scanned 0 addrs found
      → Scanned n (addr ∷ addrs) ((addr, v) ∷ found)
  seen-some n addrs addr v found h e (seen, left, all, same, stop) =
      (addr ∷ seen, left, ap (λ l. addr ∷ l) all, rw (e, same, filter_map) refl, stopped stop)
    where
      stopped : Stopped 0 seen left → Stopped n (addr ∷ seen) left
      stopped (inl (done, short)) = inl (done, rw (e, longest_gap) (omega (arith, h, short)))
      stopped (inr (run, last, at, short, full)) = inr (
        addr ∷ run,
        last,
        ap (λ l. addr ∷ l) at,
        rw (e, longest_gap) (omega (arith, h, short)),
        rw (e, longest_gap) (omega (arith, h, full)),
      )

  seen-none :
      (n : ℕ) (addrs : List ℕ) (addr : ℕ) (found : List (ℕ × A))
      → read addr ≡ none
      → Scanned (n + 1) addrs found
      → Scanned n (addr ∷ addrs) found
  seen-none n addrs addr found e (seen, left, all, same, stop) =
      (addr ∷ seen, left, ap (λ l. addr ∷ l) all, rw (e, filter_map) same, stopped stop)
    where
      stopped : Stopped (n + 1) seen left → Stopped n (addr ∷ seen) left
      stopped (inl (done, short)) = inl (done, rw (e, longest_gap) short)
      stopped (inr (run, last, at, short, full)) = inr (
        addr ∷ run,
        last,
        ap (λ l. addr ∷ l) at,
        rw (e, longest_gap) short,
        rw (e, longest_gap) full,
      )

  scan_table-Scanned : (n : ℕ) (addrs : List ℕ) → n ≤ 7 → Scanned n addrs (scan_table read n addrs)
  unfolding scan_table
  scan_table-Scanned n [] h = ([], [], refl, refl, inl (refl, h))
  scan_table-Scanned n (addr ∷ addrs) h = elim (Option-cases (read addr)) [
    | inr (v, e) ↦
        rw (e, scan_table)
          (seen-some n addrs addr v (scan_table read 0 addrs) h e
            (scan_table-Scanned 0 addrs (omega arith)))
    | inl e ↦ elim (Bool-cases (leb 8 (n + 1))) [
      | inl full ↦
          rw (e, full, scan_table)
            (
              addr ∷ [],
              addrs,
              refl,
              rw (e, filter_map) refl,
              inr ([], addr, refl, h, rw (e, longest_gap) (ground (arith, full, h))),
            )
      | inr room ↦
          rw (e, room, scan_table)
            (seen-none n addrs addr _ e (scan_table-Scanned (n + 1) addrs (ground (arith, room))))
    ]
  ]

-- The scan of a table takes a first part of the addresses, in order, and finds each one there that can
-- be read, with its value, and no other. It takes them all where they have no eight unreadable ones in a
-- row, and otherwise up to the first address that completes such a row.
pub scan_table-stops :
    {A : Type 0} (read : ℕ → Option A) (addrs : List ℕ)
    → (seen left : List ℕ) × (addrs ≡ seen ++ left)
      × (scan_table read 0 addrs ≡ filter_map (with_value read) seen)
      × Stopped read 0 seen left
scan_table-stops read addrs = scan_table-Scanned read 0 addrs (omega arith)
