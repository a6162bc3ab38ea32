-- ===== src/Aircraft/Search.antt =====
-- The binary search of `aircraft_db_lookup_by_hex` over a sorted index.
use inmarsat_sniffer.Base.{
  ℕ, zero, suc, ◌+◌, ◌-◌, ◌/◌, ◌≤◌, ◌<◌, ◌≡◌, ◌≢◌, refl, sym, ap, ◌∙◌, arith, ltb, List, Option,
  none, some, inl, inr, Bool-cases, dec_lt,
}
use inmarsat_sniffer.Base.Sorting.{
  less, greater, Sign-cases, strcmp, strcmp-same, strcmp_self, strcmp-swap, IsSorted,
}
use inmarsat_sniffer.Aircraft.{Db, by_hex_cmp, search}

module _ (d : Db) (key : List ℕ) where
  -- The address in a row of the index.
  abbrev pub hex_at : ℕ → List ℕ
  hex_at i = (d.db (d.by_hex i)).hex

  -- A right answer: no row has the address, or the entry is that of a row that has it.
  abbrev pub IsAnswer : Option ℕ → Type 0
  IsAnswer none = (i : ℕ) → i < d.db_count → hex_at i ≢ key
  IsAnswer (some e) = (i : ℕ) × (i < d.db_count) × (d.by_hex i ≡ e) × (hex_at i ≡ key)

  abbrev Misses : ℕ → ℕ → Type 0
  Misses lo top = (i : ℕ) → lo ≤ i → i < top → hex_at i ≢ key

  module _ (sorted : IsSorted (by_hex_cmp d.db) d.db_count d.by_hex) where
    -- Below a row that is less than the key, and above one that is greater, no row is the key.
    less-Misses : (mid : ℕ) → mid < d.db_count → strcmp (hex_at mid) key ≡ less → Misses 0 (mid + 1)
    less-Misses mid h lt i lo hi e = elim (dec_lt i mid) [
      | yes before ↦
          sorted i mid before h
            (ap (λ x. strcmp x (hex_at mid)) e ∙ strcmp-swap (hex_at mid) key lt)
      | no after ↦
          let here : i ≡ mid = omega arith in
          let equal : hex_at mid ≡ key = ap hex_at (sym here) ∙ e in
          cc (lt, ap (λ x. strcmp x key) equal, strcmp_self key)
    ]

    greater-Misses : (mid : ℕ) → strcmp (hex_at mid) key ≡ greater → Misses mid d.db_count
    greater-Misses mid gt i lo hi e = elim (dec_lt mid i) [
      | yes after ↦ sorted mid i after hi (ap (strcmp (hex_at mid)) e ∙ gt)
      | no before ↦
          let here : i ≡ mid = omega arith in
          let equal : hex_at mid ≡ key = ap hex_at (sym here) ∙ e in
          cc (gt, ap (λ x. strcmp x key) equal, strcmp_self key)
    ]

    -- The search of a sorted index ends with a right answer, if the key is in the window or nowhere.
    search-IsAnswer :
        (fuel lo top : ℕ)
        → top - lo < fuel
        → top ≤ d.db_count
        → Misses 0 lo
        → Misses top d.db_count
        → (r : Option ℕ) × (search fuel d key lo top ≡ some r) × IsAnswer r
    unfolding search
    search-IsAnswer zero lo top enough within below above = absurd (omega arith)
    search-IsAnswer (suc fuel) lo top enough within below above = elim (Bool-cases (ltb lo top)) [
      | inr closed ↦ (
        none,
        ground (arith, closed),
        λ i h. elim (dec_lt i lo) [
          | yes lt ↦ below i (omega arith) lt
          | no ge ↦ above i (ground (arith, closed)) h
        ],
      )
      | inl open' ↦
          let mid = (lo + (top - 1)) / 2 in
          let lt : lo < top = ground (arith, open') in
          let row : mid < d.db_count = omega arith in
          elim (Sign-cases (strcmp (hex_at mid) key)) [
            | inl hit ↦ (
              some (d.by_hex mid),
              ground (arith, open', hit),
              (mid, row, refl, strcmp-same (hex_at mid) key hit),
            )
            | inr (inl low) ↦
                let (r, e, right) =
                  search-IsAnswer fuel (mid + 1) top (omega arith) within (less-Misses mid row low)
                    above in
                (r, ground (arith, open', low, e), right)
            | inr (inr high) ↦
                let (r, e, right) =
                  search-IsAnswer fuel lo mid (omega arith) (omega arith) below
                    (greater-Misses mid high) in
                (r, ground (arith, open', high, e), right)
          ]
    ]

    pub search-all :
        (r : Option ℕ) × (search (d.db_count + 1) d key 0 d.db_count ≡ some r) × IsAnswer r
    search-all =
        search-IsAnswer (d.db_count + 1) 0 d.db_count (omega arith) (omega arith)
          (λ i lo hi. absurd (omega arith)) (λ i lo hi. absurd (omega arith))
