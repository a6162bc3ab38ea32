-- ===== src/Acars/Waypoint/Loaded.antt =====
-- The scan for a waypoint's name over a table that waypoint_db.c has loaded.
use inmarsat_sniffer.Base.{
  ℕ, zero, suc, ◌+◌, ◌≡◌, ◌≢◌, refl, sym, ap, ◌∙◌, subst, ◌⊎◌, inl, inr, true, List, ◌∷◌, at,
  Option, none, some, take,
}
use inmarsat_sniffer.Base.Sorting.{Qsort, Bsearch}
use inmarsat_sniffer.Learned.Parse.{copy_name}
use inmarsat_sniffer.Waypoints.{WpEntry, waypoint_db_load, waypoint_db_lookup}
use inmarsat_sniffer.Waypoints.Loaded.{
  Accepted, Sorted, Searched, IsAnswer, waypoint_db_lookup-IsAnswer,
}
use inmarsat_sniffer.Acars.Waypoint.{is_name, acars_extract_waypoint_position}
use inmarsat_sniffer.Acars.Waypoint.Found.{IsNamed, acars_extract_waypoint_position-IsNamed}

take-copy_name : (text : List ℕ) (i n : ℕ) → take n (copy_name text i n) ≡ copy_name text i n
unfolding copy_name
take-copy_name text i zero = refl
take-copy_name text i (suc n) = ap (λ r. at text i ∷ r) (take-copy_name text (i + 1) n)

module _ {F : Type 0} (atof : List ℕ → F) (qsort : Qsort) (bsearch : Bsearch)
    (lines : List (List ℕ)) (learned_wp_lookup : List ℕ → Option (F × F)) where
  -- The lookup in the loaded table.
  abbrev pub in_table : List ℕ → Option (F × F)
  in_table ident = waypoint_db_lookup atof bsearch (waypoint_db_load atof qsort lines) ident

  -- Where a position is from: a name in the text, with the coordinates on a line of the file that has this
  -- name, or, if no accepted line has it, those learned.
  pub record IsFrom (text : List ℕ) (c : F × F) : Type 0 where
    pub place : ℕ
    pub named : is_name text place ≡ true
    pub source :
        ((w : WpEntry F) × Accepted atof lines w
          × (w.ident ≡ copy_name text place 5)
          × (c ≡ (w.lat, w.lon)))
        ⊎ (((w : WpEntry F) → Accepted atof lines w → w.ident ≢ copy_name text place 5)
            × (learned_wp_lookup (copy_name text place 5) ≡ some c))

  module _ (sorted : Sorted atof qsort bsearch lines)
      (searched : (ident : List ℕ) → Searched atof qsort bsearch lines ident) where
    -- The answer of the table for a name of the text.
    name-IsAnswer :
        (text : List ℕ) (place : ℕ) (r : Option (F × F))
        → in_table (copy_name text place 5) ≡ r
        → IsAnswer atof qsort bsearch lines (copy_name text place 5) r
    name-IsAnswer text place r e =
        let ident = copy_name text place 5 in
        subst (IsAnswer atof qsort bsearch lines ident) e
          (waypoint_db_lookup-IsAnswer atof qsort bsearch lines sorted ident (searched ident))

    IsNamed-IsFrom :
        (text : List ℕ) (c : F × F) → IsNamed in_table learned_wp_lookup text c → IsFrom text c
    IsNamed-IsFrom text c n =
        let whole = take-copy_name text n.place 5 in
        elim n.known [
          | inl known ↦
              let (w, accepted, ident, coords) = name-IsAnswer text n.place (some c) known in
              record {
                place = n.place;
                named = n.named;
                source = inl (w, accepted, ident ∙ whole, coords);
              }
          | inr (unknown, learned) ↦
              let missing = name-IsAnswer text n.place none unknown in
              record {
                place = n.place;
                named = n.named;
                source = inr (λ w accepted e. missing w accepted (e ∙ sym whole), learned);
              }
        ]

    -- With the table that waypoint_db.c has loaded from a file: the extraction returns, and a position that
    -- it returns is that of a name of five capital letters in the text, with the coordinates on an
    -- accepted line of the file with this name, or those learned if no accepted line has it.
    pub acars_extract_waypoint_position-IsFrom :
        (label text : List ℕ)
        → (r : Option (F × F)) × (acars_extract_waypoint_position in_table learned_wp_lookup label
              text
            ≡ some r)
          × ((c : F × F) → r ≡ some c → IsFrom text c)
    acars_extract_waypoint_position-IsFrom label text =
        let (r, e, from) =
          acars_extract_waypoint_position-IsNamed in_table learned_wp_lookup text label in
        (r, e, λ c is. IsNamed-IsFrom text c (from c is))
