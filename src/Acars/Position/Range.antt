-- ===== src/Acars/Position/Range.antt =====
-- Which positions `acars_extract_text_position` returns.
use inmarsat_sniffer.Base.{
  ℕ, ◌+◌, ◌≤◌, ◌<◌, ◌≡◌, refl, arith, subst, Bool, true, false, ◌==◌, not, ◌&&◌, ◌⊎◌, inl, inr,
  if◌then◌else◌, List, Option, none, some, length, at, Option-cases, Bool-cases,
}
use inmarsat_sniffer.Base.Loops.{search_first, search_first-IsFirst}
use inmarsat_sniffer.Base.Text.{codes}
use inmarsat_sniffer.Text.{strstr, count_digits}
use inmarsat_sniffer.Learned.Coord.{number}
use inmarsat_sniffer.Acars.Altitude.{or_else}
use inmarsat_sniffer.Acars.Position.{
  Real, is_lat_dir, is_lon_dir, skip_spaces, signed, after_tag, pos_at, find_pos, is_dm, read_dm,
  find_dm, lon_at, lat_at, find_lat, acars_extract_text_position,
}

module _ (r : Real) where
  open r use {F, thousandths, degrees, neg, within, strtod}

  -- Either tested against the bound, or put together from whole degrees within the bound and tenths
  -- of minutes below 60 minutes, which the code does not test any further.
  abbrev pub IsBounded : ℕ → F → Type 0
  IsBounded bound v =
      (within v bound ≡ true) ⊎ ((d : ℕ) × (m : ℕ) × (v ≡ degrees d m) × (d ≤ bound) × (m < 600))

  abbrev pub IsCoord : ℕ → F → Type 0
  IsCoord bound x = (v : F) × ((x ≡ v) ⊎ (x ≡ neg v)) × IsBounded bound v

  abbrev pub IsPosition : F × F → Type 0
  IsPosition q = IsCoord 90 q.0 × IsCoord 180 q.1

  sign-IsCoord :
      (bound : ℕ) (v : F) (b : Bool) → IsBounded bound v → IsCoord bound (if b then neg v else v)
  sign-IsCoord bound v true h = (v, inr refl, h)
  sign-IsCoord bound v false h = (v, inl refl, h)

  signed-IsPosition :
      (lat_dir lon_dir : ℕ) (la lo : F)
      → IsBounded 90 la
      → IsBounded 180 lo
      → IsPosition (signed r lat_dir la lon_dir lo)
  signed-IsPosition lat_dir lon_dir la lo h k =
      (sign-IsCoord 90 la (lat_dir == b'S') h, sign-IsCoord 180 lo (lon_dir == b'W') k)

  -- A guarded result comes with its guard.
  guarded :
      (b : Bool) (q' q : F × F) → (if b then some q' else none) ≡ some q → (b ≡ true) × (q' ≡ q)
  guarded true q' q e = (refl, cc e)
  guarded false q' q e = cc e

  after_tag-some :
      (tag : Option ℕ) (read : ℕ → Option (F × F)) (q : F × F)
      → after_tag tag read ≡ some q
      → (i : ℕ) × (read i ≡ some q)
  after_tag-some none read q e = cc e
  after_tag-some (some i) read q e = (i, e)

  pos_at-IsPosition : (text : List ℕ) (i : ℕ) (q : F × F) → pos_at r text i ≡ some q → IsPosition q
  unfolding pos_at
  pos_at-IsPosition text i q e =
      let la = thousandths (number (at text) (i + 4) 5) in
      let lo = thousandths (number (at text) (i + 10) 6) in
      let test : Bool =
        is_lat_dir (at text (i + 3))
        && count_digits text 5 (i + 4) == 5
        && is_lon_dir (at text (i + 9))
        && count_digits text 6 (i + 10) == 6
        && within la 90
        && within lo 180 in
      let (ok, same) = guarded test (signed r (at text (i + 3)) la (at text (i + 9)) lo) q e in
      let la_ok : within la 90 ≡ true = ground (arith, ok) in
      let lo_ok : within lo 180 ≡ true = ground (arith, ok) in
      subst IsPosition same
        (signed-IsPosition (at text (i + 3)) (at text (i + 9)) la lo (inl la_ok) (inl lo_ok))

  find_dm-IsPosition : (text : List ℕ) (q : F × F) → find_dm r text ≡ some q → IsPosition q
  unfolding find_dm read_dm is_dm
  find_dm-IsPosition text q e = elim (Option-cases (search_first (is_dm r text) (length text) 0)) [
    | inl none_found ↦ absurd (ground (arith, e, none_found))
    | inr (i, found) ↦
        let f = search_first-IsFirst (is_dm r text) (length text) 0 i found in
        let same : read_dm r text i ≡ q = ground (arith, e, found) in
        let bounds : (number (at text) (i + 1) 2 ≤ 90)
            × (number (at text) (i + 3) 3 < 600)
            × (number (at text) (i + 7) 3 ≤ 180)
            × (number (at text) (i + 10) 3 < 600) =
          ground (arith, f.hit) in
        let (lat_deg, lat_min, lon_deg, lon_min) = bounds in
        subst IsPosition same (
          signed-IsPosition (at text i) (at text (i + 6)) _ _ (inr (_, _, refl, lat_deg, lat_min))
            (inr (_, _, refl, lon_deg, lon_min)))
  ]

  lon_at-IsPosition :
      (text : List ℕ) (lat_dir j : ℕ) (la : F) (q : F × F)
      → within la 90 ≡ true
      → lon_at r text lat_dir la j ≡ some q
      → IsPosition q
  unfolding lon_at
  lon_at-IsPosition text lat_dir j la q la_ok e =
      let p = skip_spaces (length text) text (j + 3) in
      let p' = skip_spaces (length text) text (p + 1) in
      let lo = strtod text p' in
      let (ok, same) =
        guarded (is_lon_dir (at text p) && not (lo.1 == p') && within lo.0 180)
          (signed r lat_dir la (at text p) lo.0) q e in
      let lo_ok : within lo.0 180 ≡ true = ground (arith, ok) in
      subst IsPosition same (signed-IsPosition lat_dir (at text p) la lo.0 (inl la_ok) (inl lo_ok))

  lat_at-IsPosition : (text : List ℕ) (i : ℕ) (q : F × F) → lat_at r text i ≡ some q → IsPosition q
  unfolding lat_at
  lat_at-IsPosition text i q e =
      let p = skip_spaces (length text) text (i + 3) in
      let p' = skip_spaces (length text) text (p + 1) in
      let la = strtod text p' in
      let test : Bool = is_lat_dir (at text p) && not (la.1 == p') && within la.0 90 in
      elim (Bool-cases test) [
        | inl ok ↦
            let la_ok : within la.0 90 ≡ true = ground (arith, ok) in
            let (j, read) =
              after_tag-some (strstr text la.1 (codes "LON")) (lon_at r text (at text p) la.0) q
                (ground (arith, ok, e)) in
            lon_at-IsPosition text (at text p) j la.0 q la_ok read
        | inr out ↦ absurd (ground (arith, out, e))
      ]

  tagged-IsPosition :
      (text : List ℕ) (q : F × F)
      → (find_pos r text ≡ some q) ⊎ (find_lat r text ≡ some q)
      → IsPosition q
  unfolding find_pos find_lat
  tagged-IsPosition text q (inl e) =
      let (i, read) = after_tag-some (strstr text 0 (codes "POS")) (pos_at r text) q e in
      pos_at-IsPosition text i q read
  tagged-IsPosition text q (inr e) =
      let (i, read) = after_tag-some (strstr text 0 (codes "LAT")) (lat_at r text) q e in
      lat_at-IsPosition text i q read

  or_else-some :
      (a b : Option (F × F)) (q : F × F) → or_else a b ≡ some q → (a ≡ some q) ⊎ (b ≡ some q)
  or_else-some none b q e = inr e
  or_else-some (some x) b q e = inl e

  -- Whatever the label, the text and `strtod`, both coordinates of a position that is returned are, up to
  -- their sign, tested to lie within 90 and 180 degrees, or of at most 90 and 180 whole degrees and less
  -- than 60 minutes.
  pub acars_extract_text_position-IsPosition :
      (label text : List ℕ) (q : F × F)
      → acars_extract_text_position r label text ≡ some q
      → IsPosition q
  unfolding acars_extract_text_position
  acars_extract_text_position-IsPosition label text q e =
      let found : or_else (find_pos r text) (or_else (find_dm r text) (find_lat r text)) ≡ some q =
        ground (arith, e) in
      elim (or_else-some _ _ q found) [
        | inl e1 ↦ tagged-IsPosition text q (inl e1)
        | inr later ↦ elim (or_else-some _ _ q later) [
          | inl e2 ↦ find_dm-IsPosition text q e2
          | inr e3 ↦ tagged-IsPosition text q (inr e3)
        ]
      ]
