-- ===== src/Waypoints/Loaded.antt =====
-- What a lookup answers after a load.
use inmarsat_sniffer.Base.{
  ℕ, zero, suc, ◌<◌, ◌==◌, ◌≡◌, ◌≢◌, refl, sym, ap, ◌∙◌, subst, arith, ◌⊎◌, inl, inr, ◌||◌, List,
  [], ◌∷◌, ◌++◌, Option, none, some, length, take, length-take, get_or, Option-cases, Bool-cases,
}
use mathlib.Core.Option
use mathlib.Core.List.{Memᴰ}
use mathlib.Core.List.Memᴰ
use inmarsat_sniffer.Base.Chain.{>>=-eq-some}
use inmarsat_sniffer.Base.Sorting.{
  same, strcmp, strcmp-same, strcmp_self, Qsort, Bsearch, Sorts, Finds,
}
use inmarsat_sniffer.Text.{c_string}
use inmarsat_sniffer.Waypoints.{
  at_comma, WpEntry, wp_cmp, parse_wp, load_wp, load_wps, ident_key, as_array, waypoint_db_load,
  waypoint_db_lookup,
}

get_or-Memᴰ : {A : Type 0} (xs : List A) (i : ℕ) (d : A) → i < length xs → Memᴰ (get_or xs i d) xs
get_or-Memᴰ [] i d h = absurd (omega arith)
get_or-Memᴰ (x ∷ xs) zero d h = Memᴰ.head refl
get_or-Memᴰ (x ∷ xs) (suc i) d h = Memᴰ.tail (get_or-Memᴰ xs i d (omega arith))

Memᴰ-get_or :
    {A : Type 0} {x : A} (xs : List A) (d : A)
    → Memᴰ x xs
    → (i : ℕ) × (i < length xs) × (get_or xs i d ≡ x)
Memᴰ-get_or [] d m = elim m [ ]
Memᴰ-get_or (y ∷ xs) d (Memᴰ.head e) = (0, omega arith, sym e)
Memᴰ-get_or (y ∷ xs) d (Memᴰ.tail m) = let (i, h, e) = Memᴰ-get_or xs d m in (suc i, omega arith, e)

module _ {F : Type 0} (atof : List ℕ → F) where
  -- A line of the file that is accepted, with its entry.
  abbrev pub Accepted : List (List ℕ) → WpEntry F → Type 0
  Accepted lines w = (line : List ℕ) × Memᴰ line lines × (parse_wp atof (c_string line) ≡ some w)

  load_wp-refused :
      (wpdb : List (WpEntry F)) (line : List ℕ)
      → parse_wp atof (c_string line) ≡ none
      → load_wp atof wpdb line ≡ wpdb
  unfolding load_wp
  load_wp-refused wpdb line e = ground (arith, e)

  load_wp-accepted :
      (wpdb : List (WpEntry F)) (line : List ℕ) (w : WpEntry F)
      → parse_wp atof (c_string line) ≡ some w
      → load_wp atof wpdb line ≡ wpdb ++ (w ∷ [])
  unfolding load_wp
  load_wp-accepted wpdb line w e = ground (arith, e)

  load_wp-Memᴰ :
      (wpdb : List (WpEntry F)) (line : List ℕ) (w : WpEntry F)
      → Memᴰ w (load_wp atof wpdb line)
      → Memᴰ w wpdb ⊎ (parse_wp atof (c_string line) ≡ some w)
  load_wp-Memᴰ wpdb line w m = elim (Option-cases (parse_wp atof (c_string line))) [
    | inl refused ↦ inl (subst (Memᴰ w) (load_wp-refused wpdb line refused) m)
    | inr (v, accepted) ↦
        elim (Memᴰ.append_cases wpdb (subst (Memᴰ w) (load_wp-accepted wpdb line v accepted) m)) [
          | inl old ↦ inl old
          | inr new ↦ inr (accepted ∙ ap some (sym (Memᴰ.eq_of_singleton new)))
        ]
  ]

  -- Every entry is that of an accepted line.
  load_wps-Accepted :
      (wpdb : List (WpEntry F)) (lines : List (List ℕ)) (w : WpEntry F)
      → Memᴰ w (load_wps atof wpdb lines)
      → Memᴰ w wpdb ⊎ Accepted lines w
  unfolding load_wps
  load_wps-Accepted wpdb [] w m = inl m
  load_wps-Accepted wpdb (line ∷ lines) w m =
      elim (load_wps-Accepted (load_wp atof wpdb line) lines w m) [
        | inr (l, there, e) ↦ inr (l, Memᴰ.tail there, e)
        | inl before ↦ elim (load_wp-Memᴰ wpdb line w before) [
          | inl old ↦ inl old
          | inr here ↦ inr (line, Memᴰ.head refl, here)
        ]
      ]

  load_wp-kept :
      (wpdb : List (WpEntry F)) (line : List ℕ) (w : WpEntry F)
      → Memᴰ w wpdb
      → Memᴰ w (load_wp atof wpdb line)
  load_wp-kept wpdb line w m = elim (Option-cases (parse_wp atof (c_string line))) [
    | inl refused ↦ subst (Memᴰ w) (sym (load_wp-refused wpdb line refused)) m
    | inr (v, accepted) ↦
        subst (Memᴰ w) (sym (load_wp-accepted wpdb line v accepted)) (Memᴰ.append_left (v ∷ []) m)
  ]

  load_wps-kept :
      (wpdb : List (WpEntry F)) (lines : List (List ℕ)) (w : WpEntry F)
      → Memᴰ w wpdb
      → Memᴰ w (load_wps atof wpdb lines)
  unfolding load_wps
  load_wps-kept wpdb [] w m = m
  load_wps-kept wpdb (line ∷ lines) w m =
      load_wps-kept (load_wp atof wpdb line) lines w (load_wp-kept wpdb line w m)

  -- Every accepted line has its entry.
  load_wps-Has :
      (wpdb : List (WpEntry F)) (lines : List (List ℕ)) (w : WpEntry F)
      → Accepted lines w
      → Memᴰ w (load_wps atof wpdb lines)
  unfolding load_wps
  load_wps-Has wpdb [] w (line, m, accepted) = absurd (Memᴰ.not-nil m)
  load_wps-Has wpdb (first ∷ lines) w (line, Memᴰ.head e, accepted) =
      let here : parse_wp atof (c_string first) ≡ some w =
        subst (λ l. parse_wp atof (c_string l) ≡ some w) e accepted in
      load_wps-kept (load_wp atof wpdb first) lines w (
        subst (Memᴰ w) (sym (load_wp-accepted wpdb first w here))
          (Memᴰ.append_right wpdb (Memᴰ.head refl)))
  load_wps-Has wpdb (first ∷ lines) w (line, Memᴰ.tail m, accepted) =
      load_wps-Has (load_wp atof wpdb first) lines w (line, m, accepted)

  parse_wp-ident :
      (line : List ℕ) (w : WpEntry F) → parse_wp atof line ≡ some w → 0 < length w.ident
  unfolding parse_wp
  parse_wp-ident line w e =
      let ((id, rest), split, e1) = >>=-eq-some (at_comma line) _ e in
      let ((lat_s, lon_s), split2, e2) = >>=-eq-some (at_comma rest) _ e1 in
      ground (arith, e2, length-take 5 id)

  module _ (qsort : Qsort) (bsearch : Bsearch) (lines : List (List ℕ)) where
    abbrev wpdb_read : List (WpEntry F)
    wpdb_read = load_wps atof [] lines

    abbrev wpdb_sorted : ℕ → WpEntry F
    wpdb_sorted = qsort (WpEntry F) wp_cmp (length wpdb_read) (as_array atof wpdb_read)

    -- The call of `qsort` in `waypoint_db_load` does what the library says.
    abbrev pub Sorted : Type 0
    Sorted = Sorts wp_cmp (length wpdb_read) (as_array atof wpdb_read) wpdb_sorted

    -- And the call of `bsearch` in `waypoint_db_lookup`.
    abbrev pub Searched : List ℕ → Type 0
    Searched ident =
        Finds wp_cmp (ident_key atof ident) (length wpdb_read) wpdb_sorted
          (bsearch (WpEntry F) wp_cmp (ident_key atof ident) (length wpdb_read) wpdb_sorted)

    -- The answer for an identifier: the coordinates on a line that has its first five bytes as identifier,
    -- or none if there is no such line.
    abbrev pub IsAnswer : List ℕ → Option (F × F) → Type 0
    IsAnswer ident none = (w : WpEntry F) → Accepted lines w → w.ident ≢ take 5 ident
    IsAnswer ident (some c) =
        (w : WpEntry F) × Accepted lines w × (w.ident ≡ take 5 ident) × (c ≡ (w.lat, w.lon))

    module _ (sorted : Sorted) (ident : List ℕ) where
      row :
          (w : WpEntry F)
          → Accepted lines w
          → (i : ℕ) × (i < length wpdb_read) × (wpdb_sorted i ≡ w)
      row w accepted =
          let (j, j_lt, e) =
            Memᴰ-get_or wpdb_read (ident_key atof []) (load_wps-Has [] lines w accepted) in
          let (i, i_lt, e') = sorted.kept j j_lt in (i, i_lt, e' ∙ e)

      row-Accepted : (i : ℕ) → i < length wpdb_read → Accepted lines (wpdb_sorted i)
      row-Accepted i h =
          let (j, j_lt, e) = sorted.nothing_new i h in
          let there = get_or-Memᴰ wpdb_read j (ident_key atof []) j_lt in
          elim (load_wps-Accepted [] lines (wpdb_sorted i)
            (subst (λ w. Memᴰ w wpdb_read) (sym e) there)) [
              | inl before ↦ absurd (Memᴰ.not-nil before)
              | inr accepted ↦ accepted
            ]

      found-IsAnswer :
          (r : Option ℕ)
          → Finds wp_cmp (ident_key atof ident) (length wpdb_read) wpdb_sorted r
          → IsAnswer ident (Option.map (λ i. ((wpdb_sorted i).lat, (wpdb_sorted i).lon)) r)
      found-IsAnswer none finds = λ w accepted e.
          let (i, i_lt, e') = row w accepted in
          let equal : strcmp (take 5 ident) (wpdb_sorted i).ident ≡ same =
            ap (strcmp (take 5 ident)) (ap (λ v. v.ident) e' ∙ e) ∙ strcmp_self (take 5 ident) in
          finds.miss sorted.ordered refl i i_lt equal
      found-IsAnswer (some i) finds =
          let (i_lt, equal) = finds.hit i refl in
          (
            wpdb_sorted i,
            row-Accepted i i_lt,
            sym (strcmp-same (take 5 ident) (wpdb_sorted i).ident equal),
            refl,
          )

      -- After a load: an identifier is not found only if no accepted line has it, cut to five bytes, and
      -- the coordinates found are those of an accepted line that has it.
      pub waypoint_db_lookup-IsAnswer :
          Searched ident
          → IsAnswer ident
              (waypoint_db_lookup atof bsearch (waypoint_db_load atof qsort lines) ident)
      unfolding waypoint_db_lookup waypoint_db_load
      waypoint_db_lookup-IsAnswer finds =
          elim (Bool-cases (length wpdb_read == 0 || length ident == 0)) [
            | inl nothing ↦ rw nothing (λ w accepted e.
                let (i, i_lt, e') = row w accepted in
                let named = parse_wp-ident (c_string accepted.0) w accepted.2 in
                let same_length : length w.ident ≡ length (take 5 ident) = ap length e in
                absurd (ground (arith, nothing, i_lt, named, same_length, length-take 5 ident)))
            | inr full ↦ rw full (found-IsAnswer _ finds)
          ]
