-- ===== src/Station/Track/Inv.antt =====
-- The cache of last positions: what `bs_derive_track` keeps true of it.
use inmarsat_sniffer.Base.{
  ℕ, ◌≤◌, ◌<◌, ◌≡◌, ◌≢◌, refl, sym, ap, ◌∙◌, arith, true, false, List, [], ◌∷◌, ◌++◌, none, some,
  length, set, length-append, length-set, get_or-set, get_or-append, get_or-append_end, ℕ_discrete,
}
use inmarsat_sniffer.Base.Loops.{search_first-IsFirst, search_first-hit, search_first-none}
use inmarsat_sniffer.Base.Sorting.{Sign, less, same, greater, strcmp, strcmp-same, strcmp_self}
use inmarsat_sniffer.Station.Track.{Geo, bs_track_max, BsTrack, track_at, is_equal, find_track}

module _ (g : Geo) where
  open g use {F, zero_f}

  abbrev pub hex_at : List (BsTrack g) → ℕ → List ℕ
  hex_at cache i = (track_at g cache i).hex

  is_equal-same : (s : Sign) → is_equal g s ≡ true → s ≡ same
  is_equal-same less e = cc e
  is_equal-same same e = refl
  is_equal-same greater e = cc e

  equal-hex :
      (cache : List (BsTrack g)) (i : ℕ) (hex : List ℕ)
      → hex_at cache i ≡ hex
      → is_equal g (strcmp (hex_at cache i) hex) ≡ true
  equal-hex cache i hex e = ap (is_equal g) (ap (λ s. strcmp s hex) e ∙ strcmp_self hex)

  pub find_track-hit :
      (cache : List (BsTrack g)) (hex : List ℕ) (i : ℕ)
      → find_track g cache hex ≡ some i
      → (i < length cache) × (hex_at cache i ≡ hex)
  unfolding find_track
  find_track-hit cache hex i e =
      let f =
        search_first-IsFirst (λ k. is_equal g (strcmp (hex_at cache k) hex)) (length cache) 0 i e in
      (omega (arith, f.before), strcmp-same (hex_at cache i) hex (is_equal-same _ f.hit))

  pub find_track-miss :
      (cache : List (BsTrack g)) (hex : List ℕ) (i : ℕ)
      → find_track g cache hex ≡ none
      → i < length cache
      → hex_at cache i ≢ hex
  unfolding find_track
  find_track-miss cache hex i e h equal =
      let miss =
        search_first-none (λ k. is_equal g (strcmp (hex_at cache k) hex)) (length cache) 0 i e
          (omega arith) (omega arith) in
      cc (miss, equal-hex cache i hex equal)

  -- The cache has no more entries than its array, and no aircraft twice.
  pub record IsValid (cache : List (BsTrack g)) : Type 0 where
    pub small : length cache ≤ bs_track_max
    pub distinct :
        (i j : ℕ) → i < length cache → j < length cache → i ≢ j → hex_at cache i ≢ hex_at cache j

  not_equal : (s : Sign) → s ≢ same → is_equal g s ≡ false
  not_equal less h = refl
  not_equal same h = absurd (h refl)
  not_equal greater h = refl

  -- In a cache with no aircraft twice, the search finds the entry of the aircraft.
  find_track-distinct :
      (cache : List (BsTrack g)) (hex : List ℕ) (i : ℕ)
      → IsValid cache
      → i < length cache
      → hex_at cache i ≡ hex
      → find_track g cache hex ≡ some i
  unfolding find_track
  find_track-distinct cache hex i valid h e =
      search_first-hit (λ k. is_equal g (strcmp (hex_at cache k) hex)) (length cache) 0 i
        (record {
          after = omega arith;
          before = omega arith;
          hit = equal-hex cache i hex e;
          misses = λ k lo hi. not_equal (strcmp (hex_at cache k) hex) (λ s.
              valid.distinct k i (omega arith) h (omega arith)
                (strcmp-same (hex_at cache k) hex s ∙ sym e));
        })

  -- The cache holds `b` as the last fix of its aircraft.
  abbrev pub Holds : List (BsTrack g) → BsTrack g → Type 0
  Holds cache b =
      (i : ℕ) × (i < length cache) × (find_track g cache b.hex ≡ some i) × (track_at g cache i ≡ b)

  -- An array that agrees with a valid cache but for the fix at `idx`, of an aircraft that is nowhere else.
  put-IsValid :
      (cache cache' : List (BsTrack g)) (idx : ℕ) (b : BsTrack g)
      → IsValid cache
      → length cache' ≤ bs_track_max
      → idx < length cache'
      → track_at g cache' idx ≡ b
      → ((i : ℕ)
          → i < length cache'
          → i ≢ idx
          → (i < length cache) × (track_at g cache' i ≡ track_at g cache i))
      → ((i : ℕ) → i < length cache → i ≢ idx → hex_at cache i ≢ b.hex)
      → IsValid cache' × Holds cache' b
  put-IsValid cache cache' idx b valid small' h here kept others =
      let here_hex : hex_at cache' idx ≡ b.hex = ap (λ t. t.hex) here in
      let apart : (i : ℕ) → i < length cache' → i ≢ idx → hex_at cache' i ≢ b.hex = λ i lt ne e.
        let (old, same_fix) = kept i lt ne in
        others i old ne (sym (ap (λ t. t.hex) same_fix) ∙ e) in
      let valid' : IsValid cache' = record {
        small = small';
        distinct = λ i j i_lt j_lt ne e. elim (ℕ_discrete i idx) [
          | yes i_here ↦
              let j_else : j ≢ idx = λ j_here. ne (i_here ∙ sym j_here) in
              apart j j_lt j_else (sym e ∙ ap (hex_at cache') i_here ∙ here_hex)
          | no i_else ↦ elim (ℕ_discrete j idx) [
            | yes j_here ↦ apart i i_lt i_else (e ∙ ap (hex_at cache') j_here ∙ here_hex)
            | no j_else ↦
                let (i_old, i_same) = kept i i_lt i_else in
                let (j_old, j_same) = kept j j_lt j_else in
                valid.distinct i j i_old j_old ne
                  (sym (ap (λ t. t.hex) i_same) ∙ e ∙ ap (λ t. t.hex) j_same)
          ]
        ];
      } in
      (valid', (idx, h, find_track-distinct cache' b.hex idx valid' h here_hex, here))

  pub set-IsValid :
      (cache : List (BsTrack g)) (idx : ℕ) (b : BsTrack g)
      → IsValid cache
      → idx < length cache
      → ((i : ℕ) → i < length cache → i ≢ idx → hex_at cache i ≢ b.hex)
      → IsValid (set cache idx b) × Holds (set cache idx b) b
  set-IsValid cache idx b valid h others =
      let len = length-set cache idx b in
      let written = get_or-set cache idx in
      put-IsValid cache (set cache idx b) idx b valid (omega (arith, len, valid.small))
        (omega (arith, len)) (written idx b _ h ∙ ground arith)
        (λ i lt ne. (omega (arith, len), written i b _ h ∙ ground (arith, ne))) others

  pub append-IsValid :
      (cache : List (BsTrack g)) (b : BsTrack g)
      → IsValid cache
      → length cache < bs_track_max
      → ((i : ℕ) → i < length cache → hex_at cache i ≢ b.hex)
      → IsValid (cache ++ (b ∷ [])) × Holds (cache ++ (b ∷ [])) b
  append-IsValid cache b valid h others =
      let len = length-append cache (b ∷ []) in
      put-IsValid cache (cache ++ (b ∷ [])) (length cache) b valid (omega (arith, len))
        (omega (arith, len)) (get_or-append_end cache b _)
        (λ i lt ne.
          let old : i < length cache = omega (arith, len, lt, ne) in
          (old, get_or-append cache (b ∷ []) i _ old))
        (λ i lt ne. others i lt)
