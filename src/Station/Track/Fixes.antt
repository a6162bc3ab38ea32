-- ===== src/Station/Track/Fixes.antt =====
-- What one fix and two fixes of an aircraft do, and which entry a full cache gives up.
use inmarsat_sniffer.Base.{
  ℕ, ◌+◌, ◌-◌, ◌*◌, ◌%◌, ◌^◌, true, ◌≤◌, ◌<◌, ltb, ◌≡◌, ◌≢◌, refl, sym, ap, ◌∙◌, subst, arith, ◌⊎◌,
  inl, inr, List, none, some, length, take, set, Option-cases, Bool-cases, dec_lt, ltb→lt,
}
use inmarsat_sniffer.Base.Loops.{for_range, for_range_inv}
use inmarsat_sniffer.Station.Track.{
  Geo, bs_track_max, uint64_max, BsTrack, track_at, find_track, older, oldest_track, derived,
  add_track, bs_derive_track,
}
use inmarsat_sniffer.Station.Track.Inv.{
  hex_at, find_track-hit, find_track-miss, IsValid, Holds, set-IsValid, append-IsValid,
}

module _ (g : Geo) where
  open g use {F, zero_f, bs_distance_nm, knots, plausible, bs_bearing}

  abbrev pub time_at : List (BsTrack g) → ℕ → ℕ
  time_at cache i = (track_at g cache i).timestamp_ns

  -- After `k` rounds the time is at most that of each entry so far, and it is that of the index unless no
  -- entry was below the start.
  abbrev IsOldest : List (BsTrack g) → ℕ → ℕ × ℕ → Type 0
  IsOldest cache k (oldest, idx) =
      (idx < bs_track_max)
      × ((j : ℕ) → j < k → oldest ≤ time_at cache j)
      × ((time_at cache idx ≡ oldest) ⊎ (oldest ≡ uint64_max))

  older-IsOldest :
      (cache : List (BsTrack g)) (k : ℕ) (s : ℕ × ℕ)
      → k < bs_track_max
      → IsOldest cache k s
      → IsOldest cache (k + 1) (older g cache k s)
  unfolding older
  older-IsOldest cache k (oldest, idx) h (lt, least, is) =
      elim (Bool-cases (ltb (time_at cache k) oldest)) [
        | inl below ↦ rw below (
          h,
          λ j j_lt. elim (dec_lt j k) [
            | yes before ↦ omega (arith, least j before, ltb→lt (time_at cache k) oldest below)
            | no here ↦
                let same_row : j ≡ k = omega arith in omega (arith, ap (time_at cache) same_row)
          ],
          inl refl,
        )
        | inr above ↦ rw above (
          lt,
          λ j j_lt. elim (dec_lt j k) [
            | yes before ↦ least j before
            | no here ↦
                let same_row : j ≡ k = omega arith in
                ground (arith, above, ap (time_at cache) same_row)
          ],
          is,
        )
      ]

  -- The entry that a full cache gives up is within the array, and none is older.
  pub oldest_track-oldest :
      (cache : List (BsTrack g))
      → ((i : ℕ) → time_at cache i ≤ uint64_max)
      → (oldest_track g cache < bs_track_max)
        × ((j : ℕ) → j < bs_track_max → time_at cache (oldest_track g cache) ≤ time_at cache j)
  unfolding oldest_track
  oldest_track-oldest cache times =
      let found : IsOldest cache bs_track_max
          (for_range bs_track_max 0 (older g cache) (uint64_max, 0)) =
        for_range_inv (IsOldest cache) (older g cache) bs_track_max 0 bs_track_max (uint64_max, 0)
          refl (λ k s lo hi inv. older-IsOldest cache k s hi inv)
          (omega arith, λ j h. absurd (omega arith), inr refl) in
      let (lt, least, is) = found in
      (
        lt,
        λ j h. elim is [
          | inl its ↦ omega (arith, its, least j h)
          | inr start ↦ omega (arith, start, least j h, times (oldest_track g cache))
        ],
      )

  abbrev pub fix : List ℕ → F → F → ℕ → BsTrack g
  fix hex lat lon timestamp_ns = record {
    hex = hex;
    lat = lat;
    lon = lon;
    timestamp_ns = timestamp_ns;
  }

  derive-known :
      (cache : List (BsTrack g)) (hex : List ℕ) (lat lon : F) (t i : ℕ)
      → find_track g cache hex ≡ some i
      → bs_derive_track g cache hex lat lon t
        ≡ (set cache i (fix (hex_at g cache i) lat lon t), derived g (track_at g cache i) lat lon t)
  unfolding bs_derive_track
  derive-known cache hex lat lon t i e = ground (arith, e)

  derive-new :
      (cache : List (BsTrack g)) (hex : List ℕ) (lat lon : F) (t : ℕ)
      → find_track g cache hex ≡ none
      → bs_derive_track g cache hex lat lon t
        ≡ (add_track g cache (fix (take 6 hex) lat lon t), none)
  unfolding bs_derive_track
  derive-new cache hex lat lon t e = ground (arith, e)

  add_track-IsValid :
      (cache : List (BsTrack g)) (b : BsTrack g)
      → IsValid g cache
      → ((i : ℕ) → time_at cache i ≤ uint64_max)
      → ((i : ℕ) → i < length cache → hex_at g cache i ≢ b.hex)
      → IsValid g (add_track g cache b) × Holds g (add_track g cache b) b
  unfolding add_track
  add_track-IsValid cache b valid times others =
      elim (Bool-cases (ltb (length cache) bs_track_max)) [
        | inl room ↦
            rw room
              (append-IsValid g cache b valid (ltb→lt (length cache) bs_track_max room) others)
        | inr full ↦
            let (lt, least) = oldest_track-oldest cache times in
            let within : oldest_track g cache < length cache = ground (arith, full, lt) in
            rw full
              (set-IsValid g cache (oldest_track g cache) b valid within (λ i h ne. others i h))
      ]

  -- A fix of an aircraft, known or new, leaves a cache of at most 64 entries that has no aircraft twice,
  -- and in which the last fix of this aircraft is the new one, whichever entry a full cache gives up for
  -- it. The address has at most six bytes, and the times are of 64 bits.
  pub bs_derive_track-Holds :
      (cache : List (BsTrack g)) (hex : List ℕ) (lat lon : F) (timestamp_ns : ℕ)
      → IsValid g cache
      → ((i : ℕ) → time_at cache i ≤ uint64_max)
      → take 6 hex ≡ hex
      → IsValid g (bs_derive_track g cache hex lat lon timestamp_ns).0
        × Holds g
            (bs_derive_track g cache hex lat lon timestamp_ns).0
            (fix hex lat lon timestamp_ns)
  bs_derive_track-Holds cache hex lat lon t valid times short =
      elim (Option-cases (find_track g cache hex)) [
        | inl new ↦
            let e = ap (λ r. r.0) (derive-new cache hex lat lon t new) in
            let added =
              add_track-IsValid cache (fix hex lat lon t) valid times
                (λ i h. find_track-miss g cache hex i new h) in
            subst (λ c. IsValid g c × Holds g c (fix hex lat lon t))
              (sym (e ∙ ap (λ h. add_track g cache (fix h lat lon t)) short)) added
        | inr (i, known) ↦
            let e = ap (λ r. r.0) (derive-known cache hex lat lon t i known) in
            let (h, same_hex) = find_track-hit g cache hex i known in
            let others : (j : ℕ) → j < length cache → j ≢ i → hex_at g cache j ≢ hex =
              λ j j_lt ne equal. valid.distinct j i j_lt h ne (equal ∙ sym same_hex) in
            subst (λ c. IsValid g c × Holds g c (fix hex lat lon t))
              (sym (e ∙ ap (λ x. set cache i (fix x lat lon t)) same_hex))
              (set-IsValid g cache i (fix hex lat lon t) valid h others)
      ]

  -- Fixed twice, the aircraft is found, and measured from its first fix.
  derive-twice :
      (cache : List (BsTrack g)) (hex : List ℕ) (lat lon lat' lon' : F) (t t' : ℕ)
      → IsValid g cache
      → ((i : ℕ) → time_at cache i ≤ uint64_max)
      → take 6 hex ≡ hex
      → (bs_derive_track g (bs_derive_track g cache hex lat lon t).0 hex lat' lon' t').1
        ≡ derived g (fix hex lat lon t) lat' lon' t'
  derive-twice cache hex lat lon lat' lon' t t' valid times short =
      let (valid', (i, h, found, there)) =
        bs_derive_track-Holds cache hex lat lon t valid times short in
      let after = (bs_derive_track g cache hex lat lon t).0 in
      ap (λ r. r.1) (derive-known after hex lat' lon' t' i found)
      ∙ ap (λ b. derived g b lat' lon' t') there

  -- The speed from one position to another is their distance by the time in between.
  abbrev pub speed_between : F → F → F → F → ℕ → F
  speed_between lat lon lat' lon' dt = knots (bs_distance_nm lat lon lat' lon') dt

  -- The time between two fixes is one that is measured over, and the speed is plausible.
  abbrev pub IsMeasured : F → F → F → F → ℕ → Type 0
  IsMeasured lat lon lat' lon' dt =
      (10 * 10 ^ 9 < dt)
      × (dt < 2 * 3600 * 10 ^ 9)
      × (plausible (speed_between lat lon lat' lon' dt) ≡ true)

  derived-elapsed :
      (hex : List ℕ) (lat lon lat' lon' : F) (t dt : ℕ)
      → t + dt ≤ uint64_max
      → (IsMeasured lat lon lat' lon' dt
          × (derived g (fix hex lat lon t) lat' lon' (t + dt)
              ≡ some (speed_between lat lon lat' lon' dt, bs_bearing lat lon lat' lon')))
        ⊎ ((¬ IsMeasured lat lon lat' lon' dt)
            × (derived g (fix hex lat lon t) lat' lon' (t + dt) ≡ none))
  unfolding derived
  derived-elapsed hex lat lon lat' lon' t dt h =
      let elapsed : (t + dt + 2 ^ 64 - t) % 2 ^ 64 ≡ dt = omega arith in
      let speed = speed_between lat lon lat' lon' dt in
      rw elapsed (elim (dec_lt (10 * 10 ^ 9) dt) [
        | no soon ↦ inr (λ m. soon m.0, ground (arith, soon))
        | yes late ↦ elim (dec_lt dt (2 * 3600 * 10 ^ 9)) [
          | no long ↦ inr (λ m. long m.1, ground (arith, long))
          | yes short ↦ elim (Bool-cases (plausible speed)) [
            | inl fits ↦ inl ((late, short, fits), ground (arith, late, short, fits))
            | inr not_fits ↦ inr (λ m. cc (m.2, not_fits), ground (arith, not_fits))
          ]
        ]
      ])

  -- Of two fixes of an aircraft in a row, the second `elapsed` nanoseconds after the first: the result is
  -- the distance from the first position to the second by this time, as the speed, and the bearing from
  -- the first to the second, if the time is more than 10 seconds and less than two hours and the speed is
  -- plausible; otherwise there is none.
  pub bs_derive_track-again :
      (cache : List (BsTrack g)) (hex : List ℕ) (lat lon lat' lon' : F) (timestamp_ns elapsed : ℕ)
      → IsValid g cache
      → ((i : ℕ) → time_at cache i ≤ uint64_max)
      → take 6 hex ≡ hex
      → timestamp_ns + elapsed ≤ uint64_max
      → let after = (bs_derive_track g cache hex lat lon timestamp_ns).0 in
        let again = (bs_derive_track g after hex lat' lon' (timestamp_ns + elapsed)).1 in
        (IsMeasured lat lon lat' lon' elapsed
          × (again ≡ some (speed_between lat lon lat' lon' elapsed, bs_bearing lat lon lat' lon')))
        ⊎ ((¬ IsMeasured lat lon lat' lon' elapsed) × (again ≡ none))
  bs_derive_track-again cache hex lat lon lat' lon' t elapsed valid times short late =
      let twice = derive-twice cache hex lat lon lat' lon' t (t + elapsed) valid times short in
      elim (derived-elapsed hex lat lon lat' lon' t elapsed late) [
        | inl (m, e) ↦ inl (m, twice ∙ e)
        | inr (m, e) ↦ inr (m, twice ∙ e)
      ]
