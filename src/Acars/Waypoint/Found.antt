-- ===== src/Acars/Waypoint/Found.antt =====
-- The scan for a waypoint's name ends, and what it returns is the position of a name in the text.
use inmarsat_sniffer.Base.{
  ℕ, zero, suc, ◌+◌, ◌-◌, ◌≤◌, ◌<◌, ◌≡◌, refl, arith, ap, ◌∙◌, true, false, ◌==◌, ◌⊎◌, inl, inr,
  if◌then◌else◌, List, Option, none, some, length, at, at-past, Option-cases, Bool-cases, dec_lt,
}
use inmarsat_sniffer.Base.Text.{codes}
use inmarsat_sniffer.Text.{starts_with}
use inmarsat_sniffer.Learned.Parse.{copy_name}
use inmarsat_sniffer.Acars.Label.{is_position_report}
use inmarsat_sniffer.Acars.Waypoint.{
  is_delimiter, skip_token, skip_delimiters, is_name, name_at, scan_names,
  acars_extract_waypoint_position,
}

le-skip_token : (room : ℕ) (text : List ℕ) (i : ℕ) → i ≤ skip_token room text i
unfolding skip_token
le-skip_token zero text i = omega arith
le-skip_token (suc room) text i = ground (arith, le-skip_token room text (i + 1))

le-skip_delimiters : (room : ℕ) (text : List ℕ) (i : ℕ) → i ≤ skip_delimiters room text i
unfolding skip_delimiters
le-skip_delimiters zero text i = omega arith
le-skip_delimiters (suc room) text i = ground (arith, le-skip_delimiters room text (i + 1))

-- Before the end, a delimiter or another byte is passed over.
pass_token :
    (room : ℕ) (text : List ℕ) (i : ℕ)
    → (at text i == 0) ≡ false
    → is_delimiter (at text i) ≡ false
    → i < skip_token (suc room) text i
unfolding skip_token
pass_token room text i more token = ground (arith, more, token, le-skip_token room text (i + 1))

pass_delimiter :
    (room : ℕ) (text : List ℕ) (i : ℕ)
    → is_delimiter (at text i) ≡ true
    → i < skip_delimiters (suc room) text i
unfolding skip_delimiters
pass_delimiter room text i delim = ground (arith, delim, le-skip_delimiters room text (i + 1))

pass :
    (room : ℕ) (text : List ℕ) (i : ℕ)
    → (at text i == 0) ≡ false
    → i < skip_delimiters (suc room) text (skip_token (suc room) text i)
pass room text i more = elim (Bool-cases (is_delimiter (at text i))) [
  | inl delim ↦
      let stay : skip_token (suc room) text i ≡ i = unfold skip_token in ground (arith, delim) in
      rw stay (pass_delimiter room text i delim)
  | inr token ↦ omega (
    arith,
    pass_token room text i more token,
    le-skip_delimiters (suc room) text (skip_token (suc room) text i),
  )
]

inside : (text : List ℕ) (i : ℕ) → (at text i == 0) ≡ false → i < length text
inside text i more = elim (dec_lt i (length text)) [
  | yes lt ↦ lt
  | no ge ↦ absurd (ground (arith, more, at-past text i (omega arith)))
]

module _ {C : Type 0} (waypoint_db_lookup learned_wp_lookup : List ℕ → Option C)
    (text : List ℕ) where
  -- A name of the text whose position is `c`: the database's, or else the learned one.
  pub record IsNamed (c : C) : Type 0 where
    pub place : ℕ
    pub named : is_name text place ≡ true
    pub known :
        (waypoint_db_lookup (copy_name text place 5) ≡ some c)
        ⊎ ((waypoint_db_lookup (copy_name text place 5) ≡ none)
            × (learned_wp_lookup (copy_name text place 5) ≡ some c))

  name_at-IsNamed :
      (i : ℕ) (c : C) → name_at waypoint_db_lookup learned_wp_lookup text i ≡ some c → IsNamed c
  unfolding name_at
  name_at-IsNamed i c e =
      let name : is_name text i ≡ true = ground (arith, e) in
      elim (Option-cases (waypoint_db_lookup (copy_name text i 5))) [
        | inr (c', in_db) ↦
            let same : c' ≡ c = ground (arith, e, name, in_db) in
            record { place = i; named = name; known = inl (in_db ∙ ap some same) }
        | inl not_in_db ↦
            let learned : learned_wp_lookup (copy_name text i 5) ≡ some c =
              ground (arith, e, name, not_in_db) in
            record { place = i; named = name; known = inr (not_in_db, learned) }
      ]

  scan_names-ends :
      (fuel i : ℕ)
      → length text - i < fuel
      → (r : Option C) × (scan_names waypoint_db_lookup learned_wp_lookup fuel text i ≡ some r)
        × ((c : C) → r ≡ some c → IsNamed c)
  unfolding scan_names
  scan_names-ends zero i h = absurd (omega arith)
  scan_names-ends (suc fuel) i h = elim (Bool-cases (at text i == 0)) [
    | inl done ↦ (none, ground (arith, done), λ c e. cc e)
    | inr more ↦
        let room = length text in
        let name = skip_delimiters room text (skip_token room text i) in
        let lt = inside text i more in
        let size : room ≡ suc (room - 1) = omega arith in
        let moved : i < name = rw size (pass (room - 1) text i more) in
        elim (Option-cases (name_at waypoint_db_lookup learned_wp_lookup text name)) [
          | inr (c, found) ↦
              (some c, ground (arith, more, found), λ c' e. name_at-IsNamed name c' (found ∙ e))
          | inl missing ↦
              let (r, e, named) =
                scan_names-ends fuel (skip_token room text name)
                  (omega (arith, moved, lt, le-skip_token room text name)) in
              (r, ground (arith, more, missing, e), named)
        ]
  ]

  -- The extraction returns, whatever the text; a position that it returns is that of a name of five
  -- capital letters which stands in the text before a delimiter or its end, as the database has it, or as
  -- it was learned where the database does not have it.
  pub acars_extract_waypoint_position-IsNamed :
      (label : List ℕ)
      → (r : Option C) × (acars_extract_waypoint_position waypoint_db_lookup learned_wp_lookup label
            text
          ≡ some r)
        × ((c : C) → r ≡ some c → IsNamed c)
  unfolding acars_extract_waypoint_position
  acars_extract_waypoint_position-IsNamed label =
      let start : ℕ = if starts_with text 0 (codes "POS") then 3 else 0 in
      let (r, e, named) = scan_names-ends (length text + 1) start (omega arith) in
      elim (Bool-cases (is_position_report label text)) [
        | inl report ↦ (r, rw report e, named)
        | inr other ↦ (none, rw other refl, λ c e'. cc e')
      ]
