-- ===== src/Station/Line.antt =====
-- The line that `basestation_send_position` prints.
pub mod Fields
use inmarsat_sniffer.Base.{
  ℕ, zero, suc, ◌==◌, ltb, if◌then◌else◌, Bool, true, false, ◌||◌, List, [], ◌∷◌, ◌++◌, Option,
  none, some, length, take,
}
use inmarsat_sniffer.Base.Int.{ℤ, pos, negsuc}
use inmarsat_sniffer.Base.Text.{codes}

-- The next argument, and the rest of the format printed with the others.
abbrev pub next_arg : (List (List ℕ) → List ℕ) → List (List ℕ) → List ℕ
next_arg rest [] = rest []
next_arg rest (arg ∷ args) = arg ++ rest args

-- `snprintf` into a buffer that is large enough, of arguments that are printed already: each conversion
-- ends with `s`, `d` or `f`. `inside` is within a conversion.
unfoldable pub print : Bool → List ℕ → List (List ℕ) → List ℕ
print inside [] args = []
print false (c ∷ format) args = elim (c == b'%') [
  | true ↦ print true format args
  | false ↦ c ∷ print false format args
]
print true (c ∷ format) args = elim (c == b's' || c == b'd' || c == b'f') [
  | true ↦ next_arg (print false format) args
  | false ↦ print true format args
]

-- What is printed of the position: the texts of the date and the time, and of the numbers as `%d`,
-- `%.0f` and `%.6f` print them. There is no altitude for `alt_ft <= -99999`.
pub record Report : Type 0 where
  pub hex : List ℕ
  pub datestamp : List ℕ
  pub timestamp : List ℕ
  pub flight : List ℕ
  pub alt_ft : Option (List ℕ)
  pub track : Option (List ℕ × List ℕ)
  pub lat : List ℕ
  pub lon : List ℕ

-- The arguments that all four formats start with.
abbrev pub stamps : Report → List (List ℕ) → List (List ℕ)
stamps r rest = r.hex ∷ r.datestamp ∷ r.timestamp ∷ r.datestamp ∷ r.timestamp ∷ r.flight ∷ rest

unfoldable pub msg_with : Report → Option (List ℕ) → Option (List ℕ × List ℕ) → List ℕ
msg_with r (some alt_ft) (some (gs_knots, track_deg)) =
    print false (codes "MSG,3,1,1,%s,1,%s,%s,%s,%s,%s,%d,%.0f,%.0f,%.6f,%.6f,,,,,,0\r\n")
      (stamps r (alt_ft ∷ gs_knots ∷ track_deg ∷ r.lat ∷ r.lon ∷ []))
msg_with r (some alt_ft) none =
    print false (codes "MSG,3,1,1,%s,1,%s,%s,%s,%s,%s,%d,,,%.6f,%.6f,,,,,,0\r\n")
      (stamps r (alt_ft ∷ r.lat ∷ r.lon ∷ []))
msg_with r none (some (gs_knots, track_deg)) =
    print false (codes "MSG,3,1,1,%s,1,%s,%s,%s,%s,%s,,%.0f,%.0f,%.6f,%.6f,,,,,,0\r\n")
      (stamps r (gs_knots ∷ track_deg ∷ r.lat ∷ r.lon ∷ []))
msg_with r none none =
    print false (codes "MSG,3,1,1,%s,1,%s,%s,%s,%s,%s,,,,%.6f,%.6f,,,,,,0\r\n")
      (stamps r (r.lat ∷ r.lon ∷ []))

abbrev pub msg_line : Report → List ℕ
msg_line r = msg_with r r.alt_ft r.track
