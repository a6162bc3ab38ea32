-- ===== src/Station/Line/Fields.antt =====
-- A reader that splits the line at its commas finds the 22 fields of the SBS format.
use inmarsat_sniffer.Base.{
  ℕ, ◌==◌, ◌≡◌, refl, ap, ◌∙◌, arith, Bool, true, not, ◌&&◌, List, [], ◌∷◌, ◌++◌, Option, none,
  some, if◌then◌else◌,
}
use inmarsat_sniffer.Base.Text.{codes}
use inmarsat_sniffer.Station.Line.{print, Report, msg_with, msg_line}

abbrev pub in_front : ℕ → List (List ℕ) → List (List ℕ)
in_front c [] = (c ∷ []) ∷ []
in_front c (field ∷ fields) = (c ∷ field) ∷ fields

-- The texts between the commas.
unfoldable pub fields_of : List ℕ → List (List ℕ)
fields_of [] = [] ∷ []
fields_of (c ∷ s) = if c == b',' then [] ∷ fields_of s else in_front c (fields_of s)

unfoldable pub no_comma : List ℕ → Bool
no_comma [] = true
no_comma (c ∷ s) = not (c == b',') && no_comma s

-- The field before a comma.
fields_of-comma : (s t : List ℕ) → no_comma s ≡ true → fields_of (s ++ (b',' ∷ t)) ≡ s ∷ fields_of t
unfolding fields_of no_comma
fields_of-comma [] t h = refl
fields_of-comma (c ∷ s) t h = ground (arith, h, fields_of-comma s t)

-- The fields of a report, from an independent description of the format: the message type, session,
-- aircraft, address and flight numbers, the two stamps twice, the call sign, altitude, ground speed,
-- track, latitude and longitude, then five that are empty and the flag of an aircraft on the ground.
abbrev pub or_blank : Option (List ℕ) → List ℕ
or_blank none = []
or_blank (some s) = s

abbrev pub speed_of : Option (List ℕ × List ℕ) → List ℕ
speed_of none = []
speed_of (some v) = v.0

abbrev pub heading_of : Option (List ℕ × List ℕ) → List ℕ
heading_of none = []
heading_of (some v) = v.1

abbrev pub fields_with : Report → List ℕ → List ℕ → List ℕ → List (List ℕ)
fields_with r alt_ft gs_knots track_deg =
    codes "MSG"
    ∷ codes "3"
    ∷ codes "1"
    ∷ codes "1"
    ∷ r.hex
    ∷ codes "1"
    ∷ r.datestamp
    ∷ r.timestamp
    ∷ r.datestamp
    ∷ r.timestamp
    ∷ r.flight
    ∷ alt_ft
    ∷ gs_knots
    ∷ track_deg
    ∷ r.lat
    ∷ r.lon
    ∷ []
    ∷ []
    ∷ []
    ∷ []
    ∷ []
    ∷ codes "0\r\n"
    ∷ []

abbrev pub sbs_fields : Report → List (List ℕ)
sbs_fields r = fields_with r (or_blank r.alt_ft) (speed_of r.track) (heading_of r.track)

-- No text of the report has a comma.
pub record IsClean (r : Report) : Type 0 where
  pub hex : no_comma r.hex ≡ true
  pub datestamp : no_comma r.datestamp ≡ true
  pub timestamp : no_comma r.timestamp ≡ true
  pub flight : no_comma r.flight ≡ true
  pub alt_ft : no_comma (or_blank r.alt_ft) ≡ true
  pub gs_knots : no_comma (speed_of r.track) ≡ true
  pub track_deg : no_comma (heading_of r.track) ≡ true
  pub lat : no_comma r.lat ≡ true
  pub lon : no_comma r.lon ≡ true

field :
    (s t : List ℕ) (rest : List (List ℕ))
    → no_comma s ≡ true
    → fields_of t ≡ rest
    → fields_of (s ++ (b',' ∷ t)) ≡ s ∷ rest
field s t rest h e = fields_of-comma s t h ∙ ap (λ fields. s ∷ fields) e

blank : (t : List ℕ) (rest : List (List ℕ)) → fields_of t ≡ rest → fields_of (b',' ∷ t) ≡ [] ∷ rest
unfolding fields_of
blank t rest e = ap (λ fields. [] ∷ fields) e

one :
    (t : List ℕ) (rest : List (List ℕ))
    → fields_of t ≡ rest
    → fields_of (b'1' ∷ b',' ∷ t) ≡ codes "1" ∷ rest
unfolding fields_of
one t rest e = ap (λ fields. codes "1" ∷ fields) e

msg_3 :
    (t : List ℕ) (rest : List (List ℕ))
    → fields_of t ≡ rest
    → fields_of (codes "MSG,3,1,1," ++ t) ≡ codes "MSG" ∷ codes "3" ∷ codes "1" ∷ codes "1" ∷ rest
unfolding fields_of
msg_3 t rest e = ap (λ fields. codes "MSG" ∷ codes "3" ∷ codes "1" ∷ codes "1" ∷ fields) e

ending : fields_of (codes ",,,,,0\r\n") ≡ [] ∷ [] ∷ [] ∷ [] ∷ [] ∷ codes "0\r\n" ∷ []
unfolding fields_of
ending = refl

module _ (r : Report) (c : IsClean r) where
  abbrev end_text : List ℕ
  end_text = r.lat ++ (b',' ∷ (r.lon ++ (b',' ∷ codes ",,,,,0\r\n")))

  abbrev end_fields : List (List ℕ)
  end_fields = r.lat ∷ r.lon ∷ [] ∷ [] ∷ [] ∷ [] ∷ [] ∷ codes "0\r\n" ∷ []

  end-fields : fields_of end_text ≡ end_fields
  end-fields =
      field r.lat (r.lon ++ (b',' ∷ codes ",,,,,0\r\n"))
        (r.lon ∷ [] ∷ [] ∷ [] ∷ [] ∷ [] ∷ codes "0\r\n" ∷ []) c.lat
        (field r.lon (codes ",,,,,0\r\n") ([] ∷ [] ∷ [] ∷ [] ∷ [] ∷ codes "0\r\n" ∷ []) c.lon
          ending)

  -- The stamps and the call sign, before a text `t`.
  abbrev stamped : List ℕ → List ℕ
  stamped t = r.timestamp ++ (b',' ∷ (r.flight ++ (b',' ∷ t)))

  abbrev dated : List ℕ → List ℕ
  dated t = r.datestamp ++ (b',' ∷ t)

  stamped-fields :
      (t : List ℕ) (rest : List (List ℕ))
      → fields_of t ≡ rest
      → fields_of (stamped t) ≡ r.timestamp ∷ r.flight ∷ rest
  stamped-fields t rest e =
      field r.timestamp (r.flight ++ (b',' ∷ t)) (r.flight ∷ rest) c.timestamp
        (field r.flight t rest c.flight e)

  -- The two stamps, printed twice.
  twice-fields :
      (t : List ℕ) (rest : List (List ℕ))
      → fields_of t ≡ rest
      → fields_of (dated (r.timestamp ++ (b',' ∷ dated (stamped t))))
        ≡ r.datestamp ∷ r.timestamp ∷ r.datestamp ∷ r.timestamp ∷ r.flight ∷ rest
  twice-fields t rest e =
      let second = r.datestamp ∷ r.timestamp ∷ r.flight ∷ rest in
      field r.datestamp (r.timestamp ++ (b',' ∷ dated (stamped t))) (r.timestamp ∷ second)
        c.datestamp
        (field r.timestamp (dated (stamped t)) second c.timestamp (
          field r.datestamp (stamped t) (r.timestamp ∷ r.flight ∷ rest) c.datestamp
            (stamped-fields t rest e)))

  abbrev head_text : List ℕ → List ℕ
  head_text t =
      codes "MSG,3,1,1,"
      ++ (r.hex ++ (b',' ∷ b'1' ∷ b',' ∷ dated (r.timestamp ++ (b',' ∷ dated (stamped t)))))

  head-fields :
      (t : List ℕ) (rest : List (List ℕ))
      → fields_of t ≡ rest
      → fields_of (head_text t)
        ≡ codes "MSG"
          ∷ codes "3"
          ∷ codes "1"
          ∷ codes "1"
          ∷ r.hex
          ∷ codes "1"
          ∷ r.datestamp
          ∷ r.timestamp
          ∷ r.datestamp
          ∷ r.timestamp
          ∷ r.flight
          ∷ rest
  head-fields t rest e =
      let stamps_text = dated (r.timestamp ++ (b',' ∷ dated (stamped t))) in
      let after = r.datestamp ∷ r.timestamp ∷ r.datestamp ∷ r.timestamp ∷ r.flight ∷ rest in
      msg_3 (r.hex ++ (b',' ∷ b'1' ∷ b',' ∷ stamps_text)) (r.hex ∷ codes "1" ∷ after) (
        field r.hex (b'1' ∷ b',' ∷ stamps_text) (codes "1" ∷ after) c.hex
          (one stamps_text after (twice-fields t rest e)))

  -- The speed and the heading before the coordinates.
  track-fields :
      (gs_knots track_deg : List ℕ)
      → no_comma gs_knots ≡ true
      → no_comma track_deg ≡ true
      → fields_of (gs_knots ++ (b',' ∷ (track_deg ++ (b',' ∷ end_text))))
        ≡ gs_knots ∷ track_deg ∷ end_fields
  track-fields gs_knots track_deg h k =
      field gs_knots (track_deg ++ (b',' ∷ end_text)) (track_deg ∷ end_fields) h
        (field track_deg end_text end_fields k end-fields)

  msg_with-fields :
      (alt_ft : Option (List ℕ)) (track : Option (List ℕ × List ℕ))
      → no_comma (or_blank alt_ft) ≡ true
      → no_comma (speed_of track) ≡ true
      → no_comma (heading_of track) ≡ true
      → fields_of (msg_with r alt_ft track)
        ≡ fields_with r (or_blank alt_ft) (speed_of track) (heading_of track)
  unfolding msg_with print
  msg_with-fields (some alt_ft) (some (gs_knots, track_deg)) a h k =
      head-fields (alt_ft ++ (b',' ∷ (gs_knots ++ (b',' ∷ (track_deg ++ (b',' ∷ end_text))))))
        (alt_ft ∷ gs_knots ∷ track_deg ∷ end_fields)
        (field alt_ft (gs_knots ++ (b',' ∷ (track_deg ++ (b',' ∷ end_text))))
          (gs_knots ∷ track_deg ∷ end_fields) a (track-fields gs_knots track_deg h k))
  msg_with-fields (some alt_ft) none a h k =
      head-fields (alt_ft ++ (b',' ∷ b',' ∷ b',' ∷ end_text)) (alt_ft ∷ [] ∷ [] ∷ end_fields) (
        field alt_ft (b',' ∷ b',' ∷ end_text) ([] ∷ [] ∷ end_fields) a
          (blank (b',' ∷ end_text) ([] ∷ end_fields) (blank end_text end_fields end-fields)))
  msg_with-fields none (some (gs_knots, track_deg)) a h k =
      let moving = gs_knots ++ (b',' ∷ (track_deg ++ (b',' ∷ end_text))) in
      head-fields (b',' ∷ moving) ([] ∷ gs_knots ∷ track_deg ∷ end_fields)
        (blank moving (gs_knots ∷ track_deg ∷ end_fields) (track-fields gs_knots track_deg h k))
  msg_with-fields none none a h k =
      head-fields (b',' ∷ b',' ∷ b',' ∷ end_text) ([] ∷ [] ∷ [] ∷ end_fields) (
        blank (b',' ∷ b',' ∷ end_text) ([] ∷ [] ∷ end_fields)
          (blank (b',' ∷ end_text) ([] ∷ end_fields) (blank end_text end_fields end-fields)))

  -- In all four forms of the line, a reader that splits it at the commas finds 22 fields: those of the
  -- format, in order, with an empty one for an altitude, a speed or a heading that is not known, if no
  -- text that is printed has a comma.
  pub msg_line-fields : fields_of (msg_line r) ≡ sbs_fields r
  msg_line-fields = msg_with-fields r.alt_ft r.track c.alt_ft c.gs_knots c.track_deg
