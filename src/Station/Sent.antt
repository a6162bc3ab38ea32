-- ===== src/Station/Sent.antt =====
-- Every line that goes out has the form of the format.
use inmarsat_sniffer.Base.{
  ℕ, ◌<◌, ◌==◌, ltb, ◌≡◌, refl, sym, subst, arith, inl, inr, Bool, true, false, not, ◌||◌,
  if◌then◌else◌, List, Option, none, some, length, Option-cases, Bool-cases,
}
use mathlib.Core.Option
use mathlib.Core.List.{Memᴰ}
use mathlib.Core.List.Memᴰ
use inmarsat_sniffer.Base.Int.{ℤ}
use inmarsat_sniffer.Station.Track.{Geo, bs_derive_track}
use inmarsat_sniffer.Station.Line.{Report, msg_line}
use inmarsat_sniffer.Station.Line.Fields.{
  fields_of, no_comma, or_blank, speed_of, heading_of, sbs_fields, IsClean, msg_line-fields,
}
use inmarsat_sniffer.Station.Clients.{Outcome}
use inmarsat_sniffer.Station.{
  Prints, has_altitude, Station, Position, chosen_track, report_of, send_line, send_known,
  basestation_send_position,
}

-- No number and no stamp is printed with a comma.
pub record PrintsClean {F : Type 0} (p : Prints F) : Type 0 where
  pub decimal : (n : ℤ) → no_comma (p.decimal n) ≡ true
  pub whole : (v : F) → no_comma (p.whole v) ≡ true
  pub six_places : (v : F) → no_comma (p.six_places v) ≡ true
  pub datestamp : (t : ℕ) → no_comma (p.datestamp t) ≡ true
  pub timestamp : (t : ℕ) → no_comma (p.timestamp t) ≡ true

-- A line of the format: shorter than the buffer, with the 22 fields of some report.
abbrev pub IsSbs : List ℕ → Type 0
IsSbs l = (length l < 512) × ((r : Report) × (fields_of l ≡ sbs_fields r))

module _ (g : Geo) (p : Prints g.F) (aircraft_db_lookup : List ℕ → Option (List ℕ)) where
  open g use {F}

  abbrev pub AllSbs : Station g p aircraft_db_lookup → Type 0
  AllSbs s = (l : List ℕ) → Memᴰ l s.lines → IsSbs l

  module _ (clean : PrintsClean p)
      (addresses : (reg hex : List ℕ)
        → aircraft_db_lookup reg ≡ some hex
        → no_comma hex ≡ true) where
    altitude-clean :
        (b : Bool) (n : ℤ) → no_comma (or_blank (if b then some (p.decimal n) else none)) ≡ true
    unfolding no_comma
    altitude-clean true n = clean.decimal n
    altitude-clean false n = refl

    track-clean :
        (track : Option (F × F))
        → (no_comma (speed_of (Option.map (λ v. (p.whole v.0, p.whole v.1)) track)) ≡ true)
          × (no_comma (heading_of (Option.map (λ v. (p.whole v.0, p.whole v.1)) track)) ≡ true)
    unfolding no_comma
    track-clean none = (refl, refl)
    track-clean (some v) = (clean.whole v.0, clean.whole v.1)

    report_of-IsClean :
        (hex : List ℕ) (q : Position g p aircraft_db_lookup) (track : Option (F × F)) (now : ℕ)
        → no_comma hex ≡ true
        → no_comma q.flight ≡ true
        → IsClean (report_of g p aircraft_db_lookup hex q track now)
    report_of-IsClean hex q track now h flight = record {
      hex = h;
      datestamp = clean.datestamp now;
      timestamp = clean.timestamp now;
      flight = flight;
      alt_ft = altitude-clean (has_altitude q.alt_ft) q.alt_ft;
      gs_knots = (track-clean track).0;
      track_deg = (track-clean track).1;
      lat = clean.six_places q.lat;
      lon = clean.six_places q.lon;
    }

    send_line-AllSbs :
        (write : ℕ → Outcome) (s : Station g p aircraft_db_lookup) (r : Report)
        → IsClean r
        → AllSbs s
        → AllSbs (send_line g p aircraft_db_lookup write s (msg_line r))
    unfolding send_line
    send_line-AllSbs write s r c all =
        let msg = msg_line r in
        elim (Bool-cases (length msg == 0 || not (ltb (length msg) 512))) [
          | inl unfit ↦ rw unfit all
          | inr fits ↦ rw fits (λ l m. elim (Memᴰ.append_cases s.lines m) [
            | inl old ↦ all l old
            | inr new ↦
                let this : l ≡ msg = Memᴰ.eq_of_singleton new in
                subst IsSbs (sym this) (ground (arith, fits), (r, msg_line-fields r c))
          ])
        ]

    -- Every line that was written has the 22 fields of the format and fits the buffer: sending a position
    -- keeps this, whatever the state, if the call sign has no comma, addresses have none, and no number
    -- or stamp is printed with one.
    pub basestation_send_position-AllSbs :
        (write : ℕ → Outcome) (now : ℕ) (s : Station g p aircraft_db_lookup)
        (q : Position g p aircraft_db_lookup)
        → no_comma q.flight ≡ true
        → AllSbs s
        → AllSbs (basestation_send_position g p aircraft_db_lookup write now s q)
    unfolding basestation_send_position send_known
    basestation_send_position-AllSbs write now s q flight all =
        elim (Bool-cases (not s.bs_active || length q.reg == 0)) [
          | inl silent ↦ rw silent all
          | inr active ↦ elim (Option-cases (aircraft_db_lookup q.reg)) [
            | inl unknown ↦ rw (active, unknown) all
            | inr (hex, known) ↦
                let fix = bs_derive_track g s.bs_track hex q.lat q.lon q.timestamp_ns in
                let track = chosen_track g p aircraft_db_lookup q fix.1 in
                rw (active, known)
                  (send_line-AllSbs write (record s { bs_track = fix.0 })
                    (report_of g p aircraft_db_lookup hex q track now)
                    (report_of-IsClean hex q track now (addresses q.reg hex known) flight) all)
          ]
        ]
