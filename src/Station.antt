-- ===== src/Station.antt =====
-- basestation.c: positions of aircraft as SBS lines for connected clients. The sockets are parameters:
-- what each write returns, and which connections are accepted.
pub mod Track
pub mod Line
pub mod Clients
pub mod Endpoint
pub mod Sent
mod Tests
use inmarsat_sniffer.Base.{
  ℕ, ◌+◌, ◌==◌, ltb, if◌then◌else◌, Bool, true, false, not, ◌&&◌, ◌||◌, List, [], ◌∷◌, ◌++◌, Option,
  none, some, length, at,
}
use mathlib.Core.Option
use inmarsat_sniffer.Base.Int.{ℤ, pos, negsuc}
use inmarsat_sniffer.Station.Track.{Geo, BsTrack, bs_derive_track}
use inmarsat_sniffer.Station.Line.{Report, msg_line}
use inmarsat_sniffer.Station.Clients.{Outcome, Connections, write_all}

-- What the C library prints: `%d`, `%.0f`, `%.6f`, and the two stamps of a time; `non_negative v` is `v >= 0`.
pub record Prints (F : Type 0) : Type 0 where
  pub decimal : ℤ → List ℕ
  pub whole : F → List ℕ
  pub six_places : F → List ℕ
  pub datestamp : ℕ → List ℕ
  pub timestamp : ℕ → List ℕ
  pub non_negative : F → Bool

-- `alt_ft > -99999`
abbrev pub has_altitude : ℤ → Bool
has_altitude (pos n) = true
has_altitude (negsuc n) = ltb (n + 1) 99999

module _ (g : Geo) (p : Prints g.F) (aircraft_db_lookup : List ℕ → Option (List ℕ)) where
  open g use {F}

  -- The static variables; the lines that are written are logged.
  pub record Station : Type 0 where
    pub bs_active : Bool
    pub bs_track : List (BsTrack g)
    pub net : Connections
    pub lines : List (List ℕ)

  -- The arguments of `basestation_send_position`.
  pub record Position : Type 0 where
    pub reg : List ℕ
    pub flight : List ℕ
    pub lat : F
    pub lon : F
    pub alt_ft : ℤ
    pub gs_knots_in : F
    pub track_deg_in : F
    pub timestamp_ns : ℕ

  -- The speed and heading given, where both are, or else those derived.
  abbrev pub chosen_track : Position → Option (F × F) → Option (F × F)
  chosen_track q derived =
      if p.non_negative q.gs_knots_in && p.non_negative q.track_deg_in
      then some (q.gs_knots_in, q.track_deg_in)
      else derived

  -- What the line prints, at the time `now`.
  abbrev pub report_of : List ℕ → Position → Option (F × F) → ℕ → Report
  report_of hex q track now = record {
    hex = hex;
    datestamp = p.datestamp now;
    timestamp = p.timestamp now;
    flight = q.flight;
    alt_ft = if has_altitude q.alt_ft then some (p.decimal q.alt_ft) else none;
    track = Option.map (λ v. (p.whole v.0, p.whole v.1)) track;
    lat = p.six_places q.lat;
    lon = p.six_places q.lon;
  }

  -- Nothing is written of a line that does not fit its buffer.
  unfoldable pub send_line : (ℕ → Outcome) → Station → List ℕ → Station
  send_line write s msg =
      if length msg == 0 || not (ltb (length msg) 512)
      then s
      else record s { net = write_all write s.net; lines = s.lines ++ (msg ∷ []) }

  unfoldable pub send_known : (ℕ → Outcome) → ℕ → Station → Position → List ℕ → Station
  send_known write now s q hex =
      let (bs_track, derived) = bs_derive_track g s.bs_track hex q.lat q.lon q.timestamp_ns in
      send_line write (record s { bs_track = bs_track })
        (msg_line (report_of hex q (chosen_track q derived) now))

  -- `write fd` is what the write to `fd` returns, and `now` the time.
  unfoldable pub basestation_send_position : (ℕ → Outcome) → ℕ → Station → Position → Station
  basestation_send_position write now s q =
      let sent = Option.map (send_known write now s q) (aircraft_db_lookup q.reg) in
      if not s.bs_active || length q.reg == 0 then s else elim sent [ none ↦ s | some s' ↦ s' ]
