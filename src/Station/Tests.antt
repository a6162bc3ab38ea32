-- ===== src/Station/Tests.antt =====
-- Runs of basestation.c, and the theorems of this folder at concrete inputs.
use inmarsat_sniffer.Base.{
  ℕ, zero, suc, if◌then◌else◌, ◌+◌, ◌≤◌, ◌<◌, ◌==◌, ltb, ◌≡◌, ◌≢◌, ◌⊎◌, refl, subst, arith, true,
  false, ◌&&◌, List, [], ◌∷◌, Option, none, some, length, at,
}
use mathlib.Core.List.Memᴰ
use inmarsat_sniffer.Base.Int.{ℤ, pos}
use inmarsat_sniffer.Base.Loops.{search_first}
use inmarsat_sniffer.Base.Sorting.{strcmp}
use inmarsat_sniffer.Base.Text.{codes}
use inmarsat_sniffer.Station.Track.{
  Geo, BsTrack, find_track, derived, add_track, bs_derive_track, uint64_max,
}
use inmarsat_sniffer.Station.Track.Inv.{IsValid, Holds}
use inmarsat_sniffer.Station.Track.Fixes.{
  time_at, fix, IsMeasured, speed_between, bs_derive_track-Holds, bs_derive_track-again,
}
use inmarsat_sniffer.Station.Line.{print, Report, msg_with, msg_line}
use inmarsat_sniffer.Station.Line.Fields.{fields_of, no_comma, sbs_fields, IsClean, msg_line-fields}
use inmarsat_sniffer.Station.Clients.{
  Outcome, is_failed, Connections, swap_remove, drop_client, write_loop, write_all,
}
use inmarsat_sniffer.Station.Clients.Inv.{IsOpen}
use inmarsat_sniffer.Station.Clients.Writes.{IsWritten}
use inmarsat_sniffer.Station.Clients.Written.{write_all-IsWritten, write_all-IsOpen}
use inmarsat_sniffer.Station.Endpoint.{
  strrchr, read_endpoint, endpoint_of, IsHost, endpoint_of-valid,
}
use inmarsat_sniffer.Station.{
  Prints, Station, Position, send_line, send_known, basestation_send_position,
}
use inmarsat_sniffer.Station.Sent.{PrintsClean, AllSbs, basestation_send_position-AllSbs}

-- A world of whole numbers on a line.
abbrev flat : Geo
flat = record {
  F = ℕ;
  zero_f = 0;
  bs_distance_nm = λ lat1 lon1 lat2 lon2. lon2;
  knots = λ dist dt. dist;
  plausible = λ v. ltb 0 v && ltb v 700;
  bs_bearing = λ lat1 lon1 lat2 lon2. 90;
}

abbrev one_track : List (BsTrack flat)
one_track = record { hex = codes "3C6444"; lat = 5; lon = 6; timestamp_ns = 7 } ∷ []

one_track-IsValid : IsValid flat one_track
one_track-IsValid = record {
  small = omega arith;
  distinct = λ i j i_lt j_lt ne e. ne (omega arith);
}

one_track-times : (i : ℕ) → time_at flat one_track i ≤ uint64_max
one_track-times zero = omega arith
one_track-times (suc i) = omega arith

bs_derive_track-Holds_example :
    IsValid flat (bs_derive_track flat one_track (codes "A98539") 1 2 3).0
    × Holds flat
        (bs_derive_track flat one_track (codes "A98539") 1 2 3).0
        (fix flat (codes "A98539") 1 2 3)
bs_derive_track-Holds_example =
    bs_derive_track-Holds flat one_track (codes "A98539") 1 2 3 one_track-IsValid one_track-times
      refl

abbrev fixed_once : List (BsTrack flat)
fixed_once = (bs_derive_track flat one_track (codes "3C6444") 1 2 3).0

bs_derive_track-again_example :
    let again = (bs_derive_track flat fixed_once (codes "3C6444") 1 300 60000000003).1 in
    (IsMeasured flat 1 2 1 300 60000000000
      × (again ≡ some (speed_between flat 1 2 1 300 60000000000, 90)))
    ⊎ ((¬ IsMeasured flat 1 2 1 300 60000000000) × (again ≡ none))
bs_derive_track-again_example =
    bs_derive_track-again flat one_track (codes "3C6444") 1 2 1 300 3 60000000000 one_track-IsValid
      one_track-times refl (omega arith)

measured : derived flat (fix flat (codes "3C6444") 1 2 3) 1 300 60000000003 ≡ some (300, 90)
unfolding derived
measured = refl

abbrev report : Report
report = record {
  hex = codes "3C6444";
  datestamp = codes "2026/01/02";
  timestamp = codes "03:04:05.000";
  flight = codes "DLH1";
  alt_ft = some (codes "35000");
  track = none;
  lat = codes "50.1";
  lon = codes "8.5";
}

report-IsClean : IsClean report
unfolding no_comma
report-IsClean = record {
  hex = refl;
  datestamp = refl;
  timestamp = refl;
  flight = refl;
  alt_ft = refl;
  gs_knots = refl;
  track_deg = refl;
  lat = refl;
  lon = refl;
}

report_printed :
    msg_line report
    ≡ codes
        "MSG,3,1,1,3C6444,1,2026/01/02,03:04:05.000,2026/01/02,03:04:05.000,DLH1,35000,,,50.1,8.5,,,,,,0\r\n"
unfolding msg_with print
report_printed = refl

msg_line-fields_example : fields_of (msg_line report) ≡ sbs_fields report
msg_line-fields_example = msg_line-fields report report-IsClean

-- Three connections, of which the first fails.
abbrev three : Connections
three = record {
  clients = 7 ∷ 8 ∷ 9 ∷ [];
  bs_client_fd = none;
  push = false;
  closed = [];
  written = [];
}

-- The second would block, and the third takes ten bytes.
abbrev seven_fails : ℕ → Outcome
seven_fails fd =
    if fd == 7 then Outcome.failed else if fd == 8 then Outcome.would_block else Outcome.sent 10

first_dropped : (write_all seven_fails three).clients ≡ 9 ∷ 8 ∷ []
unfolding write_all write_loop is_failed drop_client swap_remove
first_dropped = refl

write_all-IsWritten_example : IsWritten seven_fails three 0 (write_all seven_fails three)
write_all-IsWritten_example = write_all-IsWritten seven_fails three

at-three : (i : ℕ) → i < 3 → at (7 ∷ 8 ∷ 9 ∷ []) i ≡ 7 + i
at-three zero h = refl
at-three (suc zero) h = refl
at-three (suc (suc zero)) h = refl
at-three (suc (suc (suc i))) h = absurd (omega arith)

three-IsOpen : IsOpen (7 ∷ 8 ∷ 9 ∷ [])
three-IsOpen = record {
  small = omega arith;
  distinct = λ i j i_lt j_lt ne e. ne (omega (arith, at-three i i_lt, at-three j j_lt, e));
}

-- As client, where the one write fails.
abbrev pushing : Connections
pushing = record three { clients = 7 ∷ []; bs_client_fd = some 7; push = true }

push_lost : (write_all seven_fails pushing).bs_client_fd ≡ none
unfolding write_all write_loop is_failed drop_client
push_lost = refl

abbrev none_fails : ℕ → Outcome
none_fails fd = if fd == 8 then Outcome.would_block else Outcome.sent 10

blocked_kept :
    (write_all none_fails three).written
    ≡ (7, Outcome.sent 10) ∷ (8, Outcome.would_block) ∷ (9, Outcome.sent 10) ∷ []
unfolding write_all write_loop is_failed
blocked_kept = refl

write_all-IsOpen_example :
    IsOpen (write_all seven_fails three).clients
    × ((j : ℕ)
        → j < length (write_all seven_fails three).clients
        → at (write_all seven_fails three).clients j ≢ 7)
    × ((i : ℕ)
        → i < 3
        → i ≢ 0
        → (j : ℕ) × (j < length (write_all seven_fails three).clients)
          × (at (write_all seven_fails three).clients j ≡ at three.clients i))
write_all-IsOpen_example =
    write_all-IsOpen seven_fails three 0 refl three-IsOpen (omega arith) refl
      (λ j lt. absurd (omega arith))

abbrev port_7 : List ℕ → ℤ
port_7 s = pos 7

endpoint_read : endpoint_of port_7 (codes "host:7") ≡ some (some (codes "host"), 7)
unfolding endpoint_of read_endpoint strrchr
endpoint_read = refl

endpoint_of-valid_example :
    ((0 < 7) × (7 < 65536))
    × ((h : List ℕ) → some (codes "host") ≡ some h → IsHost (codes "host:7") h)
endpoint_of-valid_example =
    endpoint_of-valid port_7 (codes "host:7") (some (codes "host")) 7 endpoint_read

-- A printer that prints no digit at all.
abbrev dashes : Prints ℕ
dashes = record {
  decimal = λ n. codes "-";
  whole = λ v. codes "-";
  six_places = λ v. codes "-";
  datestamp = λ t. codes "-";
  timestamp = λ t. codes "-";
  non_negative = λ v. true;
}

dashes-PrintsClean : PrintsClean dashes
unfolding no_comma
dashes-PrintsClean = record {
  decimal = λ n. refl;
  whole = λ v. refl;
  six_places = λ v. refl;
  datestamp = λ t. refl;
  timestamp = λ t. refl;
}

abbrev one_aircraft : List ℕ → Option (List ℕ)
one_aircraft reg = some (codes "3C6444")

one_aircraft-clean : (reg hex : List ℕ) → one_aircraft reg ≡ some hex → no_comma hex ≡ true
one_aircraft-clean reg hex e =
    let same_hex : codes "3C6444" ≡ hex = cc e in
    subst (λ h. no_comma h ≡ true) same_hex report-IsClean.hex

abbrev start : Station flat dashes one_aircraft
start = record { bs_active = true; bs_track = one_track; net = three; lines = [] }

abbrev position : Position flat dashes one_aircraft
position = record {
  reg = codes "D-AIBD";
  flight = codes "DLH1";
  lat = 1;
  lon = 2;
  alt_ft = pos 35000;
  gs_knots_in = 300;
  track_deg_in = 90;
  timestamp_ns = 3;
}

abbrev after : Station flat dashes one_aircraft
after = basestation_send_position flat dashes one_aircraft seven_fails 0 start position

flight-clean : no_comma (codes "DLH1") ≡ true
unfolding no_comma
flight-clean = refl

basestation_send_position-AllSbs_example : AllSbs flat dashes one_aircraft after
basestation_send_position-AllSbs_example =
    basestation_send_position-AllSbs flat dashes one_aircraft dashes-PrintsClean one_aircraft-clean
      seven_fails 0 start position flight-clean (λ l m. absurd (Memᴰ.not-nil m))

line_sent : after.lines ≡ codes "MSG,3,1,1,3C6444,1,-,-,-,-,DLH1,-,-,-,-,-,,,,,,0\r\n" ∷ []
unfolding basestation_send_position send_known send_line msg_with print bs_derive_track find_track
    search_first strcmp add_track
line_sent = refl
