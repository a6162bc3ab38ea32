-- ===== src/Stdc/Lookup.antt =====
-- The lookup tables of stdc_decode.c, in the order of their `case` labels.
use inmarsat_sniffer.Base.{ℕ, ◌+◌, ◌*◌, ◌||◌, List, ◌==◌, if◌then◌else◌}
use inmarsat_sniffer.Base.Text.{codes}

unfoldable pub get_sat_name : ℕ → List ℕ
get_sat_name sat =
    if sat == 0
    then codes "AOR-W"
    else if sat == 1
    then codes "AOR-E"
    else if sat == 2
    then codes "POR"
    else if sat == 3
    then codes "IOR"
    else if sat == 9
    then codes "All Regions"
    else codes "Unknown"

unfoldable pub get_les_name : ℕ → ℕ → List ℕ
get_les_name sat les_id =
    let v = les_id + sat * 100 in
    if v == 1 || v == 101 || v == 201 || v == 301
    then codes "Vizada-Telenor, USA"
    else if v == 2 || v == 102 || v == 302
    then codes "Stratos Global (Burum-2), Netherlands"
    else if v == 202
    then codes "Stratos Global (Auckland), New Zealand"
    else if v == 3 || v == 103 || v == 203 || v == 303
    then codes "KDDI, Japan"
    else if v == 4 || v == 104 || v == 204 || v == 304
    then codes "Vizada-Telenor, Norway"
    else if v == 44 || v == 144 || v == 244 || v == 344
    then codes "NCS"
    else if v == 105 || v == 335
    then codes "Telecom, Italy"
    else if v == 305 || v == 120
    then codes "OTESTAT, Greece"
    else if v == 306
    then codes "VSNL, India"
    else if v == 110 || v == 310
    then codes "Turk Telecom, Turkey"
    else if v == 211 || v == 311
    then codes "Beijing MCN, China"
    else if v == 12 || v == 112 || v == 212 || v == 312
    then codes "Stratos Global (Burum), Netherlands"
    else if v == 114
    then codes "Embratel, Brazil"
    else if v == 116 || v == 316
    then codes "TP, Poland"
    else if v == 117 || v == 217 || v == 317
    then codes "Morsviazsputnik, Russia"
    else if v == 21 || v == 121 || v == 221 || v == 321
    then codes "Vizada (FT), France"
    else if v == 127 || v == 327
    then codes "Bezeq, Israel"
    else if v == 210 || v == 328
    then codes "Singapore Telecom, Singapore"
    else if v == 330
    then codes "VISHIPEL, Vietnam"
    else codes "Unknown"

unfoldable pub get_service_name : ℕ → List ℕ
get_service_name code =
    if code == 0x00
    then codes "All ships"
    else if code == 0x02
    then codes "FleetNET group call"
    else if code == 0x04
    then codes "SafetyNET rect area warning"
    else if code == 0x11
    then codes "Inmarsat system message"
    else if code == 0x13
    then codes "Coastal warning"
    else if code == 0x14
    then codes "Distress alert (circular)"
    else if code == 0x23
    then codes "EGC system message"
    else if code == 0x24
    then codes "SafetyNET circular area warning"
    else if code == 0x31
    then codes "NAVAREA/METAREA warning"
    else if code == 0x33
    then codes "Download group identity"
    else if code == 0x34
    then codes "SAR coordination (rect)"
    else if code == 0x44
    then codes "SAR coordination (circular)"
    else if code == 0x72
    then codes "FleetNET chart correction"
    else if code == 0x73
    then codes "SafetyNET chart correction"
    else codes "Unknown"

unfoldable pub get_priority_name : ℕ → List ℕ
get_priority_name p =
    if p == 0
    then codes "Routine"
    else if p == 1
    then codes "Safety"
    else if p == 2
    then codes "Urgency"
    else if p == 3
    then codes "Distress"
    else codes "Unknown"

unfoldable pub get_address_length : ℕ → ℕ
get_address_length msg_type =
    if msg_type == 0x00
    then 3
    else if msg_type == 0x11 || msg_type == 0x31
    then 4
    else if msg_type == 0x02 || msg_type == 0x72
    then 5
    else if msg_type == 0x13 || msg_type == 0x23 || msg_type == 0x33 || msg_type == 0x73
    then 6
    else if msg_type == 0x04
        || msg_type == 0x14
        || msg_type == 0x24
        || msg_type == 0x34
        || msg_type == 0x44
    then 7
    else 3

unfoldable pub get_descriptor_name : ℕ → List ℕ
get_descriptor_name d =
    if d == 0x08
    then codes "Ack Request"
    else if d == 0x27
    then codes "Channel Clear"
    else if d == 0x2A
    then codes "Message Ack"
    else if d == 0x6C
    then codes "Signalling Channel"
    else if d == 0x7D
    then codes "Bulletin Board"
    else if d == 0x81
    then codes "Announcement"
    else if d == 0x83
    then codes "Channel Assignment"
    else if d == 0x91
    then codes "Distress Alert Ack"
    else if d == 0x92
    then codes "Login Ack"
    else if d == 0x9A
    then codes "Data Report Ack"
    else if d == 0xA0
    then codes "Distress Test Request"
    else if d == 0xA3
    then codes "Individual Poll"
    else if d == 0xA8
    then codes "Confirmation"
    else if d == 0xAA
    then codes "Message"
    else if d == 0xAB
    then codes "LES List"
    else if d == 0xAC
    then codes "Request Status"
    else if d == 0xAD
    then codes "Test Result"
    else if d == 0xB1
    then codes "EGC Part 1"
    else if d == 0xB2
    then codes "EGC Part 2"
    else if d == 0xBD
    then codes "Multiframe Start"
    else if d == 0xBE
    then codes "Multiframe Continue"
    else codes "Unknown"
