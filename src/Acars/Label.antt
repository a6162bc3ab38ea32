-- ===== src/Acars/Label.antt =====
-- Which messages `acars_extract_text_position` and `acars_extract_waypoint_position` read.
use inmarsat_sniffer.Base.{ℕ, ◌==◌, Bool, not, ◌&&◌, ◌||◌, List, at, length}
use inmarsat_sniffer.Base.Text.{codes}
use inmarsat_sniffer.Text.{starts_with}

unfoldable pub label_ok : List ℕ → Bool
label_ok label =
    let a = at label 0 in
    let b = at label 1 in
    (a == b'H' && b == b'1')
    || (a == b'2' && b == b'0')
    || (a == b'4' && b == b'4')
    || (a == b'4' && b == b'J')
    || (a == b'1' && b == b'5')
    || (a == b'S' && b == b'A')

-- The message carries a position: not empty, one of the labels, and no flight plan.
unfoldable pub is_position_report : List ℕ → List ℕ → Bool
is_position_report label text =
    not (length text == 0)
    && label_ok label
    && not (at label 0 == b'H' && at label 1 == b'1' && starts_with text 0 (codes "FPN"))
