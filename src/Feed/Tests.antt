-- ===== src/Feed/Tests.antt =====
-- A run of feed.c, and the theorems of this folder at concrete inputs.
use inmarsat_sniffer.Base.{
  ℕ, ◌+◌, ◌≤◌, ◌≡◌, refl, arith, List, ◌++◌, some, none, length, take, false,
}
use inmarsat_sniffer.Base.Text.{codes}
use inmarsat_sniffer.Stdc.Types.{MsgType, Message, new_message}
use inmarsat_sniffer.Feed.{
  escape_byte, escape_from, json_escape, type_str, Numbers, before_text, after_text,
  feed_stdc_message,
}
use inmarsat_sniffer.Feed.Escape.{read_string, printed, json_escape-fits, feed_stdc_message-text}

-- A C library that prints every number as `0`.
abbrev zeros : Numbers
zeros = record {
  dec = λ n. codes "0";
  hex_02 = λ n. codes "00";
  fixed_4 = λ n. codes "0.0000";
  fixed_6 = λ n. codes "0.000000";
  now = codes "0.000";
}

abbrev quoted : Message
quoted = record (new_message MsgType.message_data 0xAA) {
  text = codes "SAY \"HI\"\n";
  text_len = 9;
}

abbrev quoted_line : List ℕ
quoted_line =
    codes
      "{\"source\":\"inmarsat-sniffer\",\"type\":\"message\",\"satellite\":\"\",\"descriptor\":\"0x00\""
    ++ codes ",\"text\":\"SAY \\\"HI\\\"\\n\",\"timestamp\":0.000}"

quoted_sent : feed_stdc_message zeros none quoted ≡ some quoted_line
unfolding feed_stdc_message before_text after_text json_escape escape_from escape_byte type_str
quoted_sent = refl

feed_stdc_message-text_example :
    (rest : List ℕ) × (n : ℕ) × (quoted_line
      ≡ before_text zeros none quoted ++ (codes ",\"text\":\"" ++ rest))
    × (read_string false rest
        ≡ some (printed (take n (codes "SAY \"HI\"\n")), after_text zeros none quoted))
    × (length (codes "SAY \"HI\"\n") ≤ 2045 → n ≡ length (codes "SAY \"HI\"\n"))
feed_stdc_message-text_example = feed_stdc_message-text zeros none quoted quoted_line quoted_sent

json_escape-fits_example : length (json_escape 10 (codes "a\"b\"c\"")) + 1 ≤ 10
json_escape-fits_example = json_escape-fits 10 (codes "a\"b\"c\"") (omega arith)
