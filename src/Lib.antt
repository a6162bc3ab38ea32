-- ===== src/Lib.antt =====
-- The verification library of inmarsat-sniffer, a receiver for Inmarsat-C (STD-C) and Aero signals.
--
-- A radio backend delivers samples, demodulators turn them into soft bits, and stdc_decode.c turns
-- the soft bits of an STD-C carrier into messages: frame sync, row permutation, de-interleaving,
-- Viterbi decoding (viterbi.c), descrambling, check bytes, packet decoders, reassembly. The outputs
-- (feed.c, web.c, basestation.c and others) format the messages. Modelled are the path from soft bits
-- to messages, the network receiver of samples (vita49.c), the cache of waypoints learned from
-- messages (learned_waypoints.c), what the text of an ACARS message says of the aircraft's position
-- (acars_position.c), the tables of aircraft (aircraft_db.c) and of waypoints (waypoint_db.c), the
-- output of positions (basestation.c), and the JSON of STD-C messages (feed.c). These parts keep no
-- state in common: what one needs of another is an argument, as the lookups are that acars_position.c
-- and basestation.c call.
--
-- Base holds what all parts share: numbers, lists, loops and bit operations.
--
-- Viterbi models viterbi.c and viterbi.h: init_metric is viterbi_init, acs is one time step of
-- viterbi_decode, whose survivors are kept newest step first, and traceback and
-- pack_bits are its second half; viterbi_encode and viterbi_ber keep their names. Path metrics are
-- natural numbers with the marks of the source, and num_bits is bounded so that no metric reaches
-- the mark of an unreached state (510 * num_bits < 0x7FFFFFFF; process_frame uses 5120).
-- Allocations are taken to succeed.
--
-- Stdc models stdc_decode.c and stdc_decode.h, with the function names of the source:
--   Stdc/Lookup      get_sat_name .. get_descriptor_name
--   Stdc/Types       stdc_message_t, multiframe_state_t, egc_reassembly_t, stdc_decoder
--   Stdc/Crc         compute_crc
--   Stdc/Interleave  check_sync, depermute, deinterleave, the inversion of process_frame
--   Stdc/Scramble    reverse_bits, descramble
--   Stdc/Text        extract_ia5_text and the short message loops
--   Stdc/Packet      get_packet_length and the check of parse_packets
--   Stdc/Control     the packet decoders without state
--   Stdc/Egc         find_egc_slot, try_emit_egc, decode_egc
--   Stdc/Parse       decode_multiframe_start, decode_multiframe_cont, parse_packets
--   Stdc/Feed        process_frame, stdc_decoder_feed; Feed/FrameTest is frame_to_symbols of
--                    tools/test_stdc.c, the sender
--   Stdc/Safe        the bounds of the decoder's buffers, through all of the above
-- The state is passed explicitly. The callback is a log of the messages, and the counters of main.c
-- that the decoder writes are fields of the state. Buffers are functions from the index. Frequencies
-- are counted in units of 100 Hz, and soft bits (times 127) in units of 2^-16, in which the values
-- are whole; the error rate is a fraction, compared by cross-multiplication. A record of the
-- environment holds the number formats of snprintf, the clock, and the byte that a read outside a
-- buffer meets. parse_packets calls itself on a reassembled packet: it takes the number of calls that
-- may be open at once, and none is a run that does not come back. Its loop has fuel frame_len + 1.
--
-- Learned models learned_waypoints.c: Learned/Coord is parse_dm_coord, Learned/Cache the cache and its
-- lookup, Learned/Parse the scan of learned_wp_parse_fpn. Coordinates are counted in units of 1/600
-- degree, in which they are whole and the comparisons of the doubles are exact. The scan has as fuel
-- one round more than the message has bytes. The lock and the line of statistics are left out.
--
-- Vita models vita49.c, one datagram at a time: Vita/Header is vrl_strip and vrt_parse_header,
-- Vita/Context is vrt_handle_context, Vita/Receive the body of the loop of vita49_thread. Frequencies
-- of a context packet are the raw values, in units of 2^-20 Hz; their printing and the comparison with
-- the options, the socket, and push_samples, for which the pushed buffers are logged, are left out.
--
-- Acars models acars_position.c: Acars/Label the messages that are read, Acars/Position the three
-- formats of acars_extract_text_position, Acars/Altitude the four of acars_extract_text_altitude,
-- Acars/Waypoint the scan of acars_extract_waypoint_position, with the two lookups as parameters and
-- one round of fuel more than the text has bytes. Text holds the string functions they use. The
-- doubles with what is computed on them, strtod and strtol are parameters.
--
-- Aircraft models aircraft_db.c: Aircraft/Line parses one line of the file, Aircraft/Strings is
-- strings_add and strings_get with an int index of 32 bits, and Aircraft the table, its loading, the
-- binary search of aircraft_db_lookup_by_hex (with fuel for each entry and one round more) and the other
-- lookups.
-- Waypoints models waypoint_db.c. The arguments qsort and bsearch of both are of the C library:
-- Base/Sorting states what it documents of a call. Both tables are loaded from the lines that fgets
-- delivers, and allocation is taken to succeed.
--
-- Station models basestation.c: Station/Track is bs_derive_track and its cache, Station/Line the line of
-- basestation_send_position with snprintf written out, Station/Clients the connections (accepting one,
-- and the loop that writes a line to all, with fuel for each connection and one round more; a write
-- takes some bytes, would block, or fails), Station/Endpoint the endpoint of basestation_init, and
-- Station the whole of basestation_send_position.
-- The lookup of the address, the distance and bearing, the texts of numbers and stamps and what
-- each write returns are parameters; the sockets, threads and the lock are left out.
--
-- Feed models the JSON that feed.c prints of an STD-C message: json_escape and feed_stdc_message, with the
-- texts of numbers as a parameter.
--
-- Not modelled: the floating-point signal processing (demod_bpsk.c, channelizer.c, simd_*.c,
-- jaero_dsp), the radio backends and the other outputs, which call libraries and sockets, and main.c, web.c and
-- options.c, which wire the parts together.
pub mod Acars
pub mod Aircraft
pub mod Base
pub mod Feed
pub mod Learned
pub mod Station
pub mod Stdc
pub mod Text
pub mod Vita
pub mod Viterbi
pub mod Waypoints
