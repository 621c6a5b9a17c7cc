-- ===== src/Tests/Watching.antt =====
-- Two receivers whose channel tables come (main.cpp, `get_ch_id`).
use seztuner.Prelude.{
  ℕ, zero, suc, ◌-◌, ◌%◌, ◌<◌, ◌≡◌, refl, subst, arith, List, [], ◌∷◌, Option, none, some, true,
  false, length, take, IsByte, All, get_or, ltb, ◌==◌, if◌then◌else◌,
}
use seztuner.Run.{Run, ok, fail, stuck}
use seztuner.Socket.Bus.{Bus}
use seztuner.Crc.{mpeg2_crc, mpeg2_crc_loop, mpeg2_crc_byte, xor_selected}
use seztuner.Socket.Registers.{
  set_demod8, set_gpio, reset_demod, get_demod8, get_demod_n, check_demod, exchange, command,
}
use seztuner.Tuner.{
  get_freq, set_freq, tune, freq_of, band, set_amp, set_input, with_gpio, new_input, gpio_word,
  reset_if, settle, set_tvch,
}
use seztuner.Tuner as Tuner
use seztuner.Tuner.Reception
use seztuner.Tuner.Reception.{get_mse, get_locked_mse, status_of, be24, set_output, stop_ts}
use seztuner.Atsc.Memory.{Memory, memcpy, Env}
use seztuner.Atsc.Section.{
  atsc_parse_hdr, check_protocol, mpg_parse_hdr, crc_correct, parse_long, check_version,
  version_field, check_numbers, check_room,
}
use seztuner.Atsc.Channels.{
  parse_vct, vct_loop, channel_line, descriptors_len, parse_descriptors, shortname_ascii,
  code_units, modulation_str,
}
use seztuner.Atsc.Table.{
  parse_tbl, pat_table, psip_table, vct_table, mgt_table, pmt_table, header_ret,
}
use seztuner.Atsc.Demux.{
  init, reset, demux_all, thread_demux, dump, demux_payload, payload_start, start_unit,
  continue_unit, room_for, fill, store_bytes, try_section, section_len,
}
use seztuner.Mpgts.Thread.{
  Turn, readable, datagram, thread_turn, serve_resets, serve_reset, clear, receive, take_datagram,
  packets_from,
}
use seztuner.Mpgts.Pieces.{round, taken, restarted, run_piece, run_pieces}
use seztuner.Mpgts.Control.{start_ts, await_reset, begin_stream, ask_reset}
use seztuner.Texts.{start_texts, gather_both, gather, gather_one, enlarge, add_text}
use seztuner.Keyboard.{Keyboard, rawgetch, key_of, raw}
use seztuner.Watch as Watch
use seztuner.Watch.{
  get_ch_id, start_watch, rounds, tune_both, retune, gather_texts, table_text, Watch, Site, watch,
  all_done, is_set, mark, ask_key, doze, visit_both, visit, await_lock, sample, measure,
  open_stream, await_table, run_thread, thread,
}
use seztuner.Watch.Race.{visit_stale}
use seztuner.Watch.Bytes.{OfBytes}
use seztuner.Watch.Rounds.{get_ch_id_fits}
use seztuner.Atsc.Demux.Short.{AreBytes, Small, init-Small}
use seztuner.Tests.Inputs.{library, fresh_state, all_bytes, all_bytes-All}
use seztuner.Tests.Channels.{silence}
use seztuner.Tests.Threads.{program}

abbrev zeros : ℕ → List ℕ
zeros zero = []
zeros (suc n) = 0x87 ∷ zeros n

-- As many bytes as are asked for, all 0x87: every receiver has locked.
abbrev locked : Bus (Unit {0})
locked = record {
  write_then_read = λ request room d.
      if get_or request 5 0 == 0xb3
      then ok (0 ∷ 0x0d ∷ 0 ∷ get_or request 6 0 ∷ zeros (get_or request 6 0)) d
      else ok (0 ∷ 0x0d ∷ 0 ∷ 0 ∷ []) d;
  usleep = λ microseconds d. d;
}

-- A packet with a terrestrial channel table of one channel.
abbrev table_packet : List ℕ
table_packet =
    0x47 ∷ 0x5f ∷ 0xfb ∷ 0x10 ∷ 0 ∷ 0xc8 ∷ 0xf0 ∷ 0x2d ∷ 0 ∷ 1 ∷ 0xc1 ∷ 0 ∷ 0 ∷ 0 ∷ 1 ∷ 0 ∷ 0x4b ∷ 0
    ∷ 0x54 ∷ 0 ∷ 0x4c ∷ 0 ∷ 0x41 ∷ 0 ∷ 0 ∷ 0 ∷ 0 ∷ 0 ∷ 0 ∷ 0xf0 ∷ 0x1c ∷ 4 ∷ 1 ∷ 0 ∷ 0 ∷ 0 ∷ 0 ∷ 0
    ∷ 1 ∷ 0 ∷ 1 ∷ 0xd ∷ 0xc2 ∷ 0 ∷ 1 ∷ 0xfc ∷ 0 ∷ 0xfc ∷ 0 ∷ 0x60 ∷ 0x43 ∷ 0xa ∷ 0xf6 ∷ []

-- The table's packet behind twelve bytes, and six empty packets.
abbrev received : Memory
received k =
    if ltb k 12
    then 0
    else if ltb k 200
    then get_or table_packet (k - 12) 0xff
    else get_or (0x47 ∷ 0x1f ∷ 0xff ∷ 0x10 ∷ []) ((k - 12) % 188) 0xff

-- It converts short names of four letters.
abbrev converter : Env
converter = record library { convert = λ units. record { complete = true; text = take 4 units } }

abbrev turn : Turn
turn = record {
  select = readable (λ i. true);
  received = λ i. datagram 1328 received;
  init_env = λ i. library;
  packet_env = λ i ofs. converter;
}

-- No key is pressed.
abbrev keyboard : Keyboard (Unit {0})
keyboard = record {
  tcgetattr = λ d. ok (record { c_lflag = 0x8a3b; c_cc = λ i. 1; others = [] }) d;
  tcsetattr = λ a d. ok tt d;
  fgetc = λ d. (d, none);
  errno = λ d. 0;
}

abbrev site : Site (Unit {0})
site = record {
  bus = locked;
  behind = silence;
  moves = λ d. round turn ∷ [];
  keyboard = keyboard;
  ip = 0x7f000001;
  grants = λ n. true;
}

-- The thread has taken the request, and is not scheduled again.
abbrev paused : Site (Unit {0})
paused = record site { moves = λ d. taken 0 ∷ [] }

-- Receiver 0 has locked, and has the table of the channel before.
abbrev stale : Watch (Unit {0})
stale = record {
  itm = record program {
    shared = record {
      atsc = λ i. record fresh_state { vctstr = some (0x4b ∷ 10 ∷ []); iconv_hnd = true };
      want_reset = λ i. 0;
    };
  };
  texts = record { vct_all = []; vct_max = 65536; chlist = 7 ∷ 9 ∷ [] };
  status = λ ch. 0xf;
  go = true;
}

abbrev looked : Run (Watch (Unit {0})) (Unit {0})
looked = visit paused 0 stale

abbrev state_of : Run (Watch (Unit {0})) (Unit {0}) → Watch (Unit {0})
state_of (ok a t) = t
state_of (fail t) = t
state_of stuck = stale

looks : looked ≡ ok tt (state_of looked)
unfolding visit is_set mark open_stream await_table run_thread thread run_pieces run_piece clear
    start_ts Reception.start_ts set_output stop_ts await_reset begin_stream ask_reset exchange
    command get_freq
looks = refl

pending : is_set 0 0x40 stale ≡ false
unfolding is_set
pending = refl

visit_stale_example :
    (is_set 0 0x40 (state_of looked) ≡ true)
    × (((state_of looked).itm.shared.atsc 0).vctstr ≡ some (0x4b ∷ 10 ∷ []))
    × (((run_piece (restarted 0 library) (state_of looked).itm.shared).0.atsc 0).vctstr ≡ none)
visit_stale_example =
    visit_stale paused 0 (0x4b ∷ 10 ∷ []) (λ d. refl) library stale (state_of looked) refl pending
      (refl, refl) looks

abbrev named : Run (Watch (Unit {0})) (List ℕ)
named = get_ch_id site 3 (7 ∷ 9 ∷ []) program

abbrev last_state : Run (Watch (Unit {0})) (List ℕ) → Watch (Unit {0})
last_state (ok a t) = t
last_state (fail t) = t
last_state stuck = stale

-- The name of each channel and a newline.
abbrev names : List ℕ
names = 0x4b ∷ 0x54 ∷ 0x4c ∷ 0x41 ∷ 10 ∷ 0x4b ∷ 0x54 ∷ 0x4c ∷ 0x41 ∷ 10 ∷ []

abbrev gives : Run (Watch (Unit {0})) (List ℕ) → Option (List ℕ)
gives (ok a t) = some a
gives (fail t) = none
gives stuck = none

ok-last_state :
    (r : Run (Watch (Unit {0})) (List ℕ)) (text : List ℕ)
    → gives r ≡ some text
    → r ≡ ok text (last_state r)
ok-last_state (ok a t) text h = ground (arith, h)
ok-last_state (fail t) text h = absurd (ground (arith, h))
ok-last_state stuck text h = absurd (ground (arith, h))

names_come : gives named ≡ some names
unfolding watch all_done is_set mark ask_key rawgetch key_of raw doze visit_both visit await_lock
    sample measure open_stream await_table run_thread thread run_pieces run_piece thread_turn
    serve_resets serve_reset clear receive take_datagram packets_from init reset demux_all
    thread_demux dump demux_payload payload_start start_unit continue_unit room_for fill store_bytes
    memcpy try_section section_len parse_tbl pat_table psip_table vct_table mgt_table pmt_table
    header_ret atsc_parse_hdr check_protocol mpg_parse_hdr crc_correct mpeg2_crc mpeg2_crc_loop
    mpeg2_crc_byte xor_selected parse_long check_version version_field check_numbers check_room
    parse_vct vct_loop channel_line descriptors_len parse_descriptors shortname_ascii code_units
    modulation_str get_mse get_locked_mse status_of be24 get_demod8 get_demod_n check_demod exchange
    command start_ts Reception.start_ts set_output stop_ts await_reset begin_stream ask_reset
    get_freq get_ch_id start_watch start_texts rounds Watch.round tune_both retune set_freq tune
    freq_of band set_amp set_input with_gpio new_input gpio_word set_gpio Tuner.program reset_if
    reset_demod settle set_tvch set_demod8 gather_texts gather_both gather gather_one enlarge
    add_text table_text
names_come = refl

get_or-IsByte : (l : List ℕ) (i : ℕ) → All IsByte l → IsByte (get_or l i 0xff)
get_or-IsByte [] i h = omega arith
get_or-IsByte (x ∷ l) zero h = h.0
get_or-IsByte (x ∷ l) (suc i) h = get_or-IsByte l i h.1

packet-bytes : All IsByte table_packet
unfolding all_bytes
packet-bytes = all_bytes-All table_packet refl

received-bytes : AreBytes received
received-bytes k =
    let first = get_or-IsByte table_packet (k - 12) packet-bytes in
    let others =
      get_or-IsByte (0x47 ∷ 0x1f ∷ 0xff ∷ 0x10 ∷ []) ((k - 12) % 188)
        (omega arith, (omega arith, (omega arith, (omega arith, tt)))) in
    ground (arith, first, others)

turn-OfBytes : OfBytes turn
turn-OfBytes = record {
  fresh = λ i ofs k. omega arith;
  received = λ i r rx e.
      let same : received ≡ rx = ground (arith, e) in subst AreBytes same received-bytes;
}

program-Small : (ch : ℕ) → Small (program.shared.atsc ch)
program-Small ch = init-Small library fresh_state (record {
  bytes = λ pid buf e. absurd (ground (arith, e));
  short = λ text e. absurd (ground (arith, e));
})

get_ch_id_fits_example :
    (length names < (last_state named).texts.vct_max)
    × ((last_state named).go ≡ true → (last_state named).texts.chlist ≡ [])
get_ch_id_fits_example =
    get_ch_id_fits site (λ d. (turn-OfBytes, tt)) 3 (7 ∷ 9 ∷ []) names program (last_state named)
      program-Small (ok-last_state named names names_come)
