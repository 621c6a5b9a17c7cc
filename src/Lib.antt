-- ===== src/Lib.antt =====
-- Verification of seztuner, a program that finds Sezmi TV tuners in the local network, tunes them and
-- receives the transport streams they send.
--
-- The parts and how they interact. socket.cpp finds tuners by broadcast and then speaks with one over TCP:
-- every request is a packet with a length and a CRC-32, and `socket::write_then_read` sends one and waits
-- for the answer. On top of it the register methods of socket.cpp read and write the GPIO port and the
-- demodulators. tuner.cpp keeps the state of the two receivers of a tuner (input, channel, antenna) and
-- drives the registers. mpgts.cpp receives UDP datagrams with transport stream packets in a thread and hands
-- each packet to `mpgatsc::thread_demux` (mpgatsc.cpp), which collects sections and parses their tables.
-- main.cpp is the command line, iface.cpp lists network interfaces.
--
-- Which file models what:
--   Crc        `tuner_calc_crc` (socket.cpp) and `mpeg2_crc` (mpgatsc.cpp), a byte at a time. Crc/Serial has
--              the bit-serial registers they are compared with.
--   Frame      `pkt_add_crc` and the checks of `udp_pkt_recv` (socket.cpp). Frame/Layout has the packet.
--   Socket     Socket/Stream: `socket::write`, `socket::read`, `socket::write_then_read`. Socket/Registers:
--              `get_gpio` to `reset_demod` (socket.cpp), over the interface Socket/Bus, which
--              Socket/Stream implements (`bus`). Socket/Link: `socket::open`, `socket::close`.
--   Tuner      `set_amp`, `set_freq`, `set_antenna` (tuner.cpp), `get_freq` (tuner.h), over Socket/Bus.
--              Tuner/Setup: `get_str`, `set_modulation`, `init`. Tuner/Reception: `get_mse`, `start_ts`,
--              `stop_ts` (tuner.cpp). Tuner/Scan: `scan` with `tuner_scan_call_cb`, its callback.
--   Atsc       Atsc/Memory: the members of `mpgatsc` (mpgatsc.h). Atsc/Section: `mpg_parse_hdr`,
--              `atsc_parse_hdr`. Atsc/Pat, Atsc/Mgt, Atsc/Channels: the tables. Atsc/Table: `parse_tbl`.
--              Atsc/Demux: `init`, `thread_demux`, `open_dump`, and the loop over packets in mpgts.cpp (all else is
--              mpgatsc.cpp). Atsc/Demux/Assembler: bytes without buffers, as the specification of `thread_demux`.
--   Mpgts      mpgts.cpp. Mpgts/Thread: a round of `thread_main`, given what the system answers. Mpgts/Control:
--              `open`, `close`, `start_ts`, with `close` of tuner.cpp. Mpgts/Handshake: `thread_main` and `start_ts`
--              as steps that interleave. Mpgts/Pieces: `thread_main` in the pieces between which the other thread looks.
--   Discovery  `tunerfind2`, `find` and their UDP packets (socket.cpp), `foreach_if` (iface.cpp). Discovery/Answers:
--              what a working network sends.
--   Probe      the trial of the scanned channels in `do_item` (main.cpp).
--   Texts      the texts and the list of channels in `get_ch_id` (main.cpp).
--   Watch      all of `get_ch_id` (main.cpp), with the receiving thread at work meanwhile.
--   Keyboard   `rawgetch` (main.cpp).
--   Command    Command/Arguments: the arguments of `main`. Command/Session: `do_item`, `do_record` and `main` (main.cpp).
--   Run        the result of a method that may fail: its state is kept on failure.
--   Bits       laws of `&`, `|` and `^`; Prelude: shared names, tests and lists; Tests: runs.
--
-- Conventions. A u32 is a number below 2 ^ 32 with its wrap-around written out. Bytes of a buffer in memory
-- are a function from offsets, so that a read behind the end gives some byte. A `return 0` is `ok` or `done`,
-- a `return 1` is `fail` or `failed`. Output to stderr is left out.
--
-- The system and the C library are parameters: `Kernel` (Socket/Stream) for write, read, ioctl, pselect,
-- gettimeofday and malloc, with the laws of a working connection in `Reliable`
-- (Socket/Stream/Progress) and of a tuner that answers in `Answers` (Socket/Stream/Exchange); `Env` (Atsc/Memory) for
-- malloc, calloc, iconv, snprintf and the dump file; what stands behind the table `ch_freq` in memory is the
-- argument `behind` of `set_freq`; how sscanf reads
-- the version is an argument of `tuner_init`; `qsort`, malloc's answer and the callback are arguments of `scan`,
-- with what qsort promises in `Sorts` (Tuner/Scan/Order). `Turn` (Mpgts/Thread) is what pselect, recvfrom and the C
-- library answer in one round of the thread, `Host` (Mpgts/Control) stands for sockets and pthreads, with
-- what can be seen of its calls in `Ends` (Command/Session/Quits), and the argument
-- `meanwhile` of `start_ts` for what the thread has done by each of its looks.
-- In Watch the field `moves` of `Site` gives what the thread has done by each look, in the pieces of Mpgts/Pieces: whole
-- rounds, or the stores, resets and datagrams that make up a round, in any order and number, so that the order in
-- which `thread_main` has them is one of those that a theorem about all of them covers.
-- `Keyboard` (Keyboard) stands for tcgetattr, tcsetattr, fgetc and errno, with what a terminal does in `Terminal`
-- (Keyboard/Restored), `clock` in Probe for gettimeofday, with what a clock does in `Ticks` (Probe/Clock), and `sscanf`
-- is an argument of `parse_args`. `Session` (Command/Session) gathers these for one tuner, and `find` is an argument
-- of `main`.
-- `Net` (Discovery) stands for UDP sockets, getifaddrs, ntohl and realloc.
--
-- Memory. Where a size matters a block has one: `read` (Socket/Stream) stores into a block of `pktlen` bytes, and is
-- `stuck` where it would leave it, as code is whose behaviour is undefined; `pat_block` (Atsc/Memory) is the size of the
-- block of `pat`. Elsewhere the sizes are those of the theorems on bounds.
--
-- Fuel. `write_loop` and `read_loop` get one round for each byte, since a call that makes progress moves one
-- at least. `parse_descriptors` gets one round for each byte and one more, and a length that wraps
-- exceeds it: the result `runaway` stands for that. The waiting loop `await` takes its fuel from outside,
-- since the clock decides when it ends. A pass of `scan` gets 27 rounds, of which the last only finds the end, and
-- it has three passes, one for each antenna. The loop over the answers of `tunerfind2` ends with the answers, and
-- takes its fuel from outside. The loops of Probe end when the clock says so: a search for a free receiver within 23
-- looks, the last rounds within 12. `get_ch_id` watches in at most 100 looks; its rounds, and the loop of
-- `do_record`, go on until a key is pressed, and take their fuel from outside.
--
-- Not modelled: `get_hw_addr`, `ip_printf` and the variant of `foreach_if` that is switched off (iface.cpp), and
-- the texts that are printed.
pub mod Prelude
pub mod Tests
pub mod Bits
pub mod Crc
pub mod Frame
pub mod Atsc
pub mod Run
pub mod Socket
pub mod Tuner
pub mod Mpgts
pub mod Discovery
pub mod Probe
pub mod Texts
pub mod Keyboard
pub mod Watch
pub mod Command
