-- ===== src/Tests/Program.antt =====
-- The program at a keyboard (main.cpp).
use seztuner.Prelude.{
  ℕ, ◌+◌, ◌-◌, ◌*◌, ◌/◌, ◌%◌, ◌≤◌, ◌≡◌, refl, arith, List, [], ◌∷◌, map, Option, none, some, inl,
  Bool, true, false, ◌==◌, if◌then◌else◌, get_or,
}
use seztuner.Run.{ok, Leaves}
use seztuner.Socket.Bus.{Bus}
use seztuner.Tuner.{ant1, ant2, coax, vhf1}
use seztuner.Tuner.Scan.Ending.{Answers}
use seztuner.Mpgts.Control.{Mpgts, Host, close_mpgts}
use seztuner.Keyboard.{Termios, Keyboard, rawgetch}
use seztuner.Keyboard.Restored.{Terminal, rawgetch_restores}
use seztuner.Command.Arguments.{parse_args, no_options}
use seztuner.Command.Arguments.Shown.{
  Argument, antenna, channel, show, HasRange, parse_args-show, parse_args-HasRange,
}
use seztuner.Command.Session.Closed.{Closed}
use seztuner.Command.Session.Quits.{Ends, close_mpgts_ends}
use seztuner.Tests.Channels.{silence}
use seztuner.Tests.Threads.{program}

-- A terminal on which nothing is typed.
abbrev terminal : Keyboard Termios
terminal = record {
  tcgetattr = λ d. ok d d;
  tcsetattr = λ a d. ok tt a;
  fgetc = λ d. (d, none);
  errno = λ d. 0;
}

terminal-Terminal : Terminal terminal (λ d. d)
terminal-Terminal = record { get = λ d. refl; set = λ a d. (a, refl, refl); keep = λ d. refl }

abbrev cooked : Termios
cooked = record { c_lflag = 0x8a3b; c_cc = λ i. 1; others = [] }

rawgetch_restores_example : Leaves (λ (d : Termios). d ≡ cooked) (rawgetch terminal cooked)
rawgetch_restores_example = rawgetch_restores terminal (λ d. d) terminal-Terminal cooked

-- Numbers of two digits.
abbrev digits : ℕ → List ℕ
digits v = (48 + v / 10) ∷ (48 + v % 10) ∷ []

abbrev sscanf : List ℕ → Option ℕ
sscanf [] = none
sscanf (a ∷ l) = some ((a - 48) * 10 + (get_or l 0 0 - 48))

digits-sscanf : (v : ℕ) → v ≤ 51 → sscanf (digits v) ≡ some v
digits-sscanf v h = ground (arith, h)

-- `-a2 -c36 -a3`
abbrev typed : List Argument
typed = antenna ant2 ∷ channel 36 ∷ antenna coax ∷ []

parse_args-show_example :
    parse_args sscanf (map (show digits) typed) no_options
    ≡ some (record { selected_antenna = coax; record_ch = 36 })
parse_args-show_example =
    parse_args-show sscanf digits typed no_options digits-sscanf
      (refl, ((omega arith, omega arith), (refl, tt)))

parse_args-HasRange_example : HasRange sscanf (record { selected_antenna = coax; record_ch = 36 })
parse_args-HasRange_example =
    parse_args-HasRange sscanf (map (show digits) typed) no_options
      (record { selected_antenna = coax; record_ch = 36 }) (inl refl)
      (parse_args-show sscanf digits typed no_options digits-sscanf
        (refl, ((omega arith, omega arith), (refl, tt))))

-- What can be seen of the system: the connection, the thread, and the sockets that are open.
abbrev System : Type 0
System = Bool × Bool × (ℕ → Bool)

abbrev socket_closed : ℕ → (ℕ → Bool) → ℕ → Bool
socket_closed fd opened other = if fd == other then false else opened other

-- A system without a failure.
abbrev host : Host System
host = record {
  connect = λ (connected, running, opened). ok tt (true, running, opened);
  disconnect = λ (connected, running, opened). (false, running, opened);
  udp_socket = λ d. ok 5 d;
  bind_socket = λ fd d. ok tt d;
  port_of = λ fd d. ok 4000 d;
  create_thread = λ (connected, running, opened). ok tt (connected, true, opened);
  pthread_cancel = λ d. (true, d);
  pthread_join = λ (connected, running, opened). (true, (connected, false, opened));
  close_fd = λ fd (connected, running, opened). (connected, running, socket_closed fd opened);
}

host-Ends : Ends host (λ (d : System). d.0) (λ (d : System). d.1) (λ fd (d : System). d.2 fd)
host-Ends = record {
  hangs_up = λ d. refl;
  cancels = λ d h. refl;
  cancel_starts_none = λ d h. h;
  joins = λ d h. refl;
  closes = λ fd d. ground arith;
  opens_none = λ fd other d h. ground (arith, h);
  cancel_connected = λ d. refl;
  join_connected = λ d. refl;
  close_connected = λ fd d. refl;
  close_running = λ fd d. refl;
}

-- Every request is answered without content.
abbrev silent : Bus System
silent = record {
  write_then_read = λ request room d. ok (0 ∷ 0x0d ∷ 0 ∷ 0 ∷ []) d;
  usleep = λ microseconds d. d;
}

silent-Answers : Answers silent
silent-Answers = record { back = λ request room d e. absurd (ground (arith, e)) }

-- Both receivers are on, the thread runs, and the sockets 5 and 6 are open.
abbrev receiving : Mpgts System
receiving = record {
  tun = record {
    dev = (true, true, λ fd. true);
    cur_gpio = 0x80f0;
    active_ant = ant1;
    ch_state = λ ch. record { i = vhf1; tvch = 7 };
  };
  shared = program.shared;
  udp_sock = λ i. some (5 + i);
  udp_port = λ i. 4000 + i;
  tsth = true;
}

close_mpgts_ends_example :
    (t : Mpgts System) × (close_mpgts silent host silence receiving ≡ some t)
    × Closed t
    × (t.tun.dev.0 ≡ false)
    × (receiving.tsth ≡ true → t.tun.dev.1 ≡ false)
    × ((fd : ℕ) → receiving.udp_sock 0 ≡ some fd → t.tun.dev.2 fd ≡ false)
    × ((fd : ℕ) → receiving.udp_sock 1 ≡ some fd → t.tun.dev.2 fd ≡ false)
close_mpgts_ends_example =
    close_mpgts_ends silent silence host (λ (d : System). d.0) (λ (d : System). d.1)
      (λ fd (d : System). d.2 fd) host-Ends receiving silent-Answers
