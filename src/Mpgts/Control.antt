-- ===== src/Mpgts/Control.antt =====
-- `open`, `close` and `start_ts` (mpgts.cpp), and `tuner::close` (tuner.cpp).
pub mod Start
use seztuner.Prelude.{
  ℕ, zero, suc, ◌+◌, ◌-◌, ◌^◌, List, Option, none, some, Bool, true, false, leb, ◌==◌,
  if◌then◌else◌, update,
}
use seztuner.Run.{Run, ok, fail, stuck, M, bind}
use seztuner.Socket.Bus.{Bus}
use seztuner.Tuner.{nc, Tuner, new_tuner, on_dev, set_antenna, get_freq}
use seztuner.Tuner.Setup.{tuner_init}
use seztuner.Tuner.Reception
use seztuner.Atsc.Memory.{Atsc, new_atsc, Env, Ret, done, failed, runaway}
use seztuner.Atsc.Demux.{init}
use seztuner.Atsc.Demux
use seztuner.Mpgts.Thread.{Receivers, set_atsc}

-- `udp_sock[i]` is `none` for -1, and `tsth` tells whether the thread was created.
pub record Mpgts (D : Type 0) : Type 0 where
  pub tun : Tuner D
  pub shared : Receivers
  pub udp_sock : ℕ → Option ℕ
  pub udp_port : ℕ → ℕ
  pub tsth : Bool

-- The calls of the system: the connection to the tuner, UDP sockets and their ports, and the thread. Those of
-- pthreads tell whether they succeeded.
pub record Host (D : Type 0) : Type 0 where
  pub connect : M D (Unit {0})
  pub disconnect : D → D
  pub udp_socket : M D ℕ
  pub bind_socket : ℕ → M D (Unit {0})
  pub port_of : ℕ → M D ℕ
  pub create_thread : M D (Unit {0})
  pub pthread_cancel : D → Bool × D
  pub pthread_join : D → Bool × D
  pub close_fd : ℕ → D → D

abbrev pub on_tun : {D A : Type 0} → M (Tuner D) A → M (Mpgts D) A
on_tun m s = elim (m s.tun) [
  | ok a t ↦ ok a (record s { tun = t })
  | fail t ↦ fail (record s { tun = t })
  | stuck ↦ stuck
]

abbrev pub in_world : {D : Type 0} → (D → D) → Mpgts D → Mpgts D
in_world f s = record s { tun = record s.tun { dev = f s.tun.dev } }

abbrev pub with_receiver : {D : Type 0} → ℕ → Mpgts D → Atsc × Ret → Run (Mpgts D) (Unit {0})
with_receiver i s (a, done) = ok tt (record s { shared = set_atsc i a s.shared })
with_receiver i s (a, failed) = fail (record s { shared = set_atsc i a s.shared })
with_receiver i s (a, runaway) = stuck

-- `mpgts(...)`
unfoldable pub new_mpgts : {D : Type 0} → D → Mpgts D
new_mpgts dev = record {
  tun = new_tuner dev;
  shared = record { atsc = λ i. new_atsc; want_reset = λ i. 0 };
  udp_sock = λ i. none;
  udp_port = λ i. 0;
  tsth = false;
}

-- `fopen` tells whether the file can be created.
unfoldable pub open_dump : {D : Type 0} → ℕ → Bool → M (Mpgts D) (Unit {0})
open_dump ch fopen s =
    if leb 2 ch then fail s else with_receiver ch s (Demux.open_dump fopen (s.shared.atsc ch))

module _ {D : Type 0} (bus : Bus D) (host : Host D) where
  open host use {
    connect, disconnect, udp_socket, bind_socket, port_of, create_thread, pthread_cancel,
    pthread_join, close_fd,
  }

  unfoldable pub init_receiver : (ℕ → Env) → ℕ → M (Mpgts D) (Unit {0})
  init_receiver env i s = with_receiver i s (init (env i) (s.shared.atsc i))

  unfoldable pub open_udp : ℕ → M (Mpgts D) (Unit {0})
  open_udp i s =
      bind (on_tun (on_dev udp_socket) (record s { udp_sock = update s.udp_sock i none })) λ fd t.
        bind
          (on_tun (on_dev (bind_socket fd)) (record t { udp_sock = update t.udp_sock i (some fd) }))
          λ _ u.
            bind (on_tun (on_dev (port_of fd)) u)
              λ port v. ok tt (record v { udp_port = update v.udp_port i port })

  -- `parse_version` is as in `tuner_init`.
  unfoldable pub open_mpgts : (List ℕ → Option ℕ) → (ℕ → Env) → M (Mpgts D) (Unit {0})
  open_mpgts parse_version env s = bind (on_tun (on_dev connect) s) λ _ t.
      bind (on_tun (tuner_init bus parse_version) t) λ _ u. bind (init_receiver env 0 u) λ _ v.
        bind (init_receiver env 1 v) λ _ w. bind (open_udp 0 w) λ _ x. bind (open_udp 1 x) λ _ y.
          bind (on_tun (on_dev create_thread) (record y { tsth = false }))
            λ _ z. ok tt (record z { tsth = true })

  -- Whatever the antenna's switch says, the connection is closed.
  unfoldable pub close_tuner : (ℕ → ℕ) → Mpgts D → Option (Mpgts D)
  close_tuner behind s = elim (on_tun (set_antenna bus behind nc) s) [
    | ok _ t ↦ some (in_world disconnect t)
    | fail t ↦ some (in_world disconnect t)
    | stuck ↦ none
  ]

  -- A failure of `pthread_cancel` or `pthread_join` is only printed.
  unfoldable pub stop_thread : D → D
  stop_thread d = elim (pthread_cancel d).0 [
    | true ↦ (pthread_join (pthread_cancel d).1).1
    | false ↦ (pthread_cancel d).1
  ]

  unfoldable pub close_thread : Mpgts D → Mpgts D
  close_thread s = if s.tsth then record (in_world stop_thread s) { tsth = false } else s

  unfoldable pub close_udp : ℕ → Mpgts D → Mpgts D
  close_udp i s = elim (s.udp_sock i) [
    | none ↦ s
    | some fd ↦ record (in_world (close_fd fd) s) { udp_sock = update s.udp_sock i none }
  ]

  unfoldable pub close_mpgts : (ℕ → ℕ) → Mpgts D → Option (Mpgts D)
  close_mpgts behind s = elim (close_tuner behind s) [
    | none ↦ none
    | some t ↦ some (close_udp 1 (close_udp 0 (close_thread t)))
  ]

unfoldable pub ask_reset : {D : Type 0} → ℕ → Mpgts D → Mpgts D
ask_reset ch s = record s {
  shared = record s.shared {
    want_reset = update s.shared.want_reset ch (s.shared.want_reset ch + 1);
  };
}

-- `meanwhile i` is what the thread has done up to the look number `i`.
module _ {D : Type 0} (bus : Bus D) (meanwhile : ℕ → Mpgts D → Mpgts D) where
  unfoldable pub await_reset : ℕ → ℕ → ℕ → M (Mpgts D) (Unit {0})
  await_reset ch zero i s = fail s
  await_reset ch (suc n) i s =
      let u = meanwhile i s in
      if u.shared.want_reset ch == 0
      then ok tt u
      else await_reset ch n (suc i) (in_world (bus.usleep 100000) u)

  -- `atsc[ch].tvch` is for the text of the channel table only.
  unfoldable pub begin_stream : ℕ → ℕ → M (Mpgts D) (Unit {0})
  begin_stream ip ch s = on_tun (on_dev (Reception.start_ts bus ip ch (s.udp_port ch))) (record s {
    shared = set_atsc ch (record (s.shared.atsc ch) { tvch = get_freq ch s.tun }) s.shared;
  })

  unfoldable pub start_ts : ℕ → ℕ → M (Mpgts D) (Unit {0})
  start_ts ip ch s =
      if leb 2 ch
      then fail s
      else bind (await_reset ch 3 0 (ask_reset ch s)) λ _ t. begin_stream ip ch t
