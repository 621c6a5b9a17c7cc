-- ===== src/Command/Session.antt =====
-- `do_item`, `do_record` and `main` (main.cpp).
pub mod Closed
pub mod Quits
use seztuner.Prelude.{
  ℕ, zero, suc, List, [], ◌∷◌, Option, none, some, Bool, true, false, ◌==◌, if◌then◌else◌,
}
use seztuner.Run.{Run, ok, fail, stuck, M, bind}
use seztuner.Tuner.{Antenna, is_nc, on_dev, set_freq, set_antenna}
use seztuner.Tuner.Reception.{Strength, get_mse}
use seztuner.Tuner.Scan.{scan}
use seztuner.Atsc.Memory.{Env}
use seztuner.Mpgts.Control.{
  Mpgts, Host, on_tun, in_world, new_mpgts, open_dump, open_mpgts, close_mpgts, start_ts,
}
use seztuner.Probe.{Probe, Time, strong_channels}
use seztuner.Keyboard.{rawgetch}
use seztuner.Watch.{Watch, Site, thread, get_ch_id}
use seztuner.Command.Arguments.{Options, no_options, parse_args}

-- A tuner that was found, and the calls of the system. `parse_version` is as in `tuner_init`, `env` is what `init`
-- meets, `malloc_ok` and `qsort` are for a scan, and `scan_progress_cb` prints.
pub record Session (D : Type 0) : Type 0 where
  pub site : Site D
  pub host : Host D
  pub parse_version : List ℕ → Option ℕ
  pub env : ℕ → Env
  pub qsort : List ℕ → List ℕ
  pub malloc_ok : Bool
  pub scan_progress_cb : ℕ → ℕ → D → D
  pub clock : D → D × Time
  pub fopen : Bool

module _ {D : Type 0} (session : Session D) where
  open session use {
    site, host, parse_version, env, qsort, malloc_ok, scan_progress_cb, clock, fopen,
  }
  open site use {bus, behind, moves, keyboard, ip}

  unfoldable pub select_antenna : Antenna → M (Mpgts D) (Unit {0})
  select_antenna ant s = if is_nc ant then ok tt s else on_tun (set_antenna bus behind ant) s

  -- What `do_item` and `do_record` begin with: the channels that were scanned.
  unfoldable pub begin_session : Antenna → M (Mpgts D) (List ℕ)
  begin_session ant s =
      bind (open_mpgts bus host parse_version env s)
        λ _ t. bind (select_antenna ant t) λ _ u. on_tun (scan bus behind none qsort malloc_ok 20) u

  -- The scan whose channels are only printed.
  unfoldable pub show_carriers : M (Mpgts D) (List ℕ)
  show_carriers s = on_tun (scan bus behind (some scan_progress_cb) qsort malloc_ok 80) s

  unfoldable pub probe : ℕ → List ℕ → M (Mpgts D) (List ℕ)
  probe fuel chlist s =
      let now = clock s.tun.dev in
      elim (strong_channels bus behind clock now.1 fuel chlist (record s.tun { dev = now.0 })) [
        | ok strong t ↦ ok strong (record s { tun = t.tun })
        | fail t ↦ fail (record s { tun = t.tun })
        | stuck ↦ stuck
      ]

  -- `close`, and then `return i`: `succeeded` is for 0.
  unfoldable pub close_with : Bool → M (Mpgts D) (Unit {0})
  close_with succeeded s = elim (close_mpgts bus host behind s) [
    | none ↦ stuck
    | some t ↦ if succeeded then ok tt t else fail t
  ]

  unfoldable pub name_channels : ℕ → List ℕ → M (Mpgts D) (Unit {0})
  name_channels fuel strong s = elim (get_ch_id site fuel strong s) [
    | ok text t ↦ close_with true t.itm
    | fail t ↦ close_with false t.itm
    | stuck ↦ stuck
  ]

  unfoldable pub do_item : ℕ → Antenna → M (Mpgts D) (Unit {0})
  do_item fuel ant s = bind (begin_session ant s) λ chlist t.
      bind (show_carriers t)
        λ _ u. bind (probe fuel chlist u) λ strong v. name_channels fuel strong v

  -- Until a key is pressed.
  unfoldable pub record_loop : ℕ → M (Mpgts D) (Unit {0})
  record_loop zero s = stuck
  record_loop (suc n) s = bind (on_tun (on_dev (get_mse bus 0)) s) λ _ t.
      bind (on_tun (on_dev (rawgetch keyboard)) t) λ r u. elim (r == 0) [
        | true ↦ record_loop n (in_world (bus.usleep 100000) u)
        | false ↦ ok tt u
      ]

  unfoldable pub do_record : ℕ → ℕ → Antenna → M (Mpgts D) (Unit {0})
  do_record fuel tvch ant s = bind (begin_session ant s) λ chlist t.
      bind (open_dump 0 fopen t) λ _ u.
        bind (start_ts bus (λ i. thread moves) ip 0 u)
          λ _ v. bind (on_tun (set_freq bus behind 0 tvch 20) v) λ _ w. record_loop fuel w

-- The world that a tuner leaves to the next one.
abbrev pub in_order : {D : Type 0} → Run (Mpgts D) (Unit {0}) → M D (Unit {0}) → Run D (Unit {0})
in_order (ok _ t) next = next t.tun.dev
in_order (fail t) next = fail t.tun.dev
in_order stuck next = stuck

unfoldable pub probe_all : {D : Type 0} → ℕ → Antenna → List (Session D) → M D (Unit {0})
probe_all fuel ant [] d = ok tt d
probe_all fuel ant (session ∷ rest) d =
    in_order (do_item session fuel ant (new_mpgts d)) (probe_all fuel ant rest)

-- What `main` does with the tuners that were found.
unfoldable pub use_tuners : {D : Type 0} → ℕ → Options → List (Session D) → M D (Unit {0})
use_tuners fuel options [] d = fail d
use_tuners fuel options (session ∷ rest) d =
    if options.record_ch == 0
    then probe_all fuel options.selected_antenna (session ∷ rest) d
    else in_order (do_record session fuel options.record_ch options.selected_antenna (new_mpgts d))
        (λ e. ok tt e)

-- `find` is `mpgts::find`. `fail` is the exit status 1.
unfoldable pub main :
    {D : Type 0} → (List ℕ → Option ℕ) → M D (List (Session D)) → ℕ → List (List ℕ) → M D (Unit {0})
main sscanf find fuel args d = elim (parse_args sscanf args no_options) [
  | none ↦ fail d
  | some options ↦ bind (find d) λ list e. use_tuners fuel options list e
]
