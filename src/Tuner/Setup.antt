-- ===== src/Tuner/Setup.antt =====
-- `get_str`, `set_modulation` and `init` (tuner.cpp).
pub mod Silence
use seztuner.Prelude.{
  ℕ, ◌+◌, ◌-◌, ◌*◌, ◌/◌, ◌%◌, ◌^◌, bit_and, bit_or, List, [], ◌∷◌, ◌++◌, Option, none, some, Bool,
  not, ltb, leb, ◌==◌, if◌then◌else◌, take, drop, length,
}
use seztuner.Run.{Run, ok, fail, M, pure, error, bind, fail_if, ◌>>=◌, ◌>>◌}
use seztuner.Socket.Bus.{Bus}
use seztuner.Socket.Registers.{request, get_gpio, get_demod8, set_demod8, reset_demod}
use seztuner.Tuner.{off, vhf1, Tuner, on_dev, set_input, set_amp}

pub data OperatingMode : Type 0 where
  qam64 qam256 vsb : OperatingMode

abbrev pub mode_number : OperatingMode → ℕ
mode_number qam64 = 0
mode_number qam256 = 1
mode_number vsb = 3

-- The registers for VSB with their values.
abbrev pub vsb1 : List (ℕ × ℕ)
vsb1 =
    (0x0d, 0x63)
    ∷ (0x0e, 0x02)
    ∷ (0x12, 0x32)
    ∷ (0x13, 0xc4)
    ∷ (0x106, 0)
    ∷ (0x107, 0)
    ∷ (0x108, 0)
    ∷ (0x109, 0)
    ∷ (0x112, 0x17)
    ∷ (0x113, 0x15)
    ∷ (0x114, 0x18)
    ∷ (0x115, 0xff)
    ∷ (0x116, 0x3c)
    ∷ (0x214, 0x27)
    ∷ (0x424, 0x8d)
    ∷ (0x427, 0x12)
    ∷ (0x428, 0x4f)
    ∷ (0x302, 0x04)
    ∷ (0x303, 0xc0)
    ∷ (0x306, 0x80)
    ∷ (0x307, 0x00)
    ∷ (0x308, 0x80)
    ∷ (0x309, 0x00)
    ∷ (0x30c, 0x31)
    ∷ (0x30d, 0x00)
    ∷ (0x30e, 0x1c)
    ∷ (0x314, 0xe1)
    ∷ []

module _ {D : Type 0} (bus : Bus D) where
  -- The string's bytes, with the NUL that is added when they are fewer than `len`. An answer has at least
  -- its header of four bytes.
  unfoldable pub get_str : ℕ → ℕ → M D (List ℕ)
  get_str idx len = do
    fail_if (ltb 2 idx)
    rx ← bus.write_then_read (request (0x0f ∷ 0xf3 ∷ len ∷ 1 ∷ (idx + 1) ∷ [])) len
    pure (if ltb (length rx - 4) len then drop 4 rx ++ 0 ∷ [] else drop 4 rx)

  unfoldable pub set_registers : ℕ → List (ℕ × ℕ) → M D (Unit {0})
  set_registers ch [] = pure tt
  set_registers ch ((addr, val) ∷ rest) = set_demod8 bus ch addr val >> set_registers ch rest

  -- `case VSB`
  unfoldable pub set_vsb : ℕ → M D (Unit {0})
  set_vsb ch = do
    set_registers ch vsb1
    reset_demod bus ch 20
    b ← get_demod8 bus ch 0x50e
    set_demod8 bus ch 0x50e (bit_or b 0x20)
    reset_demod bus ch 20

  -- The other modes are reported as not implemented, with success.
  unfoldable pub set_mode : ℕ → OperatingMode → M D (Unit {0})
  set_mode ch vsb = set_vsb ch
  set_mode ch qam64 = pure tt
  set_mode ch qam256 = pure tt

  unfoldable pub set_modulation : ℕ → OperatingMode → M D (Unit {0})
  set_modulation ch mode = do
    fail_if (leb 2 ch)
    ctrl ← get_demod8 bus ch 1
    fail_if (ctrl == 0)
    set_demod8 bus ch 0x808 0x80
    bert ← get_demod8 bus ch 0x808
    fail_if (not (bert == 0x80))
    set_demod8 bus ch 0x808 0
    b ← get_demod8 bus ch 0
    set_demod8 bus ch 0 (bit_or (bit_and b 0xfc) (mode_number mode))
    set_mode ch mode

  -- A round of the loop of `init`: the input is made to look like `vhf1`, so that `set_amp` acts.
  unfoldable pub init_channel : ℕ → M (Tuner D) (Unit {0})
  init_channel ch s =
      bind (set_amp bus ch off (set_input ch vhf1 s)) λ _ t. on_dev (set_modulation ch vsb) t

  unfoldable pub init_channels : M (Tuner D) (Unit {0})
  init_channels s = bind (init_channel 0 s) λ _ t. init_channel 1 t

  -- `sscanf` reads the version as `parse_version` says.
  unfoldable pub tuner_init : (List ℕ → Option ℕ) → M (Tuner D) (Unit {0})
  tuner_init parse_version s = bind (on_dev (get_str 0 12) s) λ ver t. elim (parse_version ver) [
    | none ↦ fail t
    | some v ↦ if leb v 20081010 then fail t else init_channels t
  ]

  -- `refresh_gpio` (tuner.h)
  unfoldable pub refresh_gpio : M (Tuner D) (Unit {0})
  refresh_gpio s = bind (on_dev (get_gpio bus) s) λ gpio t. ok tt (record t { cur_gpio = gpio })
