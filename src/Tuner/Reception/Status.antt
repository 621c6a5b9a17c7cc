-- ===== src/Tuner/Reception/Status.antt =====
-- How `get_mse` (tuner.cpp) rearranges the general status register.
use seztuner.Prelude.{ℕ, ◌+◌, ◌-◌, ◌*◌, ◌/◌, ◌%◌, ◌≡◌, refl, IsByte, true}
use seztuner.Bits.Masks.{agree_below, agree_below→eq}
use seztuner.Tuner.Reception.{status_of}

status_table :
    agree_below 256 status_of
      (λ b. 1 + 2 * (1 - b / 8 % 2) + 4 * (b / 4 % 2) + 8 * (b % 2) + 16 * (b / 2 % 2))
    ≡ true
unfolding agree_below status_of
status_table = refl

-- For every byte in the general status register the status that get_mse makes of it has bit 0 set, in
-- bit 1 the inverse of the register's bit 3, in bit 2 its bit 2, in bit 3 its bit 0, in bit 4 its bit 1,
-- and no other bit.
status_of_lem :
    (lock : ℕ)
    → IsByte lock
    → status_of lock
      ≡ 1 + 2 * (1 - lock / 8 % 2) + 4 * (lock / 4 % 2) + 8 * (lock % 2) + 16 * (lock / 2 % 2)
status_of_lem = agree_below→eq 256 _ _ status_table
