-- ===== src/Driver/Mode.antt =====
-- The two loops of device_open in source/linux_driver/*/can_pci.c that move the controller between
-- reset and operation mode. mdelay(10) between the tries is not modelled.
pub mod Accesses
use linux_qemu.Base.{ℕ, zero, suc, bit_and, bit_or, Bool, u8, ◌==◌, if◌then◌else◌}
use linux_qemu.Frame.{Bus}

abbrev pub sja_mode_reg : ℕ
sja_mode_reg = 0

-- (temp & RESET_BIT) == RESET_BIT
abbrev pub in_reset : ℕ → Bool
in_reset temp = bit_and temp 1 == 1

module _ {S : Type 0} (bus : Bus S) where
  -- `n` tries are left, 3 at first; `temp` is the mode register as last read.
  unfoldable pub enter_reset : ℕ → ℕ → S → ℕ × S
  enter_reset zero temp s = (temp, s)
  enter_reset (suc n) temp s =
      let (temp', s') = bus.read8 (bus.write8 s sja_mode_reg (u8 (bit_or temp 1))) sja_mode_reg in
      let rest = enter_reset n temp' s' in if in_reset temp then (temp, s) else rest

  unfoldable pub leave_reset : ℕ → ℕ → S → ℕ × S
  leave_reset zero temp s = (temp, s)
  leave_reset (suc n) temp s =
      let (temp', s') = bus.read8 (bus.write8 s sja_mode_reg (bit_and temp 254)) sja_mode_reg in
      let rest = leave_reset n temp' s' in if in_reset temp then rest else (temp, s)
