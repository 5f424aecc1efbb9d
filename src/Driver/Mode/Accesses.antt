-- ===== src/Driver/Mode/Accesses.antt =====
-- How often the loops of device_open in source/linux_driver/*/can_pci.c access the controller.
use linux_qemu.Base.{ℕ, zero, suc, ◌+◌, ◌*◌, ◌≤◌, arith, bit_or, bit_and, u8}
use linux_qemu.Frame.{Bus}
use linux_qemu.Driver.Mode.{enter_reset, leave_reset}

-- A controller with the number of accesses that it has seen.
abbrev pub counted_bus : {S : Type 0} → Bus S → Bus (S × ℕ)
counted_bus bus = record {
  read8 = λ (s, k) a. let (v, t) = bus.read8 s a in (v, (t, k + 1));
  write8 = λ (s, k) a v. (bus.write8 s a v, k + 1);
}

module _ {S : Type 0} (bus : Bus S) where
  pub enter_reset-accesses :
      (n temp : ℕ) (s : S) (k : ℕ) → (enter_reset (counted_bus bus) n temp (s, k)).1.1 ≤ k + 2 * n
  unfolding enter_reset
  enter_reset-accesses zero temp s k = omega arith
  enter_reset-accesses (suc n) temp s k =
      let (v, t) = bus.read8 (bus.write8 s 0 (u8 (bit_or temp 1))) 0 in
      ground (arith, enter_reset-accesses n v t (k + 2))

  pub leave_reset-accesses :
      (n temp : ℕ) (s : S) (k : ℕ) → (leave_reset (counted_bus bus) n temp (s, k)).1.1 ≤ k + 2 * n
  unfolding leave_reset
  leave_reset-accesses zero temp s k = omega arith
  leave_reset-accesses (suc n) temp s k =
      let (v, t) = bus.read8 (bus.write8 s 0 (bit_and temp 254)) 0 in
      ground (arith, leave_reset-accesses n v t (k + 2))
