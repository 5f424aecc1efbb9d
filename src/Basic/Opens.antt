-- ===== src/Basic/Opens.antt =====
-- device_open of source/linux_driver/basiccan_mode/can_pci.c on any controller.
use linux_qemu.Base.{ℕ, ◌+◌, ◌≤◌, ◌≡◌, ◌⊎◌, arith}
use linux_qemu.Base.Int.{pos, efault}
use linux_qemu.Frame.{Bus}
use linux_qemu.Driver.{CanDev, empty_rings}
use linux_qemu.Driver.Mode.{enter_reset}
use linux_qemu.Driver.Mode.Accesses.{counted_bus, enter_reset-accesses, leave_reset-accesses}
use linux_qemu.Basic.{set_up, device_open}

module _ {S : Type 0} (bus : Bus S) where
  set_up-accesses : (s : S) (k : ℕ) → (set_up (counted_bus bus) (s, k)).1 ≡ k + 5
  unfolding set_up
  set_up-accesses s k = omega arith

  -- Whatever the controller answers, the function ends after at most 19 accesses to it: with 0 and
  -- empty rings, or with -EFAULT and the rings as they were.
  pub device_open-few_accesses :
      (d : CanDev) (s : S) (k : ℕ)
      → let (ret, d', t) = device_open (counted_bus bus) d (s, k) in
        (((ret ≡ pos 0) × (d' ≡ empty_rings)) ⊎ ((ret ≡ efault) × (d' ≡ d))) × (t.1 ≤ k + 19)
  unfolding device_open
  device_open-few_accesses d s k =
      let (temp0, s0) = bus.read8 s 0 in
      let (temp1, t1) = enter_reset (counted_bus bus) 3 temp0 (s0, k + 1) in
      let t2 : S × ℕ = set_up (counted_bus bus) t1 in
      let (temp2, s2) = bus.read8 t2.0 0 in
      ground (
        arith,
        enter_reset-accesses bus 3 temp0 s0 (k + 1),
        set_up-accesses t1.0 t1.1,
        leave_reset-accesses bus 3 temp2 s2 (t2.1 + 1),
      )
