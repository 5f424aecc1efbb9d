-- ===== src/Pelican/Race.antt =====
-- device_write of source/linux_driver/pelican_mode/can_pci.c with the interrupt handler running
-- between its statements. Nothing in the driver keeps the two apart. Midway has an
-- interrupt inside send_message.
pub mod Safety
pub mod Lost
pub mod Adds
pub mod Reads
pub mod Midway
use linux_qemu.Base.{
  ℕ, ◌+◌, ◌-◌, bit_and, Option, none, some, ◌>>=◌, Bool, not, ◌==◌, ltb, if◌then◌else◌, length,
  get_elem?, set,
}
use linux_qemu.Base.Int.{ℤ, pos, efault, einval, efbig}
use linux_qemu.Frame.{CanFrame, Bus, frame_size}
use linux_qemu.Driver.{CanDev, buffer_size}
use linux_qemu.Driver.Ring.{advance}
use linux_qemu.Pelican.{send_message}
use linux_qemu.Pelican.Handlers.{irq_handler}

-- Where an interrupt arrives: behind the test for a full ring, behind copy_from_user, behind the
-- reading of the status, and between tx_count++ and tx_in++.
pub record Arrivals : Type 0 where
  pub checked : Bool
  pub copied : Bool
  pub asked : Bool
  pub counted : Bool

module _ {S : Type 0} (bus : Bus S) where
  pub fires : Bool → CanDev → S → Option (CanDev × S)
  fires b d s = let fired = irq_handler bus d s in if b then fired else some (d, s)

  -- The end of the function, from the controller's status `temp` on.
  pub answered : Bool → ℕ → ℤ → ℕ → CanDev → S → Option (ℤ × CanDev × S)
  answered counted temp ret count d s =
      if not (bit_and temp 4 == 4)
      then (do
        (d1, s1) ← fires counted (record d { tx_count = d.tx_count + 1 }) s
        some (pos count, record d1 { tx_in = advance d1.tx_in }, s1))
      else do f ← get_elem? d.tx_buf d.tx_in; t ← send_message bus f s; some (ret, d, t)

  pub device_write_interrupted :
      Arrivals → ℕ → CanFrame → Bool → CanDev → S → Option (ℤ × CanDev × S)
  device_write_interrupted a count slot failed d s =
      if not (count == frame_size)
      then some (einval, d, s)
      else if d.tx_count == buffer_size
      then some (efbig, d, s)
      else do
        (d1, s1) ← fires a.checked d s
        if ltb d1.tx_in (length d1.tx_buf)
            then (do
              let ret = if failed then efault else pos count
              (d2, s2) ← fires a.copied (record d1 { tx_buf = set d1.tx_buf d1.tx_in slot }) s1
              let (temp, s3) = bus.read8 s2 2
              (d4, s4) ← fires a.asked d2 s3
              answered a.counted temp ret count d4 s4)
            else none
