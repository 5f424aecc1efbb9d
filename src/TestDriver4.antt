-- ===== src/TestDriver4.antt =====
-- backup/qemu_linux4/qemu_test/qemu_test_pci.c and can_pci.h: the first driver of the emulated CAN
-- controller, which only transmits. Its size_t has the range `word`, and sizeof(struct can_dev),
-- which depends on the kernel's struct cdev, is `dev_size`. `none` is an access outside an array.
pub mod Queue
pub mod Open
pub mod Deliver
pub mod Probe
use linux_qemu.Base.{
  ℕ, zero, suc, ◌+◌, ◌-◌, ◌*◌, ◌%◌, bit_and, bit_or, List, Option, none, some, ◌>>=◌, Bool, not,
  ltb, ◌==◌, if◌then◌else◌, length, get_elem?, set, replicate, u8,
}
use linux_qemu.Base.Int.{ℤ, pos, efault, einval, efbig}
use linux_qemu.Frame.{CanFrame, zero_frame, frame_size, Bus}
use linux_qemu.Driver.{buffer_size}
use linux_qemu.Driver.Mode.{sja_mode_reg, in_reset}
use linux_qemu.Pelican.{send_message}

-- `valid` and `tx_out` are never read.
pub record CanDev : Type 0 where
  pub tx_buf : List CanFrame
  pub tx_count : ℕ
  pub tx_in : ℕ

unfoldable pub device_release : CanDev → ℤ × CanDev
device_release d = (pos 0, d)

-- Reading is not implemented: the answer is 0.
unfoldable pub device_read : ℕ → CanDev → ℤ × CanDev
device_read count d = (pos 0, d)

module _ {S : Type 0} (bus : Bus S) where
  unfoldable pub irq_handler : S → S
  irq_handler s = bus.write8 s 127 0x33

  -- while (... && (count < 3)): `n` tries are left, and how many are left after the loop is the
  -- first component of the result; `temp` is the mode register as last read.
  unfoldable pub enter_reset : ℕ → ℕ → S → ℕ × ℕ × S
  enter_reset zero temp s = (zero, temp, s)
  enter_reset (suc n) temp s =
      let (temp', s') = bus.read8 (bus.write8 s sja_mode_reg (u8 (bit_or temp 1))) sja_mode_reg in
      let rest = enter_reset n temp' s' in if in_reset temp then (suc n, temp, s) else rest

  unfoldable pub leave_reset : ℕ → ℕ → S → ℕ × ℕ × S
  leave_reset zero temp s = (zero, temp, s)
  leave_reset (suc n) temp s =
      let (temp', s') = bus.read8 (bus.write8 s sja_mode_reg (bit_and temp 254)) sja_mode_reg in
      let rest = leave_reset n temp' s' in if in_reset temp then rest else (suc n, temp, s)

  -- `count` is not set back between the loops, so that the second has what the first left.
  unfoldable pub device_open : CanDev → S → ℤ × CanDev × S
  device_open d s =
      let d1 = record d { tx_buf = replicate buffer_size zero_frame } in
      let (temp0, s0) = bus.read8 s sja_mode_reg in
      let (left, temp1, s1) = enter_reset 3 temp0 s0 in
      let (temp2, s2) = bus.read8 s1 sja_mode_reg in
      let (left2, temp3, s3) = leave_reset left temp2 s2 in
      if not (in_reset temp1)
      then (efault, d1, s1)
      else if in_reset temp3
      then (efault, d1, s3)
      else (pos 0, d1, s3)

  -- `slot` is what copy_from_user leaves in the slot, the caller's frame unless it `failed`. The
  -- statements that put the frame into the controller are those of send_message in
  -- source/linux_driver/pelican_mode/can_pci.c, on tx_buf[tx_in].
  unfoldable pub device_write : ℕ → ℕ → ℕ → CanFrame → Bool → CanDev → S → Option (ℤ × CanDev × S)
  device_write word dev_size count slot failed d s =
      let room = (buffer_size * dev_size + word - d.tx_count) % word in
      if ltb room count
      then some (efbig, d, s)
      else if not (count == frame_size)
      then some (einval, d, s)
      else if ltb d.tx_in (length d.tx_buf)
      then (let d1 = record d { tx_buf = set d.tx_buf d.tx_in slot } in
          let ret = if failed then efault else pos 0 in
          let (temp, s1) = bus.read8 s 2 in
          let next = if d.tx_in + 1 == buffer_size then 0 else d.tx_in + 1 in
          if not (bit_and temp 4 == 4)
          then some (
            pos count,
            record d1 { tx_count = (d1.tx_count + dev_size) % word; tx_in = next },
            s1,
          )
          else do f ← get_elem? d1.tx_buf d1.tx_in; s2 ← send_message bus f s1; some (ret, d1, s2))
      else none
