-- ===== src/Basic.antt =====
-- source/linux_driver/basiccan_mode/can_pci.c: the driver for the controller in BasicCAN mode.
-- `none` is an access outside an array, undefined in C.
pub mod Transfer
pub mod Interrupt
pub mod Opens
pub mod Fill
pub mod Logs
pub mod Threads
use linux_qemu.Base.{
  ℕ, ◌+◌, ◌*◌, ◌/◌, ◌^◌, bit_and, bit_or, not, leb, Bool, Option, none, some, ◌>>=◌, u8, u32, ◌==◌,
  if◌then◌else◌,
}
use linux_qemu.Base.Int.{ℤ, pos, efault}
use linux_qemu.Bits.{has}
use linux_qemu.Frame.{CanFrame, zero_frame, Bus}
use linux_qemu.Driver
use linux_qemu.Driver.{CanDev, buffer_size, empty_rings, irq_transmit, irq_receive}
use linux_qemu.Driver.Probe
use linux_qemu.Driver.Probe.{Answers, Held}
use linux_qemu.Driver.Mode.{sja_mode_reg, in_reset, enter_reset, leave_reset}
use linux_qemu.Pelican.{send_data, receive_data, sja_command_reg}

module _ {S : Type 0} (bus : Bus S) where
  pub send_message : CanFrame → S → Option S
  send_message f s =
      let s1 = bus.write8 s 10 (bit_and (f.can_id / 2 ^ 3) 0xff) in
      let id_low = bit_and (u32 (f.can_id * 2 ^ 5)) 0xe0 in
      let remote = if has f.can_id (2 ^ 30) then u8 (bit_or id_low (2 ^ 4)) else id_low in
      let temp = u8 (bit_or remote (bit_and f.can_dlc 0x0f)) in
      let s2 = bus.write8 s1 11 temp in
      do s' ← send_data bus f.bytes f.can_dlc 0 12 s2; some (bus.write8 s' sja_command_reg 0x01)

  unfoldable pub receive_message : S → Option (CanFrame × S)
  receive_message s =
      let (b1, s1) = bus.read8 s 20 in
      let (b2, s2) = bus.read8 s1 21 in
      let id1 = bit_and (b1 * 2 ^ 3) (0xff * 2 ^ 3) in
      let id2 = bit_or id1 (bit_and (b2 / 2 ^ 5) 0x07) in
      let id = if has b2 0x10 then bit_or id2 (2 ^ 30) else id2 in
      let dlc = bit_and b2 0x0f in
      do
        (bytes, s3) ← receive_data bus dlc 0 22 zero_frame.bytes s2
        some (
          record { can_id = id; can_dlc = dlc; bytes = bytes },
          bus.write8 s3 sja_command_reg 0x04,
        )

  unfoldable pub irq_overrun : ℕ → S → S
  irq_overrun temp s = if has temp 8 then bus.write8 s 1 8 else s

  unfoldable pub irq_handler : CanDev → S → Option (CanDev × S)
  irq_handler d s =
      let (temp, s1) = bus.read8 s 3 in
      do
        (d2, s2) ← irq_transmit bus send_message temp d s1
        if has temp 1
            then (if leb buffer_size d2.rx_count then some (d2, bus.write8 s2 1 0x04) else do
              (d3, s3) ← irq_receive receive_message d2 s2
              some (d3, irq_overrun temp s3))
            else some (d2, irq_overrun temp s2)

  -- Between the two loops: BasicCAN mode, an acceptance mask that lets all through, and the
  -- transmit and receive interrupts.
  unfoldable pub set_up : S → S
  set_up s =
      let (clock, s1) = bus.read8 s 31 in
      let s2 = bus.write8 s1 31 (bit_and clock 0x7f) in
      let s3 = bus.write8 s2 5 0xff in
      let (control, s4) = bus.read8 s3 0 in bus.write8 s4 0 (u8 (bit_or control (3 * 2 ^ 1)))

  unfoldable pub device_open : CanDev → S → ℤ × CanDev × S
  device_open d s =
      let (temp0, s0) = bus.read8 s sja_mode_reg in
      let (temp1, s1) = enter_reset bus 3 temp0 s0 in
      let (temp2, s2) = bus.read8 (set_up s1) sja_mode_reg in
      let (temp3, s3) = leave_reset bus 3 temp2 s2 in
      if not (in_reset temp1)
      then (efault, d, s1)
      else if in_reset temp3
      then (efault, d, s3)
      else (pos 0, empty_rings, s3)

  unfoldable pub device_release : S → ℤ × S
  device_release s = (pos 0, bus.write8 s sja_mode_reg 1)

  unfoldable pub device_write : ℕ → CanFrame → Bool → CanDev → S → Option (ℤ × CanDev × S)
  device_write = Driver.device_write bus send_message

-- These three agree with pelican_mode/can_pci.c line by line.
unfoldable pub device_read : ℕ → Bool → CanDev → Option (ℤ × Option CanFrame × CanDev)
device_read = Driver.device_read

unfoldable pub pcisimple_probe : Answers → Held → ℤ × Held
pcisimple_probe = Probe.pcisimple_probe

unfoldable pub pcisimple_remove : Held → Option Held
pcisimple_remove = Probe.pcisimple_remove
