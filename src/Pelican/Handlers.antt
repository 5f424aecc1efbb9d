-- ===== src/Pelican/Handlers.antt =====
-- The interrupt handler and the file operations of
-- source/linux_driver/pelican_mode/can_pci.c. The global `device` and the `private_data` of an
-- open file are one object, the `CanDev` that the operations are given.
use linux_qemu.Base.{ℕ, bit_or, not, Bool, Option, some, ◌>>=◌, u8, ◌==◌, if◌then◌else◌, [], ◌∷◌}
use linux_qemu.Base.Int.{ℤ, pos, efault}
use linux_qemu.Bits.{has}
use linux_qemu.Frame.{CanFrame, Bus, write_all}
use linux_qemu.Driver
use linux_qemu.Driver.{CanDev, buffer_size, empty_rings, irq_transmit, irq_receive}
use linux_qemu.Driver.Mode.{sja_mode_reg, in_reset, enter_reset, leave_reset}
use linux_qemu.Pelican.{send_message, receive_message}

module _ {S : Type 0} (bus : Bus S) where
  -- `if (temp & DOI)`
  unfoldable pub irq_overrun : ℕ → S → S
  irq_overrun temp s = if has temp 8 then bus.write8 s 1 8 else s

  unfoldable pub irq_handler : CanDev → S → Option (CanDev × S)
  irq_handler d s =
      let (temp, s1) = bus.read8 s 3 in
      do
        (d2, s2) ← irq_transmit bus (send_message bus) temp d s1
        if has temp 1
            then (if d2.rx_count == buffer_size then some (d2, s2) else do
              (d3, s3) ← irq_receive (receive_message bus) d2 s2
              some (d3, irq_overrun temp s3))
            else some (d2, irq_overrun temp s2)

  -- Between the two loops: PeliCAN mode, one filter that lets all through, both interrupts on.
  unfoldable pub set_up : S → S
  set_up s =
      let (clock, s1) = bus.read8 s 31 in
      let s2 = bus.write8 s1 31 (u8 (bit_or clock 0x80)) in
      let (mode, s3) = bus.read8 s2 sja_mode_reg in
      let s4 = bus.write8 s3 sja_mode_reg (u8 (bit_or mode 8)) in
      let s5 = write_all bus 20 (0xff ∷ 0xff ∷ 0xff ∷ 0xff ∷ []) s4 in
      let (enabled, s6) = bus.read8 s5 4 in bus.write8 s6 4 (u8 (bit_or (bit_or enabled 2) 1))

  unfoldable pub device_open : CanDev → S → ℤ × CanDev × S
  device_open d s =
      let (temp0, s0) = bus.read8 s sja_mode_reg in
      let (temp1, s1) = enter_reset bus 3 temp0 s0 in
      let (temp2, s2) = bus.read8 (set_up s1) sja_mode_reg in
      let (temp3, s3) = leave_reset bus 3 temp2 s2 in
      if not (in_reset temp1)
      then (efault, d, s1)
      else if in_reset temp3
      then (efault, d, s3)
      else (pos 0, empty_rings, s3)

  unfoldable pub device_release : S → ℤ × S
  device_release s = (pos 0, bus.write8 s sja_mode_reg 1)

  unfoldable pub device_write : ℕ → CanFrame → Bool → CanDev → S → Option (ℤ × CanDev × S)
  device_write = Driver.device_write bus (send_message bus)
