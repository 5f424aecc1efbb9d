-- ===== src/Driver.antt =====
-- struct can_dev of source/linux_driver/*/can_pci.h, and the file operations that the two drivers
-- of source/linux_driver share but for their send_message. `none` is an access outside an array.
pub mod Ring
pub mod Mode
pub mod Probe
pub mod Fifo
pub mod Invariant
pub mod Traffic
pub mod Repeat
pub mod Threads
pub mod Maps
pub mod Abstract
use linux_qemu.Base.{
  ℕ, ◌+◌, ◌-◌, bit_and, List, Option, none, some, ◌>>=◌, Bool, not, ◌&&◌, ltb, ◌==◌, if◌then◌else◌,
  length, get_elem?, set, replicate,
}
use linux_qemu.Base.Int.{ℤ, pos, efault, einval, efbig}
use linux_qemu.Frame.{CanFrame, zero_frame, frame_size, Bus}
use linux_qemu.Bits.{has}
use Ring.{advance}

abbrev pub buffer_size : ℕ
buffer_size = 6

-- The rings alone: cdev is the kernel's, and mem_base is the bus that the operations are given.
pub record CanDev : Type 0 where
  pub tx_buf : List CanFrame
  pub tx_count : ℕ
  pub tx_in : ℕ
  pub tx_out : ℕ
  pub rx_buf : List CanFrame
  pub rx_count : ℕ
  pub rx_in : ℕ
  pub rx_out : ℕ

-- The two memsets and the six assignments at the end of device_open.
abbrev pub empty_rings : CanDev
empty_rings = record {
  tx_buf = replicate buffer_size zero_frame;
  tx_count = 0;
  tx_in = 0;
  tx_out = 0;
  rx_buf = replicate buffer_size zero_frame;
  rx_count = 0;
  rx_in = 0;
  rx_out = 0;
}

-- `failed` is what copy_to_user answers; the frame that comes back is what the caller's buffer
-- then holds, and is there on success alone.
unfoldable pub device_read : ℕ → Bool → CanDev → Option (ℤ × Option CanFrame × CanDev)
device_read count failed d =
    if not (count == frame_size)
    then some (einval, none, d)
    else if d.rx_count == 0
    then some (pos 0, none, d)
    else do
      f ← get_elem? d.rx_buf d.rx_out
      some (
          if failed then (efault, none, d) else (
            pos count,
            some f,
            record d { rx_out = advance d.rx_out; rx_count = d.rx_count - 1 },
          ))

module _ {S : Type 0} (bus : Bus S) (send : CanFrame → S → Option S) where
  -- `slot` is what copy_from_user leaves in the slot, the caller's frame unless it `failed`.
  unfoldable pub device_write : ℕ → CanFrame → Bool → CanDev → S → Option (ℤ × CanDev × S)
  device_write count slot failed d s =
      if not (count == frame_size)
      then some (einval, d, s)
      else if d.tx_count == buffer_size
      then some (efbig, d, s)
      else if ltb d.tx_in (length d.tx_buf)
      then (let d1 = record d { tx_buf = set d.tx_buf d.tx_in slot } in
          let ret = if failed then efault else pos count in
          let (temp, s1) = bus.read8 s 2 in
          if not (bit_and temp 4 == 4)
          then some
              (pos count, record d1 { tx_count = d1.tx_count + 1; tx_in = advance d1.tx_in }, s1)
          else do f ← get_elem? d1.tx_buf d1.tx_in; s2 ← send f s1; some (ret, d1, s2))
      else none

  -- `if (temp & TI)` of the interrupt handlers: the oldest queued frame goes to the controller.
  unfoldable pub irq_transmit : ℕ → CanDev → S → Option (CanDev × S)
  irq_transmit temp d s =
      if has temp 2 && ltb 0 d.tx_count
      then (do
        f ← get_elem? d.tx_buf d.tx_out
        s' ← send f s
        some (record d { tx_out = advance d.tx_out; tx_count = d.tx_count - 1 }, s'))
      else some (d, s)

-- The receive branch once there is room: the controller's frame goes behind the queued ones.
module _ {S : Type 0} (receive : S → Option (CanFrame × S)) where
  unfoldable pub irq_receive : CanDev → S → Option (CanDev × S)
  irq_receive d s = do
    (f, s') ← receive s
    if ltb d.rx_in (length d.rx_buf)
        then some (
          record d {
            rx_count = d.rx_count + 1;
            rx_buf = set d.rx_buf d.rx_in f;
            rx_in = advance d.rx_in;
          },
          s',
        )
        else none
