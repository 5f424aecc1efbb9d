-- ===== src/Pelican/Race/Lost.antt =====
-- What an interrupt between the statements of device_write does break: the status that the write
-- has read is no longer true.
use linux_qemu.Base.{
  ℕ, ◌-◌, ◌<◌, bit_and, [], ◌∷◌, some, true, false, ◌==◌, ◌≡◌, arith, Ends, length-set,
  get_elem?-eq-get_or, get_or, get_or-set_self, get_or-set_ne, set,
}
use linux_qemu.Base.Int.{pos}
use linux_qemu.Bits.{has}
use linux_qemu.Frame.{CanFrame, Bus, zero_frame}
use linux_qemu.Driver.{CanDev, irq_transmit}
use linux_qemu.Driver.Ring.{advance, queue, queue-set, queue-set_same, queue-pop}
use linux_qemu.Driver.Invariant.{IsValid, tx_queue}
use linux_qemu.Pelican.{send_message}
use linux_qemu.Pelican.Handlers.{irq_handler, irq_overrun}
use linux_qemu.Pelican.Race.{Arrivals, fires, answered, device_write_interrupted}

abbrev pub after_status : Arrivals
after_status = record { checked = false; copied = false; asked = true; counted = false }

module _ {S : Type 0} (bus : Bus S) where
  -- No frame waits, the controller says that its buffer is locked, and then, before the frame is
  -- queued, that it has become free: the write succeeds, its frame waits, and the controller, which
  -- is idle, has been given nothing and was only read.
  pub device_write-strands :
      (slot : CanFrame) (d : CanDev) (s : S)
      → IsValid d
      → d.tx_count ≡ 0
      → (bit_and (bus.read8 s 2).0 4 == 4) ≡ false
      → (bus.read8 (bus.read8 s 2).1 3).0 ≡ 2
      → Ends (device_write_interrupted bus after_status 16 slot false d s) (λ (ret, d', s').
        (ret ≡ pos 16) × (tx_queue d' ≡ slot ∷ []) × (s' ≡ (bus.read8 (bus.read8 s 2).1 3).1))
  unfolding device_write_interrupted answered fires irq_handler irq_transmit irq_overrun queue has
  device_write-strands slot d s v none_waits locked transmits = rw transmits (
      ground (
        arith,
        queue-set d.tx_buf slot d.tx_count d.tx_out d.tx_in,
        length-set d.tx_buf d.tx_in slot,
      ))

  -- Frames wait, the controller says that its buffer is free, and the handler then fills it with
  -- the oldest: the write gives it the new frame as well, with no look at the status in between.
  pub device_write-overruns :
      (slot : CanFrame) (d : CanDev) (s : S) {first second : S}
      → IsValid d
      → 0 < d.tx_count
      → d.tx_count < 6
      → (bit_and (bus.read8 s 2).0 4 == 4) ≡ true
      → (bus.read8 (bus.read8 s 2).1 3).0 ≡ 2
      → send_message bus (get_or d.tx_buf d.tx_out zero_frame) (bus.read8 (bus.read8 s 2).1 3).1
        ≡ some first
      → send_message bus slot first ≡ some second
      → Ends (device_write_interrupted bus after_status 16 slot false d s) (λ (ret, d', s').
        (ret ≡ pos 16)
        × (tx_queue d ≡ get_or d.tx_buf d.tx_out zero_frame ∷ tx_queue d')
        × (s' ≡ second))
  unfolding device_write_interrupted answered fires irq_handler irq_transmit irq_overrun queue has
  device_write-overruns slot d s v some_wait room free transmits sends sends_too =
      let buf = set d.tx_buf d.tx_in slot in
      let out : ℕ = advance d.tx_out in
      let oldest : get_or buf d.tx_out zero_frame ≡ get_or d.tx_buf d.tx_out zero_frame =
        get_or-set_ne d.tx_buf d.tx_in d.tx_out slot zero_frame (omega arith) in
      rw transmits (
        ground (
          arith,
          oldest,
          length-set d.tx_buf d.tx_in slot,
          get_elem?-eq-get_or buf d.tx_out zero_frame,
          get_elem?-eq-get_or buf d.tx_in zero_frame,
          get_or-set_self d.tx_buf d.tx_in slot zero_frame,
          queue-pop d.tx_buf d.tx_out d.tx_count,
          queue-set_same d.tx_buf slot (d.tx_count - 1) out d.tx_in,
        ))
