-- ===== src/Basic/Interrupt.antt =====
-- irq_handler of source/linux_driver/basiccan_mode/can_pci.c against the queues of its rings.
use linux_qemu.Base.{some, inl, inr, ◌≡◌, arith, Ends, ap, length, length-set, get_or, Option-cases}
use linux_qemu.Bits.{has}
use linux_qemu.Frame.{CanFrame, zero_frame, Bus}
use linux_qemu.Driver.{CanDev, irq_transmit, irq_receive}
use linux_qemu.Driver.Fifo
use linux_qemu.Driver.Ring.{length-queue, queue-set}
use linux_qemu.Driver.Invariant.{IsValid, tx_queue, rx_queue, irq_transmit_refines}
use linux_qemu.Basic.{send_message, receive_message}
use linux_qemu.Basic.{irq_handler, irq_overrun}
use linux_qemu.Pelican.Interrupt.{cause, asked}

module _ {S : Type 0} (bus : Bus S) where
  -- On well-formed rings the handler ends, does to the queues what Fifo.interrupt says and keeps
  -- the rings well formed, wherever the oldest frame can be sent and the frame at hand received.
  -- With six frames waiting it releases the controller's receive buffer unread, and does not
  -- look at the overrun.
  pub irq_handler-releases :
      (d : CanDev) (s : S) {sent : S} {received : CanFrame × S}
      → IsValid d
      → send_message bus (get_or d.tx_buf d.tx_out zero_frame) (asked bus s) ≡ some sent
      → receive_message bus
          (Fifo.send_oldest (has (cause bus s) 2) (asked bus s) sent (tx_queue d)).1
        ≡ some received
      → Ends (irq_handler bus d s) (λ (d', s').
        ((tx_queue d', rx_queue d', s')
          ≡ Fifo.interrupt
              (has (cause bus s) 2)
              (has (cause bus s) 1)
              (irq_overrun bus (cause bus s))
              (λ t. bus.write8 t 1 4)
              (asked bus s)
              sent
              received
              (tx_queue d)
              (rx_queue d))
        × IsValid d')
  unfolding irq_handler irq_receive Fifo.interrupt
  irq_handler-releases d s {sent} {received} v can_send can_receive =
      let moved =
        irq_transmit_refines bus (send_message bus) (cause bus s) d (asked bus s) v can_send in
      elim (Option-cases (irq_transmit bus (send_message bus) (cause bus s) d (asked bus s))) [
        | inl e ↦ absurd (rw e at moved)
        | inr ((d2, s2), e) ↦
            let after = rw e at moved in
            let counted : d2.rx_count ≡ d.rx_count = omega (
              arith,
              length-queue d.rx_buf d.rx_out d.rx_count,
              length-queue d2.rx_buf d2.rx_out d2.rx_count,
              ap length after.1,
            ) in
            rw e (
              ground (
                arith,
                after,
                length-queue d.rx_buf d.rx_out d.rx_count,
                length-set d2.rx_buf d2.rx_in received.0,
                queue-set d2.rx_buf received.0 d2.rx_count d2.rx_out d2.rx_in,
              ))
      ]
