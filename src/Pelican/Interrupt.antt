-- ===== src/Pelican/Interrupt.antt =====
-- irq_handler of source/linux_driver/pelican_mode/can_pci.c against the queues of its rings.
use linux_qemu.Base.{
  ℕ, some, inl, inr, ◌≡◌, arith, Ends, ap, length, length-set, get_or, Option-cases,
}
use linux_qemu.Bits.{has}
use linux_qemu.Frame.{CanFrame, zero_frame, Bus}
use linux_qemu.Driver.{CanDev, irq_transmit, irq_receive}
use linux_qemu.Driver.Fifo
use linux_qemu.Driver.Ring.{length-queue, queue-set}
use linux_qemu.Driver.Invariant.{IsValid, tx_queue, rx_queue, irq_transmit_refines}
use linux_qemu.Pelican.{send_message, receive_message}
use linux_qemu.Pelican.Handlers.{irq_handler, irq_overrun}

module _ {S : Type 0} (bus : Bus S) where
  -- The interrupt register as read, and the controller after that.
  abbrev pub cause : S → ℕ
  cause s = (bus.read8 s 3).0

  abbrev pub asked : S → S
  asked s = (bus.read8 s 3).1

  -- On well-formed rings the handler ends, does to the queues what Fifo.interrupt says and keeps
  -- the rings well formed, wherever the oldest frame can be sent and the frame at hand received.
  -- With six frames waiting it leaves the controller's receive buffer as it is, and does not
  -- look at the overrun.
  pub irq_handler_refines :
      (d : CanDev) (s : S) {sent : S} {received : CanFrame × S}
      → IsValid d
      → send_message bus (get_or d.tx_buf d.tx_out zero_frame) (asked s) ≡ some sent
      → receive_message bus (Fifo.send_oldest (has (cause s) 2) (asked s) sent (tx_queue d)).1
        ≡ some received
      → Ends (irq_handler bus d s) (λ (d', s').
        ((tx_queue d', rx_queue d', s')
          ≡ Fifo.interrupt
              (has (cause s) 2)
              (has (cause s) 1)
              (irq_overrun bus (cause s))
              (λ t. t)
              (asked s)
              sent
              received
              (tx_queue d)
              (rx_queue d))
        × IsValid d')
  unfolding irq_handler irq_receive Fifo.interrupt
  irq_handler_refines d s {sent} {received} v can_send can_receive =
      let moved = irq_transmit_refines bus (send_message bus) (cause s) d (asked s) v can_send in
      elim (Option-cases (irq_transmit bus (send_message bus) (cause s) d (asked s))) [
        | inl e ↦ absurd (rw e at moved)
        | inr ((d2, s2), e) ↦
            let after = rw e at moved in
            let counted : d2.rx_count ≡ d.rx_count = omega (
              arith,
              length-queue d.rx_buf d.rx_out d.rx_count,
              length-queue d2.rx_buf d2.rx_out d2.rx_count,
              ap length after.1,
            ) in
            rw e (
              ground (
                arith,
                after,
                length-queue d.rx_buf d.rx_out d.rx_count,
                length-set d2.rx_buf d2.rx_in received.0,
                queue-set d2.rx_buf received.0 d2.rx_count d2.rx_out d2.rx_in,
              ))
      ]
