-- ===== src/Pelican/Fill.antt =====
-- Receive interrupts of source/linux_driver/pelican_mode/can_pci.c.
use linux_qemu.Base.{◌+◌, ◌≤◌, ◌<◌, List, ◌++◌, map, ◌≡◌, arith, Ends, length}
use linux_qemu.Bits.{has}
use linux_qemu.Frame.{CanFrame, Bus, IsFrame, Shows}
use linux_qemu.Driver.{CanDev, irq_transmit}
use linux_qemu.Driver.Invariant.{IsValid, rx_queue, tx_queue, irq_receive_refines}
use linux_qemu.Driver.Repeat.{interrupts, Received, Offers, released, interrupts-fill}
use linux_qemu.Pelican.{receive_message}
use linux_qemu.Pelican.Send.{tx_image}
use linux_qemu.Pelican.Receive.{received, receive_message-tx_image}
use linux_qemu.Pelican.Handlers.{irq_handler, irq_overrun}

module _ {S : Type 0} (bus : Bus S) where
  -- A receive interrupt is pending and the receive buffer shows the frame.
  pub record Offered (s : S) (f : CanFrame) : Type 0 where
    pub frame : IsFrame f
    pub short : f.can_dlc ≤ 8
    pub pending : bus.read8 s 3 ≡ (1, s)
    pub shows : Shows bus s 16 (tx_image f)

  -- The command "release receive buffer".
  abbrev pub release : S → S
  release s = bus.write8 s 1 4

  handler-Received :
      (f : CanFrame) (d : CanDev) (s : S)
      → IsValid d
      → d.rx_count < 6
      → Offered s f
      → Ends (irq_handler bus d s) (Received d (received f) (release s))
  unfolding irq_handler irq_overrun irq_transmit has
  handler-Received f d s v room o =
      let took = receive_message-tx_image bus f s o.frame o.short o.shows in
      ground (arith, o.pending, irq_receive_refines (receive_message bus) d s v room took)

  pub interrupts_fill :
      (fs : List CanFrame) (d : CanDev) (s : S)
      → IsValid d
      → d.rx_count + length fs ≤ 6
      → Offers Offered release s fs
      → Ends (interrupts (irq_handler bus) (length fs) d s) (λ (d', s').
        (s' ≡ released release fs s)
        × (rx_queue d' ≡ rx_queue d ++ map received fs)
        × (tx_queue d' ≡ tx_queue d)
        × IsValid d')
  interrupts_fill = interrupts-fill (irq_handler bus) received Offered release handler-Received
