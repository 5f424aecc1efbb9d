-- ===== src/Basic/Fill.antt =====
-- Receive interrupts of source/linux_driver/basiccan_mode/can_pci.c.
use linux_qemu.Base.{◌+◌, ◌≤◌, ◌<◌, List, [], ◌∷◌, ◌++◌, map, some, ◌≡◌, refl, arith, Ends, length}
use linux_qemu.Bits.{has}
use linux_qemu.Frame.{CanFrame, Bus, IsFrame, Shows}
use linux_qemu.Driver.{CanDev, irq_transmit}
use linux_qemu.Driver.Invariant.{IsValid, rx_queue, tx_queue, irq_receive_refines}
use linux_qemu.Driver.Repeat.{interrupts, Received, Offers, released, interrupts-fill}
use linux_qemu.Basic.{receive_message, irq_handler, irq_overrun}
use linux_qemu.Basic.Transfer.{tx_image, received, receive_message-basic_image}

module _ {S : Type 0} (bus : Bus S) where
  -- A receive interrupt is pending and the receive buffer shows the frame.
  pub record Offered (s : S) (f : CanFrame) : Type 0 where
    pub frame : IsFrame f
    pub short : f.can_dlc ≤ 8
    pub pending : bus.read8 s 3 ≡ (1, s)
    pub shows : Shows bus s 20 (tx_image f)

  -- The command "release receive buffer".
  abbrev pub release : S → S
  release s = bus.write8 s 1 4

  handler-Received :
      (f : CanFrame) (d : CanDev) (s : S)
      → IsValid d
      → d.rx_count < 6
      → Offered s f
      → Ends (irq_handler bus d s) (Received d (received f) (release s))
  unfolding irq_handler irq_overrun irq_transmit has
  handler-Received f d s v room o =
      let took = receive_message-basic_image bus f s o.frame o.short o.shows in
      ground (arith, o.pending, irq_receive_refines (receive_message bus) d s v room took)

  pub interrupts_store :
      (fs : List CanFrame) (d : CanDev) (s : S)
      → IsValid d
      → d.rx_count + length fs ≤ 6
      → Offers Offered release s fs
      → Ends (interrupts (irq_handler bus) (length fs) d s) (λ (d', s').
        (s' ≡ released release fs s)
        × (rx_queue d' ≡ rx_queue d ++ map received fs)
        × (tx_queue d' ≡ tx_queue d)
        × IsValid d')
  interrupts_store = interrupts-fill (irq_handler bus) received Offered release handler-Received

  -- While the ring is full, each interrupt drops the frame that the controller offers, and the
  -- rings stay as they are.
  pub interrupts_discard :
      (fs : List CanFrame) (d : CanDev) (s : S)
      → d.rx_count ≡ 6
      → Offers Offered release s fs
      → interrupts (irq_handler bus) (length fs) d s ≡ some (d, released release fs s)
  unfolding interrupts irq_handler irq_transmit has
  interrupts_discard [] d s full offers = refl
  interrupts_discard (f ∷ fs) d s full (o, offers) =
      ground (arith, o.pending, interrupts_discard fs d (release s) full offers)
