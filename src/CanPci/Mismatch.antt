-- ===== src/CanPci/Mismatch.antt =====
-- The interrupt handler of source/linux_driver/pelican_mode/can_pci.c on the emulated controller of
-- backup/qemu_linux4/can-pci.c, which has no interrupt register and nothing to receive: a read of
-- either gives 0xff.
use linux_qemu.Base.{
  ℕ, zero, suc, ◌+◌, ◌≤◌, ◌<◌, List, none, some, ◌≡◌, refl, true, arith, ltb, u8, set,
}
use linux_qemu.Bits.{has}
use linux_qemu.Frame.{CanFrame, Bus, zero_frame}
use linux_qemu.Driver.{CanDev, irq_transmit, irq_receive}
use linux_qemu.Pelican.{receive_data, receive_message, extended_id}
use linux_qemu.Pelican.Handlers.{irq_handler, irq_overrun}
use linux_qemu.CanPci.{CanState, guest_bus, can_mem_read}

module _ {S : Type 0} (bus : Bus S) where
  -- A length code above eight makes the loop write past the payload.
  receive_data-fault :
      (n i index : ℕ) (bytes : List ℕ) (s : S)
      → i ≤ 8
      → 8 < i + n
      → receive_data bus n i index bytes s ≡ none
  unfolding receive_data
  receive_data-fault zero i index bytes s inside long = absurd (omega arith)
  receive_data-fault (suc n) i index bytes s inside long =
      let (temp, t) = bus.read8 s index in
      let e : ltb i 8 ≡ true → u8 (i + 1) ≡ i + 1 = λ h. ground arith in
      ground (arith, receive_data-fault n (u8 (i + 1)) (u8 (index + 1)) (set bytes i temp) t)

  pub receive_message-fault : (s : S) → (bus.read8 s 16).0 ≡ 0xff → receive_message bus s ≡ none
  unfolding receive_message has
  receive_message-fault s e =
      let (id, index, t) = extended_id bus (bus.read8 s 16).1 0xc000_0000 in
      rw e (rw (receive_data-fault 15 0 index zero_frame.bytes t (omega arith) (omega arith)) refl)

-- A transmit interrupt of the emulated controller, with no frame queued: the handler finds all the
-- interrupt flags set and takes a frame of fifteen bytes for received, and writes past its payload,
-- whatever the state of the controller, as long as the ring of received frames is not full.
pub irq_handler-faults :
    (stack : CanFrame) (d : CanDev) (s : CanState)
    → s.memio_size ≡ 128
    → d.tx_count ≡ 0
    → d.rx_count < 6
    → irq_handler (guest_bus stack) d (some s) ≡ none
unfolding irq_handler guest_bus can_mem_read irq_transmit irq_receive irq_overrun has
irq_handler-faults stack d s region none_waits room =
    ground (arith, receive_message-fault (guest_bus stack) (some s))
