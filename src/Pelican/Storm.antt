-- ===== src/Pelican/Storm.antt =====
-- Interrupts of source/linux_driver/pelican_mode/can_pci.c while its receive ring is full.
use linux_qemu.Base.{
  ℕ, zero, suc, List, Option-cases, true, ◌≡◌, inl, inr, refl, arith, Ends, Ends-bind, ap, ◌==◌,
  some,
}
use linux_qemu.Bits.{has}
use linux_qemu.Frame.{CanFrame, Bus}
use linux_qemu.Driver.{CanDev, irq_transmit}
use linux_qemu.Driver.Invariant.{IsValid, tx_queue, rx_queue}
use linux_qemu.Driver.Repeat.{interrupts}
use linux_qemu.Pelican.{send_message}
use linux_qemu.Pelican.Interrupt.{cause, asked}
use linux_qemu.Pelican.Handlers.{irq_handler}
use linux_qemu.Pelican.Drain.{AllSendable, handled, transmitted, irq_transmit-transmitted}

-- `tick` is what the controller does between two interrupts.
module _ {S : Type 0} (bus : Bus S) (tick : S → S) where
  -- The frames that are left, and the controller, after so many interrupts that only take from the
  -- transmit queue.
  abbrev pub stormed : ℕ → List CanFrame → S → List CanFrame × S
  stormed zero q s = (q, s)
  stormed (suc n) q s =
      let (q', t) = transmitted bus tick (cause bus s) q (asked bus s) in stormed n q' (tick t)

  -- The receive interrupt stays pending.
  abbrev pub Receiving : ℕ → List CanFrame → S → Type 0
  Receiving zero q s = Unit {0}
  Receiving (suc n) q s =
      let (q', t) = transmitted bus tick (cause bus s) q (asked bus s) in
      (has (cause bus s) 1 ≡ true) × Receiving n q' (tick t)

  handler-passes :
      (d : CanDev) (s : S)
      → IsValid d
      → d.rx_count ≡ 6
      → AllSendable (tx_queue d)
      → has (cause bus s) 1 ≡ true
      → Ends (handled bus tick d s) (λ (d', t).
        let (q, u) = transmitted bus tick (cause bus s) (tx_queue d) (asked bus s) in
        (tx_queue d' ≡ q)
        × (t ≡ tick u)
        × (d'.rx_count ≡ 6)
        × (rx_queue d' ≡ rx_queue d)
        × IsValid d'
        × AllSendable (tx_queue d'))
  unfolding irq_handler
  handler-passes d s v full sendable ri =
      let temp = cause bus s in
      let moved = irq_transmit-transmitted bus tick temp d (asked bus s) v sendable in
      elim (Option-cases (irq_transmit bus (send_message bus) temp d (asked bus s))) [
        | inl e ↦ absurd (rw e at moved)
        | inr ((d', t), e) ↦
            let (same, count, rx, v', left) = rw e at moved in
            let no_room : (d'.rx_count == 6) ≡ true = ground arith in
            let end : handled bus tick d s ≡ some (d', tick t) = rw (e, ri, no_room) refl in
            rw end (ap (λ x. x.0) same, ap (λ x. tick x.1) same, omega arith, rx, v', left)
      ]

  -- With six received frames waiting in well-formed rings, while the receive interrupt stays pending and the
  -- frames that wait to be sent can be: any number of interrupts ends and leaves the received frames as they
  -- are. The controller is never told to release its receive buffer or to clear an overrun: where a
  -- transmit interrupt is shown too it is given the oldest waiting frame, and else nothing. It may do
  -- anything between the interrupts, and on a read of its interrupt register.
  pub irq_handler-storms :
      (n : ℕ) (d : CanDev) (s : S)
      → IsValid d
      → d.rx_count ≡ 6
      → AllSendable (tx_queue d)
      → Receiving n (tx_queue d) s
      → Ends (interrupts (handled bus tick) n d s) (λ (d', t).
        ((tx_queue d', t) ≡ stormed n (tx_queue d) s) × (rx_queue d' ≡ rx_queue d) × IsValid d')
  unfolding interrupts
  irq_handler-storms zero d s v full sendable shows = (refl, refl, v)
  irq_handler-storms (suc n) d s v full sendable (ri, shows) =
      let temp = cause bus s in
      Ends-bind (handled bus tick d s) _ _ (handler-passes d s v full sendable ri)
        (λ (d1, s1) (tx, at, full1, rx, v1, left).
          let after = irq_handler-storms n d1 s1 v1 full1 left (rw (tx, at) shows) in
          rw (← at, ← tx, ← rx) after)
