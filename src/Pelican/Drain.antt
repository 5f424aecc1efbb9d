-- ===== src/Pelican/Drain.antt =====
-- Interrupts of source/linux_driver/pelican_mode/can_pci.c one after the other, and what they give of the
-- transmit ring to the controller.
use linux_qemu.Base.{
  ℕ, ◌-◌, ◌%◌, ◌/◌, ◌≤◌, List, [], ◌∷◌, Option, some, ◌>>=◌, Option-cases, Bool-cases, true, false,
  ◌≡◌, ◌⊎◌, inl, inr, refl, arith, Ends, Ends-bind, get_elem?-eq-get_or, get_or, length, ltb,
  if◌then◌else◌,
}
use linux_qemu.Bits.{has}
use linux_qemu.Frame.{CanFrame, Bus, IsFrame, write_all, zero_frame}
use linux_qemu.Driver.{CanDev, irq_transmit}
use linux_qemu.Driver.Invariant.{IsValid, tx_queue, rx_queue}
use linux_qemu.Driver.Ring.{advance, queue, queue-pop}
use linux_qemu.Driver.Repeat.{interrupts}
use linux_qemu.Pelican.{send_message}
use linux_qemu.Pelican.Send.{is_extended, tx_image, send_message-tx_image}
use linux_qemu.Pelican.Interrupt.{cause, asked}
use linux_qemu.Pelican.Handlers.{irq_handler, irq_overrun}

-- The frame has at most eight bytes, and bit 2 of a standard identifier is clear.
pub record IsSendable (f : CanFrame) : Type 0 where
  pub frame : IsFrame f
  pub short : f.can_dlc ≤ 8
  pub id_ok : (is_extended f ≡ true) ⊎ (f.can_id / 4 % 2 ≡ 0)

abbrev pub AllSendable : List CanFrame → Type 0
AllSendable [] = Unit {0}
AllSendable (f ∷ fs) = IsSendable f × AllSendable fs

-- `tick` is what the controller does between two interrupts.
module _ {S : Type 0} (bus : Bus S) (tick : S → S) where
  -- The controller once the frame is in its transmit buffer and the transmission requested.
  abbrev pub given : CanFrame → S → S
  given f s = bus.write8 (write_all bus 16 (tx_image f) s) 1 1

  abbrev pub handled : CanDev → S → Option (CanDev × S)
  handled d s = do (d', t) ← irq_handler bus d s; some (d', tick t)

  -- A transmit interrupt takes the oldest frame that waits.
  abbrev pub transmitted : ℕ → List CanFrame → S → List CanFrame × S
  transmitted temp [] s = ([], s)
  transmitted temp (f ∷ fs) s = if has temp 2 then (fs, given f s) else (f ∷ fs, s)

  abbrev pub Moved : ℕ → CanDev → S → CanDev × S → Type 0
  Moved temp d s (d', t) =
      ((tx_queue d', t) ≡ transmitted temp (tx_queue d) s)
      × (d'.rx_count ≡ d.rx_count)
      × (rx_queue d' ≡ rx_queue d)
      × IsValid d'
      × AllSendable (tx_queue d')

  pub irq_transmit-transmitted :
      (temp : ℕ) (d : CanDev) (s : S)
      → IsValid d
      → AllSendable (tx_queue d)
      → Ends (irq_transmit bus (send_message bus) temp d s) (Moved temp d s)
  unfolding irq_transmit queue
  irq_transmit-transmitted temp d s v sendable = elim (Bool-cases (ltb 0 d.tx_count)) [
    | inl waits ↦
        let f : CanFrame = get_or d.tx_buf d.tx_out zero_frame in
        let pop : tx_queue d ≡ f ∷ queue d.tx_buf (advance d.tx_out) (d.tx_count - 1) =
          queue-pop d.tx_buf d.tx_out d.tx_count (ground arith) in
        let (own, others) = rw pop at sendable in
        let sends = send_message-tx_image bus f s own.frame own.short own.id_ok in
        let found = get_elem?-eq-get_or d.tx_buf d.tx_out zero_frame in
        elim (Bool-cases (has temp 2)) [
          | inl ti ↦
              let d1 : CanDev = record d { tx_out = advance d.tx_out; tx_count = d.tx_count - 1 } in
              let e : irq_transmit bus (send_message bus) temp d s ≡ some (d1, given f s) =
                ground (arith, found, sends, waits, ti) in
              let moved : (tx_queue d1, given f s) ≡ transmitted temp (tx_queue d) s =
                rw (pop, ti) refl in
              rw e (moved, refl, refl, ground (arith, waits), others)
          | inr none ↦
              let e : irq_transmit bus (send_message bus) temp d s ≡ some (d, s) =
                ground (arith, none) in
              let still : (tx_queue d, s) ≡ transmitted temp (tx_queue d) s = rw (pop, none) refl in
              rw e (still, refl, refl, v, sendable)
        ]
    | inr idle ↦ let e : d.tx_count ≡ 0 = ground arith in ground (arith, e, idle)
  ]

  -- The controller after interrupts that each take a frame, acknowledging an overrun where one is shown.
  abbrev pub acknowledged : ℕ → S → S
  acknowledged temp s = if has temp 8 then bus.write8 s 1 8 else s

  abbrev pub drained : List CanFrame → S → S
  drained [] s = s
  drained (f ∷ fs) s = drained fs (tick (acknowledged (cause bus s) (given f (asked bus s))))

  -- Each of as many interrupts as there are frames is a transmit interrupt, and no receive interrupt.
  abbrev pub Transmitting : List CanFrame → S → Type 0
  Transmitting [] s = Unit {0}
  Transmitting (f ∷ fs) s =
      (has (cause bus s) 2 ≡ true)
      × (has (cause bus s) 1 ≡ false)
      × Transmitting fs (tick (acknowledged (cause bus s) (given f (asked bus s))))

  handler-takes :
      (f : CanFrame) (fs : List CanFrame) (d : CanDev) (s : S)
      → IsValid d
      → tx_queue d ≡ f ∷ fs
      → AllSendable (tx_queue d)
      → has (cause bus s) 2 ≡ true
      → has (cause bus s) 1 ≡ false
      → Ends (handled d s) (λ (d', t).
        (t ≡ tick (acknowledged (cause bus s) (given f (asked bus s))))
        × (tx_queue d' ≡ fs)
        × (rx_queue d' ≡ rx_queue d)
        × IsValid d'
        × AllSendable (tx_queue d'))
  unfolding irq_handler irq_overrun
  handler-takes f fs d s v waits sendable ti no_ri =
      let temp = cause bus s in
      let moved = irq_transmit-transmitted temp d (asked bus s) v sendable in
      elim (Option-cases (irq_transmit bus (send_message bus) temp d (asked bus s))) [
        | inl e ↦ absurd (rw e at moved)
        | inr ((d', t), e) ↦
            let (same, count, rx, v', left) = rw e at moved in
            let both : (tx_queue d', t) ≡ (fs, given f (asked bus s)) = rw (waits, ti) at same in
            ground (arith, e, both, rx, v', left, no_ri)
      ]

  -- With well-formed rings whose waiting frames can be sent, and a controller that raises a transmit
  -- interrupt, and no receive interrupt, once for each: as many interrupts as frames wait end. The
  -- controller has then been given the transmit layouts of exactly these frames and a request for each, the
  -- oldest first, and nothing else but acknowledgements of the overruns it has shown. No frame is left, the
  -- received ones are as they were, and the rings stay well formed. The controller may do anything between
  -- the interrupts, and on a read of its interrupt register.
  pub interrupts_drain :
      (fs : List CanFrame) (d : CanDev) (s : S)
      → IsValid d
      → tx_queue d ≡ fs
      → AllSendable (tx_queue d)
      → Transmitting fs s
      → Ends (interrupts handled (length fs) d s) (λ (d', t).
        (t ≡ drained fs s) × (tx_queue d' ≡ []) × (rx_queue d' ≡ rx_queue d) × IsValid d')
  unfolding interrupts
  interrupts_drain [] d s v waits sendable shows = (refl, waits, refl, v)
  interrupts_drain (f ∷ fs) d s v waits sendable (ti, no_ri, shows) =
      Ends-bind (handled d s) _ _ (handler-takes f fs d s v waits sendable ti no_ri)
        (λ (d1, s1) (at, rest, rx, v1, left).
          let after = interrupts_drain fs d1 s1 v1 rest left (rw at shows) in rw (← at, ← rx) after)
