-- ===== src/Pelican/Race/Adds.antt =====
-- What the interrupt handler of source/linux_driver/pelican_mode/can_pci.c leaves of the receive
-- ring while a read is under way.
use linux_qemu.Base.{
  ℕ, ◌<◌, List, [], ◌∷◌, ◌++◌, append-nil, Option-cases, some, Bool, Bool-cases, true, false, not,
  ◌&&◌, ◌==◌, ◌≡◌, inl, inr, arith, get_elem?,
}
use linux_qemu.Bits.{has}
use linux_qemu.Frame.{CanFrame, Bus}
use linux_qemu.Driver.{CanDev, irq_transmit, irq_receive}
use linux_qemu.Driver.Invariant.{IsValid, rx_queue, irq_receive_refines}
use linux_qemu.Pelican.{send_message, receive_message}
use linux_qemu.Pelican.Handlers.{irq_handler}
use linux_qemu.Pelican.Run.{interrupt_keeps, transmit_keeps}
use linux_qemu.Pelican.Race.{fires}

module _ {S : Type 0} (bus : Bus S) where
  transmit_ignores :
      (d d' : CanDev) (s s' : S) (temp i : ℕ)
      → irq_transmit bus (send_message bus) temp d s ≡ some (d', s')
      → (irq_transmit bus (send_message bus) temp (record d { rx_out = i }) s
          ≡ some (record d' { rx_out = i }, s'))
        × (d'.rx_out ≡ d.rx_out)
        × (d'.rx_count ≡ d.rx_count)
        × (rx_queue d' ≡ rx_queue d)
  unfolding irq_transmit
  transmit_ignores d d' s s' temp i e = elim (Option-cases (get_elem? d.tx_buf d.tx_out)) [
    | inl n ↦ ground (arith, n)
    | inr (f, h) ↦ elim (Option-cases (send_message bus f s)) [
      | inl n ↦ ground (arith, h, n)
      | inr (t, m) ↦ ground (arith, h, m)
    ]
  ]

  receive_ignores :
      (d d' : CanDev) (s s' : S) (i : ℕ)
      → irq_receive (receive_message bus) d s ≡ some (d', s')
      → (irq_receive (receive_message bus) (record d { rx_out = i }) s
          ≡ some (record d' { rx_out = i }, s'))
        × (d'.rx_out ≡ d.rx_out)
  unfolding irq_receive
  receive_ignores d d' s s' i e = elim (Option-cases (receive_message bus s)) [
    | inl n ↦ absurd (ground (arith, n))
    | inr ((f, t), m) ↦ ground (arith, m)
  ]

  receive_adds :
      (d d' : CanDev) (s s' : S)
      → IsValid d
      → d.rx_count < 6
      → irq_receive (receive_message bus) d s ≡ some (d', s')
      → (more : List CanFrame) × (rx_queue d' ≡ rx_queue d ++ more)
  unfolding irq_receive
  receive_adds d d' s s' v room e = elim (Option-cases (receive_message bus s)) [
    | inl n ↦ absurd (ground (arith, n))
    | inr ((f, t), m) ↦
        (f ∷ [], (rw e at (irq_receive_refines (receive_message bus) d s v room m)).1)
  ]

  -- The handler neither reads nor writes rx_out.
  handler_ignores :
      (d d' : CanDev) (s s' : S) (i : ℕ)
      → irq_handler bus d s ≡ some (d', s')
      → (irq_handler bus (record d { rx_out = i }) s ≡ some (record d' { rx_out = i }, s'))
        × (d'.rx_out ≡ d.rx_out)
  unfolding irq_handler
  handler_ignores d d' s s' i e =
      let (temp, s1) = bus.read8 s 3 in
      elim (Option-cases (irq_transmit bus (send_message bus) temp d s1)) [
        | inl n ↦ absurd (ground (arith, n))
        | inr ((d2, s2), h) ↦
            let t = transmit_ignores d d2 s1 s2 temp i h in
            elim (Bool-cases (has temp 1 && not (d2.rx_count == 6))) [
              | inr none_taken ↦ ground (arith, h, t, none_taken)
              | inl taken ↦ elim (Option-cases (irq_receive (receive_message bus) d2 s2)) [
                | inl n ↦ absurd (ground (arith, h, n, taken))
                | inr ((d3, s3), m) ↦
                    let r = receive_ignores d2 d3 s2 s3 i m in ground (arith, h, m, t, r, taken)
              ]
            ]
      ]

  -- It at most adds behind the frames that wait for the reader.
  handler_adds :
      (d d' : CanDev) (s s' : S)
      → IsValid d
      → irq_handler bus d s ≡ some (d', s')
      → (more : List CanFrame) × (rx_queue d' ≡ rx_queue d ++ more)
  unfolding irq_handler
  handler_adds d d' s s' v e =
      let (temp, s1) = bus.read8 s 3 in
      elim (Option-cases (irq_transmit bus (send_message bus) temp d s1)) [
        | inl n ↦ absurd (ground (arith, n))
        | inr ((d2, s2), h) ↦
            let t = transmit_ignores d d2 s1 s2 temp 0 h in
            elim (Bool-cases (has temp 1 && not (d2.rx_count == 6))) [
              | inr none_taken ↦ ([], ground (arith, h, t, none_taken, append-nil (rx_queue d)))
              | inl taken ↦ elim (Option-cases (irq_receive (receive_message bus) d2 s2)) [
                | inl n ↦ absurd (ground (arith, h, n, taken))
                | inr ((d3, s3), m) ↦
                    let v2 = transmit_keeps bus s1 temp v h in
                    let (more, r) = receive_adds d2 d3 s2 s3 v2 (ground (arith, v2, taken)) m in
                    (more, ground (arith, h, m, t.3, r, taken))
              ]
            ]
      ]

  pub fires_ignores :
      (b : Bool) (d d' : CanDev) (s s' : S) (i : ℕ)
      → fires bus b d s ≡ some (d', s')
      → (fires bus b (record d { rx_out = i }) s ≡ some (record d' { rx_out = i }, s'))
        × (d'.rx_out ≡ d.rx_out)
  unfolding fires
  fires_ignores true d d' s s' i e = handler_ignores d d' s s' i e
  fires_ignores false d d' s s' i e = ground arith

  pub fires_adds :
      (b : Bool) (d d' : CanDev) (s s' : S)
      → IsValid d
      → fires bus b d s ≡ some (d', s')
      → IsValid d' × ((more : List CanFrame) × (rx_queue d' ≡ rx_queue d ++ more))
  unfolding fires
  fires_adds true d d' s s' v e = (interrupt_keeps bus s v e, handler_adds d d' s s' v e)
  fires_adds false d d' s s' v e = (ground arith, ([], ground (arith, append-nil (rx_queue d))))
