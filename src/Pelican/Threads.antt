-- ===== src/Pelican/Threads.antt =====
-- The interrupt handler of source/linux_driver/pelican_mode/can_pci.c among the steps of Driver.Threads.
use linux_qemu.Base.{
  Option-cases, some, Bool-cases, false, not, ◌&&◌, ◌==◌, ◌≡◌, inl, inr, arith, ℕ,
}
use linux_qemu.Bits.{has}
use linux_qemu.Frame.{Bus}
use linux_qemu.Driver.{CanDev, buffer_size, irq_transmit, irq_receive}
use linux_qemu.Driver.Threads.{System}
use linux_qemu.Driver.Threads.Handler.{Handled, Reached, Handled-Reached}
use linux_qemu.Pelican.{send_message, receive_message}
use linux_qemu.Pelican.Handlers.{irq_handler}

module _ {S : Type 0} (bus : Bus S) where
  irq_handler-Handled :
      (d d' : CanDev) (s s' : S)
      → irq_handler bus d s ≡ some (d', s')
      → Handled bus (send_message bus) (receive_message bus) d d'
  unfolding irq_handler
  irq_handler-Handled d d' s s' e =
      let (temp, s1) = bus.read8 s 3 in
      elim (Option-cases (irq_transmit bus (send_message bus) temp d s1)) [
        | inl n ↦ absurd (ground (arith, n))
        | inr ((d2, s2), h) ↦ elim (Bool-cases (has temp 1 && not (d2.rx_count == buffer_size))) [
          | inr none_taken ↦
              let same : d' ≡ d2 = ground (arith, h, none_taken) in
              record {
                temp = temp;
                asked = s1;
                between = d2;
                sent = s2;
                transmit = h;
                rest = inl same;
              }
          | inl takes ↦ elim (Option-cases (irq_receive (receive_message bus) d2 s2)) [
            | inl n ↦ absurd (ground (arith, h, n, takes))
            | inr ((d3, s3), m) ↦
                let same : d3 ≡ d' = ground (arith, h, m, takes) in
                let room : (d2.rx_count == buffer_size) ≡ false = ground (arith, takes) in
                record {
                  temp = temp;
                  asked = s1;
                  between = d2;
                  sent = s2;
                  transmit = h;
                  rest = inr (room, (s3, rw same at m));
                }
          ]
        ]
      ]

  -- Wherever a reader and a writer are, a run of the whole handler that ends is a run of the steps of
  -- Driver.Threads, which leaves
  -- what the handler leaves of rings and controller, and moves neither of the two.
  pub irq_handler-Reached :
      (word : ℕ) (x : System S) (d' : CanDev) (s' : S)
      → irq_handler bus x.dev x.controller.controller ≡ some (d', s')
      → Reached bus (send_message bus) (receive_message bus) word x d' s'
  irq_handler-Reached word x d' s' e =
      Handled-Reached bus (send_message bus) (receive_message bus) word x s'
        (irq_handler-Handled x.dev d' x.controller.controller s' e)
