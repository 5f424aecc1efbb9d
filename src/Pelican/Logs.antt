-- ===== src/Pelican/Logs.antt =====
-- The interrupt handler of source/linux_driver/pelican_mode/can_pci.c and the steps of
-- Driver.Traffic.
use linux_qemu.Base.{
  List, [], Option-cases, some, Bool-cases, false, not, ◌&&◌, ◌==◌, ◌≡◌, refl, inl, inr, arith,
}
use linux_qemu.Bits.{has}
use linux_qemu.Frame.{CanFrame, Bus}
use linux_qemu.Driver.{CanDev, buffer_size, irq_transmit, irq_receive}
use linux_qemu.Driver.Traffic.{transmits, receives, drifts, Run, done, next}
use linux_qemu.Driver.Traffic.Logs.{at, transmit_logs, receive_logs}
use linux_qemu.Pelican.{send_message, receive_message}
use linux_qemu.Pelican.Handlers.{irq_handler}

module _ {S : Type 0} (bus : Bus S) where
  -- A run of the handler is a run of the steps.
  pub irq_handler-Run :
      (d d' : CanDev) (s s' : S) (sent : List CanFrame)
      → irq_handler bus d s ≡ some (d', s')
      → (sent' : List CanFrame) × Run bus
          (send_message bus)
          (receive_message bus)
          d
          (at s sent)
          []
          d'
          (at s' sent')
  unfolding irq_handler
  irq_handler-Run d d' s s' sent e =
      let (temp, s1) = bus.read8 s 3 in
      elim (Option-cases (irq_transmit bus (send_message bus) temp d s1)) [
        | inl n ↦ absurd (ground (arith, n))
        | inr ((d2, s2), h) ↦
            let (sent', t) =
              transmit_logs bus (send_message bus) (receive_message bus) temp d d2 s1 s2 sent h in
            elim (Bool-cases (has temp 1 && not (d2.rx_count == buffer_size))) [
              | inr none_taken ↦
                  let same : d' ≡ d2 = ground (arith, h, none_taken) in
                  (
                    sent',
                    rw same (
                        next {s1 = at s1 sent} (drifts refl)
                          (next (transmits temp t) (next {s1 = at s' sent'} (drifts refl) done refl)
                            refl)
                          refl),
                  )
              | inl takes ↦ elim (Option-cases (irq_receive (receive_message bus) d2 s2)) [
                | inl n ↦ absurd (ground (arith, h, n, takes))
                | inr ((d3, s3), m) ↦
                    let same : d' ≡ d3 = ground (arith, h, m, takes) in
                    let r =
                      receive_logs bus (send_message bus) (receive_message bus) d2 d3 s2 s3 sent'
                        m in
                    let room : (d2.rx_count == buffer_size) ≡ false = ground (arith, takes) in
                    (
                      sent',
                      rw same (
                          next {s1 = at s1 sent} (drifts refl)
                            (next (transmits temp t)
                              (next (receives room r)
                                (next {s1 = at s' sent'} (drifts refl) done refl) refl)
                              refl)
                            refl),
                    )
              ]
            ]
      ]
