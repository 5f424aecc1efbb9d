-- ===== src/Driver/Traffic/Logs.antt =====
-- The shared operations of source/linux_driver/*/can_pci.c with the log that Driver.Traffic keeps.
use linux_qemu.Base.{
  ℕ, List, [], ◌∷◌, ◌++◌, Option, Option-cases, some, Bool, Bool-cases, not, ◌&&◌, ltb, ◌==◌,
  bit_and, ◌≡◌, refl, inl, inr, arith, get_elem?, set,
}
use linux_qemu.Base.Int.{ℤ}
use linux_qemu.Bits.{has}
use linux_qemu.Frame.{CanFrame, Bus, frame_size}
use linux_qemu.Driver.{CanDev, device_write, buffer_size, irq_transmit, irq_receive}
use linux_qemu.Driver.Traffic.{Logged, logged_bus, logged_send, logged_receive, taken, Step, writes}

abbrev pub at : {S : Type 0} → S → List CanFrame → Logged S
at s sent = record { controller = s; sent = sent }

module _ {S : Type 0} (bus : Bus S) (send : CanFrame → S → Option S)
    (receive : S → Option (CanFrame × S)) where
  pub transmit_logs :
      (temp : ℕ) (d d' : CanDev) (s s' : S) (sent : List CanFrame)
      → irq_transmit bus send temp d s ≡ some (d', s')
      → (sent' : List CanFrame) × (irq_transmit
            (logged_bus bus send)
            (logged_send bus send)
            temp
            d
            (at s sent)
          ≡ some (d', at s' sent'))
  unfolding irq_transmit
  transmit_logs temp d d' s s' sent e = elim (Bool-cases (has temp 2 && ltb 0 d.tx_count)) [
    | inr b ↦ (sent, ground (arith, b))
    | inl b ↦ elim (Option-cases (get_elem? d.tx_buf d.tx_out)) [
      | inl n ↦ absurd (ground (arith, b, n))
      | inr (f, h) ↦ elim (Option-cases (send f s)) [
        | inl n ↦ absurd (ground (arith, b, h, n))
        | inr (t, m) ↦ (sent ++ f ∷ [], ground (arith, b, h, m))
      ]
    ]
  ]

  pub receive_logs :
      (d d' : CanDev) (s s' : S) (sent : List CanFrame)
      → irq_receive receive d s ≡ some (d', s')
      → irq_receive (logged_receive receive) d (at s sent) ≡ some (d', at s' sent)
  unfolding irq_receive
  receive_logs d d' s s' sent e = elim (Option-cases (receive s)) [
    | inl n ↦ absurd (ground (arith, n))
    | inr ((f, t), m) ↦ ground (arith, m)
  ]

  -- A write is a step.
  pub device_write-Step :
      (count : ℕ) (slot : CanFrame) (failed : Bool) (d d' : CanDev) (s s' : S)
      (sent : List CanFrame) {ret : ℤ}
      → device_write bus send count slot failed d s ≡ some (ret, d', s')
      → (sent' : List CanFrame) × Step bus send receive d
          (at s sent)
          (taken count slot d)
          d'
          (at s' sent')
  unfolding device_write
  device_write-Step count slot failed d d' s s' sent {ret} e =
      let (temp, s1) = bus.read8 s 2 in
      elim (Option-cases (get_elem? (set d.tx_buf d.tx_in slot) d.tx_in)) [
        | inl n ↦ (sent, writes {ret = ret} count slot failed (ground (arith, n)) refl)
        | inr (f, h) ↦ elim (Option-cases (send f s1)) [
          | inl n ↦ (sent, writes {ret = ret} count slot failed (ground (arith, h, n)) refl)
          | inr (t, m) ↦
              elim (Bool-cases (
                count == frame_size
                && (not (d.tx_count == buffer_size) && (bit_and temp 4 == 4)))) [
                  | inl at_once ↦ (
                    sent ++ f ∷ [],
                    writes {ret = ret} count slot failed (ground (arith, h, m, at_once)) refl,
                  )
                  | inr later ↦ (
                    sent,
                    writes {ret = ret} count slot failed (ground (arith, h, m, later)) refl,
                  )
                ]
        ]
      ]
