-- ===== src/Pelican/Race/Safety.antt =====
-- What interrupts between the statements of device_write cannot break.
use linux_qemu.Base.{
  ℕ, ◌+◌, ◌≤◌, ◌<◌, bit_and, Option-cases, some, Bool, Bool-cases, true, false, not, ◌&&◌, ◌==◌,
  ◌≡◌, inl, inr, arith, if◌then◌else◌, length-set, get_elem?, set,
}
use linux_qemu.Base.Int.{ℤ, pos, efault}
use linux_qemu.Bits.{has}
use linux_qemu.Frame.{CanFrame, Bus, frame_size}
use linux_qemu.Driver.{CanDev, buffer_size, irq_transmit, irq_receive}
use linux_qemu.Driver
use linux_qemu.Driver.Ring.{advance}
use linux_qemu.Driver.Invariant.{IsValid}
use linux_qemu.Pelican.{send_message, receive_message}
use linux_qemu.Pelican.Handlers.{irq_handler, device_write}
use linux_qemu.Pelican.Run.{interrupt_keeps}
use linux_qemu.Pelican.Race.{Arrivals, fires, answered, device_write_interrupted}

abbrev pub no_arrivals : Arrivals
no_arrivals = record { checked = false; copied = false; asked = false; counted = false }

module _ {S : Type 0} (bus : Bus S) where
  -- Without interrupts it is device_write.
  pub device_write-uninterrupted :
      (count : ℕ) (slot : CanFrame) (failed : Bool) (d : CanDev) (s : S)
      → device_write_interrupted bus no_arrivals count slot failed d s
        ≡ device_write bus count slot failed d s
  unfolding device_write_interrupted answered device_write Driver.device_write fires
  device_write-uninterrupted count slot failed d s = ground arith

  transmit_ignores :
      (d d' : CanDev) (s s' : S) (temp i : ℕ)
      → irq_transmit bus (send_message bus) temp d s ≡ some (d', s')
      → (irq_transmit bus (send_message bus) temp (record d { tx_in = i }) s
          ≡ some (record d' { tx_in = i }, s'))
        × (d'.tx_in ≡ d.tx_in)
        × (d'.tx_buf ≡ d.tx_buf)
        × (d'.tx_count ≤ d.tx_count)
  unfolding irq_transmit
  transmit_ignores d d' s s' temp i e = elim (Option-cases (get_elem? d.tx_buf d.tx_out)) [
    | inl n ↦ ground (arith, n)
    | inr (f, h) ↦ elim (Option-cases (send_message bus f s)) [
      | inl n ↦ ground (arith, h, n)
      | inr (t, m) ↦ ground (arith, h, m)
    ]
  ]

  receive_ignores :
      (d d' : CanDev) (s s' : S) (i : ℕ)
      → irq_receive (receive_message bus) d s ≡ some (d', s')
      → (irq_receive (receive_message bus) (record d { tx_in = i }) s
          ≡ some (record d' { tx_in = i }, s'))
        × (d'.tx_in ≡ d.tx_in)
        × (d'.tx_buf ≡ d.tx_buf)
        × (d'.tx_count ≡ d.tx_count)
  unfolding irq_receive
  receive_ignores d d' s s' i e = elim (Option-cases (receive_message bus s)) [
    | inl n ↦ ground (arith, n)
    | inr ((f, t), m) ↦ ground (arith, m)
  ]

  -- The handler neither reads nor writes tx_in, and at most takes a frame from the ring.
  handler_ignores :
      (d d' : CanDev) (s s' : S) (i : ℕ)
      → irq_handler bus d s ≡ some (d', s')
      → (irq_handler bus (record d { tx_in = i }) s ≡ some (record d' { tx_in = i }, s'))
        × (d'.tx_in ≡ d.tx_in)
        × (d'.tx_buf ≡ d.tx_buf)
        × (d'.tx_count ≤ d.tx_count)
  unfolding irq_handler
  handler_ignores d d' s s' i e =
      let (temp, s1) = bus.read8 s 3 in
      elim (Option-cases (irq_transmit bus (send_message bus) temp d s1)) [
        | inl n ↦ absurd (ground (arith, n))
        | inr ((d2, s2), h) ↦
            let t = transmit_ignores d d2 s1 s2 temp i h in
            elim (Option-cases (irq_receive (receive_message bus) d2 s2)) [
              | inl n ↦ elim (Bool-cases (has temp 1)) [
                | inl b ↦ ground (arith, h, n, t, b)
                | inr b ↦ ground (arith, h, n, t, b)
              ]
              | inr ((d3, s3), m) ↦
                  let r = receive_ignores d2 d3 s2 s3 i m in ground (arith, h, m, t, r)
            ]
      ]

  fires_ignores :
      (b : Bool) (d d' : CanDev) (s s' : S) (i : ℕ)
      → fires bus b d s ≡ some (d', s')
      → (fires bus b (record d { tx_in = i }) s ≡ some (record d' { tx_in = i }, s'))
        × (d'.tx_in ≡ d.tx_in)
        × (d'.tx_buf ≡ d.tx_buf)
        × (d'.tx_count ≤ d.tx_count)
  unfolding fires
  fires_ignores true d d' s s' i e = handler_ignores d d' s s' i e
  fires_ignores false d d' s s' i e = ground arith

  fires_keeps :
      (b : Bool) (d d' : CanDev) (s s' : S)
      → IsValid d
      → fires bus b d s ≡ some (d', s')
      → IsValid d'
  unfolding fires
  fires_keeps true d d' s s' v e = interrupt_keeps bus s v e
  fires_keeps false d d' s s' v e = ground arith

  -- The end of a write that queues its frame: an interrupt finds the frame counted and tx_in not
  -- yet moved on.
  counted_keeps :
      (b : Bool) (d d' : CanDev) (s s' : S)
      → IsValid d
      → d.tx_count < 6
      → fires bus b (record d { tx_count = d.tx_count + 1 }) s ≡ some (d', s')
      → IsValid (record d' { tx_in = advance d'.tx_in })
  counted_keeps b d d' s s' v room e =
      let i : ℕ = advance d.tx_in in
      let (moved, same, buf, fewer) =
        fires_ignores b (record d { tx_count = d.tx_count + 1 }) d' s s' i e in
      let v1 : IsValid (record d { tx_count = d.tx_count + 1; tx_in = i }) = ground arith in
      let kept = fires_keeps b _ _ s s' v1 moved in rw same kept

  -- The end of a write, from the answer of the controller on.
  answered_keeps :
      (b : Bool) (temp : ℕ) (ret : ℤ) (count : ℕ) (d d' : CanDev) (s s' : S) {answer : ℤ}
      → IsValid d
      → d.tx_count < 6
      → answered bus b temp ret count d s ≡ some (answer, d', s')
      → IsValid d'
  unfolding answered
  answered_keeps b temp ret count d d' s s' v room e = elim (Bool-cases (bit_and temp 4 == 4)) [
    | inl free ↦ elim (Option-cases (get_elem? d.tx_buf d.tx_in)) [
      | inl n ↦ absurd (ground (arith, free, n))
      | inr (f, h) ↦ elim (Option-cases (send_message bus f s)) [
        | inl n ↦ absurd (ground (arith, free, h, n))
        | inr (t, m) ↦ ground (arith, free, h, m)
      ]
    ]
    | inr locked ↦ elim (Option-cases (fires bus b (record d { tx_count = d.tx_count + 1 }) s)) [
      | inl n ↦ absurd (ground (arith, locked, n))
      | inr ((d1, s1), h) ↦
          let kept = counted_keeps b d d1 s s1 v room h in ground (arith, locked, h, kept)
    ]
  ]

  -- Wherever interrupts arrive between the statements of a write that ends, the rings are well
  -- formed after it if they were before.
  pub device_write_interrupted-IsValid :
      (a : Arrivals) (count : ℕ) (slot : CanFrame) (failed : Bool) (d d' : CanDev) (s s' : S)
      {ret : ℤ}
      → IsValid d
      → device_write_interrupted bus a count slot failed d s ≡ some (ret, d', s')
      → IsValid d'
  unfolding device_write_interrupted
  device_write_interrupted-IsValid a count slot failed d d' s s' {ret} v e =
      elim (Bool-cases (count == frame_size && not (d.tx_count == buffer_size))) [
        | inr refused ↦ ground (arith, refused)
        | inl taken ↦ elim (Option-cases (fires bus a.checked d s)) [
          | inl n ↦ absurd (ground (arith, taken, n))
          | inr ((d1, s1), h1) ↦
              let v1 = fires_keeps a.checked d d1 s s1 v h1 in
              let fewer1 = fires_ignores a.checked d d1 s s1 0 h1 in
              let d2 = record d1 { tx_buf = set d1.tx_buf d1.tx_in slot } in
              let v2 : IsValid d2 = ground (arith, length-set d1.tx_buf d1.tx_in slot) in
              elim (Option-cases (fires bus a.copied d2 s1)) [
                | inl n ↦ absurd (ground (arith, taken, h1, n))
                | inr ((d3, s3), h2) ↦
                    let v3 = fires_keeps a.copied d2 d3 s1 s3 v2 h2 in
                    let fewer2 = fires_ignores a.copied d2 d3 s1 s3 0 h2 in
                    let (temp, s4) = bus.read8 s3 2 in
                    elim (Option-cases (fires bus a.asked d3 s4)) [
                      | inl n ↦ absurd (ground (arith, taken, h1, h2, n))
                      | inr ((d4, s5), h3) ↦
                          let v4 = fires_keeps a.asked d3 d4 s4 s5 v3 h3 in
                          let fewer3 = fires_ignores a.asked d3 d4 s4 s5 0 h3 in
                          let ret' : ℤ = if failed then efault else pos count in
                          let last : answered bus a.counted temp ret' count d4 s5
                              ≡ some (ret, d', s') =
                            ground (arith, taken, h1, h2, h3, fewer1, v1, e) in
                          answered_keeps a.counted temp ret' count d4 d' s5 s' v4
                            (ground (arith, taken, fewer1, fewer2, fewer3)) last
                    ]
              ]
        ]
      ]
