-- ===== src/Pelican/Race/Reads.antt =====
-- device_read of source/linux_driver/pelican_mode/can_pci.c with the interrupt handler running
-- between its statements.
use linux_qemu.Base.{
  ℕ, ◌-◌, ◌<◌, List, ◌∷◌, ◌++◌, append_assoc, Option, Option-cases, none, some, ◌>>=◌, Bool, false,
  not, ◌==◌, ◌≡◌, sym, ap, ◌∙◌, inl, inr, arith, if◌then◌else◌, get_elem?, get_elem?-eq-get_or,
  get_or, length, length-append,
}
use linux_qemu.Base.Int.{ℤ, pos, efault, einval}
use linux_qemu.Frame.{CanFrame, Bus, zero_frame, frame_size}
use linux_qemu.Driver.{CanDev, device_read}
use linux_qemu.Driver.Ring.{advance, queue, queue-pop, length-queue}
use linux_qemu.Driver.Invariant.{IsValid, rx_queue}
use linux_qemu.Pelican.Race.{fires}
use linux_qemu.Pelican.Race.Adds.{fires_ignores, fires_adds}

-- Behind the test for an empty ring, behind copy_to_user, and between rx_out++ and rx_count--.
pub record ReadArrivals : Type 0 where
  pub checked : Bool
  pub copied : Bool
  pub moved : Bool

-- Where frames wait, adding behind them keeps them waiting and the oldest one the oldest.
oldest : CanDev → CanFrame
oldest d = get_or d.rx_buf d.rx_out zero_frame

still_waits :
    (d d' : CanDev) (more : List CanFrame)
    → rx_queue d' ≡ rx_queue d ++ more
    → 0 < d.rx_count
    → 0 < d'.rx_count
still_waits d d' more adds some_wait = omega (
  arith,
  length-queue d.rx_buf d.rx_out d.rx_count,
  length-queue d'.rx_buf d'.rx_out d'.rx_count,
  ap length adds,
  length-append (rx_queue d) more,
)

still_oldest :
    (d d' : CanDev) (more : List CanFrame)
    → rx_queue d' ≡ rx_queue d ++ more
    → 0 < d.rx_count
    → oldest d' ≡ oldest d
unfolding oldest
still_oldest d d' more adds some_wait =
    let later = still_waits d d' more adds some_wait in
    let first = queue-pop d.rx_buf d.rx_out d.rx_count (omega arith) in
    let first' = queue-pop d'.rx_buf d'.rx_out d'.rx_count (omega arith) in
    let whole : oldest d' ∷ queue d'.rx_buf (advance d'.rx_out) (d'.rx_count - 1)
        ≡ oldest d ∷ queue d.rx_buf (advance d.rx_out) (d.rx_count - 1) ++ more =
      sym first' ∙ adds ∙ ap (λ q. q ++ more) first in
    ground (arith, whole)

added_twice :
    (w m1 m2 m3 : List CanFrame) {w1 w2 : List CanFrame}
    → w1 ≡ w ++ m1
    → w2 ≡ w1 ++ m2
    → w ++ (m1 ++ m2 ++ m3) ≡ w2 ++ m3
added_twice w m1 m2 m3 e1 e2 = rw (e2, e1, append_assoc w m1 m2, append_assoc w (m1 ++ m2) m3)

module _ {S : Type 0} (bus : Bus S) where
  pub device_read_interrupted :
      ReadArrivals → ℕ → Bool → CanDev → S → Option (ℤ × Option CanFrame × CanDev × S)
  device_read_interrupted a count failed d s =
      if not (count == frame_size)
      then some (einval, none, d, s)
      else if d.rx_count == 0
      then some (pos 0, none, d, s)
      else do
        (d1, s1) ← fires bus a.checked d s
        f ← get_elem? d1.rx_buf d1.rx_out
        (d2, s2) ← fires bus a.copied d1 s1
        if failed then some (efault, none, d2, s2) else do
          (d3, s3) ← fires bus a.moved (record d2 { rx_out = advance d2.rx_out }) s2
          some (pos count, some f, record d3 { rx_count = d3.rx_count - 1 }, s3)

  -- Without interrupts it is device_read.
  pub device_read-uninterrupted :
      (count : ℕ) (failed : Bool) (d : CanDev) (s : S)
      → device_read_interrupted
          (record { checked = false; copied = false; moved = false })
          count
          failed
          d
          s
        ≡ (do (ret, out, d') ← device_read count failed d; some (ret, out, d', s))
  unfolding device_read_interrupted device_read fires
  device_read-uninterrupted count failed d s = elim (Option-cases (get_elem? d.rx_buf d.rx_out)) [
    | inl n ↦ ground (arith, n)
    | inr (f, h) ↦ ground (arith, h)
  ]

  -- The end of a successful read: an interrupt finds rx_out moved on and the frame still counted.
  moved_keeps :
      (b : Bool) (d d' : CanDev) (s s' : S)
      → IsValid d
      → 0 < d.rx_count
      → fires bus b (record d { rx_out = advance d.rx_out }) s ≡ some (d', s')
      → let after = record d' { rx_count = d'.rx_count - 1 } in
        IsValid after × ((more : List CanFrame) × (rx_queue d ++ more ≡ oldest d ∷ rx_queue after))
  unfolding oldest
  moved_keeps b d d' s s' v some_wait e =
      let out : ℕ = advance d.rx_out in
      let (same, kept) = fires_ignores bus b (record d { rx_out = out }) d' s s' d.rx_out e in
      let d1 : CanDev = record d' { rx_out = d.rx_out } in
      let (v1, (more, adds)) = fires_adds bus b d d1 s s' v same in
      let wait = still_waits d d1 more adds some_wait in
      let pop = queue-pop d1.rx_buf d1.rx_out d1.rx_count (omega arith) in
      let first = still_oldest d d1 more adds some_wait in
      (ground (arith, kept), (more, ground (arith, adds, pop, first, kept)))

  -- Wherever interrupts arrive between the statements of a read that finds a frame and copies it:
  -- the rings are well formed after it if they were before, the caller has the oldest frame that
  -- waited, and behind it wait, in order, the others and the frames that the interrupts brought.
  pub device_read_interrupted-takes :
      (a : ReadArrivals) (d d' : CanDev) (s s' : S) {ret : ℤ} {out : Option CanFrame}
      → IsValid d
      → 0 < d.rx_count
      → device_read_interrupted a 16 false d s ≡ some (ret, out, d', s')
      → (ret ≡ pos 16)
        × IsValid d'
        × ((f : CanFrame) × (more : List CanFrame) × (out ≡ some f)
            × (rx_queue d ++ more ≡ f ∷ rx_queue d'))
  unfolding device_read_interrupted oldest
  device_read_interrupted-takes a d d' s s' v some_wait e =
      elim (Option-cases (fires bus a.checked d s)) [
        | inl n ↦ absurd (ground (arith, n))
        | inr ((d1, s1), h1) ↦
            let (v1, (m1, a1)) = fires_adds bus a.checked d d1 s s1 v h1 in
            let w1 = still_waits d d1 m1 a1 some_wait in
            let found = get_elem?-eq-get_or d1.rx_buf d1.rx_out zero_frame in
            elim (Option-cases (fires bus a.copied d1 s1)) [
              | inl n ↦ absurd (ground (arith, h1, n, found))
              | inr ((d2, s2), h2) ↦
                  let (v2, (m2, a2)) = fires_adds bus a.copied d1 d2 s1 s2 v1 h2 in
                  let w2 = still_waits d1 d2 m2 a2 w1 in
                  elim (Option-cases
                    (fires bus a.moved (record d2 { rx_out = advance d2.rx_out }) s2)) [
                      | inl n ↦ absurd (ground (arith, h1, h2, n, found))
                      | inr ((d3, s3), h3) ↦
                          let (v3, (m3, a3)) = moved_keeps a.moved d2 d3 s2 s3 v2 w2 h3 in
                          let first = still_oldest d1 d2 m2 a2 w1 in
                          let all : rx_queue d ++ (m1 ++ m2 ++ m3)
                              ≡ oldest d1 ∷ rx_queue (record d3 { rx_count = d3.rx_count - 1 }) =
                            added_twice (rx_queue d) m1 m2 m3 a1 a2
                            ∙ a3
                            ∙ ap (λ f. f ∷ rx_queue (record d3 { rx_count = d3.rx_count - 1 }))
                                first in
                          (
                            ground (arith, h1, h2, h3, found),
                            ground (arith, h1, h2, h3, found, v3),
                            (
                              oldest d1,
                              m1 ++ m2 ++ m3,
                              ground (arith, h1, h2, h3, found),
                              ground (arith, h1, h2, h3, found, all),
                            ),
                          )
                    ]
            ]
      ]
