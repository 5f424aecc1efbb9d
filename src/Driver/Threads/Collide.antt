-- ===== src/Driver/Threads/Collide.antt =====
-- Two readers, or two writers, of source/linux_driver/*/can_pci.c at once. The drivers have one device
-- for all processes, and no lock.
use linux_qemu.Base.{
  ◌∙◌, suc, ℕ, ◌+◌, ◌-◌, ◌%◌, ◌≤◌, ◌<◌, bit_and, List, [], ◌∷◌, ◌++◌, append_assoc, Option, some,
  ◌>>=◌, Bool, true, false, ◌==◌, ◌≡◌, arith, Ends, length-set, get_elem?-eq-get_or, get_or,
  get_or-set_ne, set, set-set,
}
use native.Mathlib.Nat.{mod-eq_of_lt}
use linux_qemu.Base.Words.{add_word, sub_word}
use linux_qemu.Frame.{CanFrame, Bus, zero_frame}
use linux_qemu.Driver.{CanDev}
use linux_qemu.Driver.Ring.{advance, queue, queue-set, queue-snoc}
use linux_qemu.Driver.Invariant.{IsRing, IsValid, rx_queue, tx_queue}
use linux_qemu.Driver.Threads.{ReadPc, resting, WritePc, outside, read_step, write_step}

-- Two readers take turns, `true` is the first; with the end come the frames that each has taken.
pub run_readers :
    ℕ
    → List Bool
    → CanDev
    → ReadPc
    → ReadPc
    → Option (CanDev × ReadPc × ReadPc × List CanFrame × List CanFrame)
run_readers word [] d p q = some (d, p, q, [], [])
run_readers word (true ∷ turns) d p q = do
  (d1, p1, h) ← read_step word false d p
  (d2, p2, q2, g1, g2) ← run_readers word turns d1 p1 q
  some (d2, p2, q2, h ++ g1, g2)
run_readers word (false ∷ turns) d p q = do
  (d1, q1, h) ← read_step word false d q
  (d2, p2, q2, g1, g2) ← run_readers word turns d1 p q1
  some (d2, p2, q2, g1, h ++ g2)

-- Each statement of the first is followed by the same of the second.
abbrev pub five_each : List Bool
five_each = true ∷ false ∷ true ∷ false ∷ true ∷ false ∷ true ∷ false ∷ true ∷ false ∷ []

-- With well-formed rings and one frame waiting, two readers in step both return it, and the count of
-- the ring wraps to the largest number of size_t.
pub readers_collide :
    (word : ℕ) (d : CanDev)
    → 1 < word
    → IsValid d
    → d.rx_count ≡ 1
    → Ends (run_readers word five_each d resting resting) (λ (d', p, q, g1, g2).
      (p ≡ resting)
      × (q ≡ resting)
      × (g1 ≡ rx_queue d)
      × (g2 ≡ rx_queue d)
      × (d'.rx_count ≡ word - 1))
unfolding run_readers read_step queue
readers_collide word d big v one =
    let oldest = get_elem?-eq-get_or d.rx_buf d.rx_out zero_frame in
    let first : (1 + word - 1) % word ≡ 0 = sub_word word 1 1 (omega arith) (omega arith) in
    let last : 0 + word - 1 ≡ word - 1 = omega arith in
    let second : (0 + word - 1) % word ≡ word - 1 = rw last (mod-eq_of_lt (omega arith)) in
    ground (arith, oldest, first, second, one)

-- Two writes to the slot after the last frame, counted as two frames: the first is gone, and after the
-- second comes what the next slot held.
two_writes :
    (buf : List CanFrame) (a b : CanFrame) (n i out : ℕ)
    → IsRing buf n i out
    → n + 2 ≤ 6
    → queue (set (set buf i a) i b) out (suc (suc n))
      ≡ queue buf out n ++ b ∷ get_or buf (advance i) zero_frame ∷ []
two_writes buf a b n i out v room =
    let mine : i < 6 = ground (arith, v) in
    let at_end : advance i ≡ (out + suc n) % 6 = ground (arith, v) in
    rw (
      set-set buf i a b,
      queue-snoc (set buf i b) (suc n) out (advance i) v.out_in at_end,
      queue-set buf b n out i v.six v.out_in (omega arith) v.in_after,
      get_or-set_ne buf i (advance i) b zero_frame (ground arith),
      append_assoc (queue buf out n) (b ∷ []) (get_or buf (advance i) zero_frame ∷ []),
    )

module _ {S : Type 0} (bus : Bus S) (send : CanFrame → S → Option S) where
  -- Two writers, whose callers have `a` and `b`, take turns.
  pub run_writers :
      ℕ
      → CanFrame
      → CanFrame
      → List Bool
      → CanDev
      → S
      → WritePc
      → WritePc
      → Option (CanDev × S × WritePc × WritePc × List CanFrame × List CanFrame)
  run_writers word a b [] d s p q = some (d, s, p, q, [], [])
  run_writers word a b (true ∷ turns) d s p q = do
    (d1, s1, p1, h) ← write_step bus send word a d s p
    (d2, s2, p2, q2, g1, g2) ← run_writers word a b turns d1 s1 p1 q
    some (d2, s2, p2, q2, h ++ g1, g2)
  run_writers word a b (false ∷ turns) d s p q = do
    (d1, s1, q1, h) ← write_step bus send word b d s q
    (d2, s2, p2, q2, g1, g2) ← run_writers word a b turns d1 s1 p q1
    some (d2, s2, p2, q2, g1, h ++ g2)

  -- With well-formed rings, two free slots and a controller that answers both that it is busy, two
  -- writers in step both hand over their frame and come through. The second frame is in the slot of the
  -- first, which is lost, and after it waits what the next slot held before.
  pub writers_collide :
      (word : ℕ) (a b : CanFrame) (d : CanDev) (s : S)
      → 6 < word
      → IsValid d
      → d.tx_count + 2 ≤ 6
      → (bit_and (bus.read8 s 2).0 4 == 4) ≡ false
      → (bit_and (bus.read8 (bus.read8 s 2).1 2).0 4 == 4) ≡ false
      → Ends
          (run_writers word a b (true ∷ false ∷ five_each) d s outside outside)
          (λ (d', s', p, q, g1, g2).
            (p ≡ outside)
            × (q ≡ outside)
            × (g1 ≡ a ∷ [])
            × (g2 ≡ b ∷ [])
            × (tx_queue d' ≡ tx_queue d ++ b ∷ get_or d.tx_buf (advance d.tx_in) zero_frame ∷ []))
  unfolding run_writers write_step
  writers_collide word a b d s big v room busy busy' =
      let inside : d.tx_in < 6 = ground (arith, v) in
      let one : (d.tx_count + 1) % word ≡ d.tx_count + 1 =
        add_word word d.tx_count 1 (omega arith) in
      let two : (d.tx_count + 1 + 1) % word ≡ d.tx_count + 2 =
        add_word word (d.tx_count + 1) 1 (omega arith) ∙ omega arith in
      ground (
        arith,
        one,
        two,
        two_writes d.tx_buf a b d.tx_count d.tx_in d.tx_out v.tx room,
        length-set d.tx_buf d.tx_in a,
      )
