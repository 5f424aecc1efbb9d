-- ===== src/Driver/Threads/Alone.antt =====
-- The statements of Driver.Threads, run without interruption, are device_read and device_write of
-- source/linux_driver/*/can_pci.c.
use linux_qemu.Base.{
  ℕ, zero, suc, ◌<◌, List, [], ◌∷◌, ◌++◌, Option, none, some, ◌>>=◌, Bool, true, false, ◌==◌, ◌≡◌,
  arith, Ends, if◌then◌else◌, length-set, get_elem?-eq-get_or, get_or-set_self, set,
}
use linux_qemu.Base.Words.{add_word, sub_word}
use linux_qemu.Frame.{CanFrame, Bus, zero_frame}
use linux_qemu.Driver.{CanDev, device_read, device_write}
use linux_qemu.Driver.Invariant.{IsValid}
use linux_qemu.Driver.Threads.{
  ReadPc, resting, found, copied, stepped, moved, WritePc, outside, admitted, filled, asked,
  counted, stored, read_step, write_step,
}

abbrev is_resting : ReadPc → Bool
is_resting resting = true
is_resting found = false
is_resting (copied f) = false
is_resting stepped = false
is_resting moved = false

abbrev is_outside : WritePc → Bool
is_outside outside = true
is_outside admitted = false
is_outside (filled f) = false
is_outside (asked f temp) = false
is_outside counted = false
is_outside stored = false

-- Statements of one reader until it is through, at most so many; with the end come the frames taken.
pub read_alone : ℕ → ℕ → Bool → CanDev → ReadPc → Option (CanDev × ReadPc × List CanFrame)
read_alone word zero failed d p = some (d, p, [])
read_alone word (suc n) failed d p = do
  (d1, p1, h) ← read_step word failed d p
  (d2, p2, g) ← if is_resting p1 then some (d1, p1, []) else read_alone word n failed d1 p1
  some (d2, p2, h ++ g)

-- With well-formed rings five statements bring a reader through, and leave what device_read leaves; the
-- frame that it takes is the one that device_read returns.
pub read_alone-device_read :
    (word : ℕ) (failed : Bool) (d : CanDev)
    → 6 < word
    → IsValid d
    → Ends (read_alone word 5 failed d resting) (λ (d1, p, h).
      Ends (device_read 16 failed d) (λ (ret, out, d').
        (p ≡ resting) × (d1 ≡ d') × (h ≡ elim out [ none ↦ [] | some f ↦ f ∷ [] ])))
unfolding read_alone read_step device_read
read_alone-device_read word failed d big v =
    let oldest = get_elem?-eq-get_or d.rx_buf d.rx_out zero_frame in
    let left = sub_word word d.rx_count 1 in ground (arith, oldest, left)

module _ {S : Type 0} (bus : Bus S) (send : CanFrame → S → Option S) where
  -- The same for a writer.
  pub write_alone :
      ℕ → ℕ → CanFrame → CanDev → S → WritePc → Option (CanDev × S × WritePc × List CanFrame)
  write_alone word zero slot d s p = some (d, s, p, [])
  write_alone word (suc n) slot d s p = do
    (d1, s1, p1, h) ← write_step bus send word slot d s p
    (d2, s2, p2, g) ←
        if is_outside p1 then some (d1, s1, p1, []) else write_alone word n slot d1 s1 p1
    some (d2, s2, p2, h ++ g)

  -- With well-formed rings, where the frame can be sent: six statements bring a writer through, leave
  -- what device_write leaves of the rings and of the controller, whether copy_from_user fails or not, and
  -- take over the frame unless the ring is full.
  pub write_alone-device_write :
      (word : ℕ) (slot : CanFrame) (failed : Bool) (d : CanDev) (s : S) {sent : S}
      → 6 < word
      → IsValid d
      → send slot (bus.read8 s 2).1 ≡ some sent
      → Ends (write_alone word 6 slot d s outside) (λ (d1, s1, p, h).
        Ends (device_write bus send 16 slot failed d s) (λ (ret, d', s').
          (p ≡ outside)
          × (d1 ≡ d')
          × (s1 ≡ s')
          × (h ≡ (if d.tx_count == 6 then [] else slot ∷ []))))
  unfolding write_alone write_step device_write
  write_alone-device_write word slot failed d s big v can_send =
      let own = get_elem?-eq-get_or (set d.tx_buf d.tx_in slot) d.tx_in zero_frame in
      let put = get_or-set_self d.tx_buf d.tx_in slot zero_frame in
      let more = add_word word d.tx_count 1 in
      ground (arith, own, put, more, can_send, length-set d.tx_buf d.tx_in slot)
