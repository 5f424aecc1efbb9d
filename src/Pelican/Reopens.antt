-- ===== src/Pelican/Reopens.antt =====
-- A second process opens the device of source/linux_driver/pelican_mode/can_pci.c while a reader is inside
-- device_read: device_open empties the rings that all processes share.
use native.Mathlib.Nat.{mod-eq_of_lt}
use linux_qemu.Base.{
  Ends-bind, get_elem?, ap, ℕ, zero, suc, ◌+◌, ◌-◌, ◌%◌, ◌≤◌, ◌<◌, List, [], ◌∷◌, Option, some,
  ◌>>=◌, ◌≡◌, false, refl, arith, Ends, ◌==◌, replicate, get_elem?-eq-get_or,
}
use linux_qemu.Base.Int.{ℤ, pos}
use linux_qemu.Frame.{CanFrame, Bus, zero_frame}
use linux_qemu.Driver.{CanDev, device_read, empty_rings}
use linux_qemu.Driver.Ring.{advance}
use linux_qemu.Driver.Invariant.{IsValid}
use linux_qemu.Driver.Threads.{ReadPc, resting, read_step}
use linux_qemu.Pelican.Handlers.{device_open}

-- So many calls of device_read, with the frames that they return.
pub read_frames : ℕ → CanDev → Option (List (Option CanFrame) × CanDev)
read_frames zero d = some ([], d)
read_frames (suc n) d = do
  (ret, out, d1) ← device_read 16 false d
  (outs, d2) ← read_frames n d1
  some (out ∷ outs, d2)

module _ {S : Type 0} (bus : Bus S) where
  -- The reader passes the test and copies its frame, the other process opens, and the reader moves on.
  pub read_reopened : ℕ → CanDev → S → Option (ℤ × CanDev × ReadPc × List CanFrame)
  read_reopened word d s = do
    (d1, p1, h1) ← read_step word false d resting
    (d2, p2, h2) ← read_step word false d1 p1
    let (ret, d3, t) = device_open bus d2 s
    (d4, p4, h) ← read_step word false d3 p2
    (d5, p5, h5) ← read_step word false d4 p4
    (d6, p6, h6) ← read_step word false d5 p5
    some (ret, d6, p6, h)

-- Cleared rings of which one counts so many frames.
abbrev pub cleared : ℕ → ℕ → CanDev
cleared out count = record empty_rings { rx_out = out; rx_count = count }

cleared_slot : (out : ℕ) → out < 6 → get_elem? empty_rings.rx_buf out ≡ some zero_frame
cleared_slot zero h = refl
cleared_slot (suc zero) h = refl
cleared_slot (suc (suc zero)) h = refl
cleared_slot (suc (suc (suc zero))) h = refl
cleared_slot (suc (suc (suc (suc zero)))) h = refl
cleared_slot (suc (suc (suc (suc (suc zero))))) h = refl
cleared_slot (suc (suc (suc (suc (suc (suc out)))))) h = absurd (omega arith)

ghost :
    (out count : ℕ)
    → out < 6
    → 0 < count
    → device_read 16 false (cleared out count)
      ≡ some (pos 16, some zero_frame, cleared (advance out) (count - 1))
unfolding device_read
ghost out count inside some_left = ground (arith, cleared_slot out)

-- Each of the counted frames is read as a frame of zeros.
ghosts :
    (n out count : ℕ)
    → out < 6
    → n ≤ count
    → Ends (read_frames n (cleared out count)) (λ (outs, d). outs ≡ replicate n (some zero_frame))
unfolding read_frames
ghosts zero out count inside enough = refl
ghosts (suc n) out count inside enough = rw (ghost out count inside (omega arith)) (
    Ends-bind (read_frames n (cleared (advance out) (count - 1))) _ _
      (ghosts n (advance out) (count - 1) (ground arith) (omega arith))
      (λ (outs, d) e. ap (λ t. some zero_frame ∷ t) e))

module _ {S : Type 0} (bus : Bus S) where
  open_empties :
      (d : CanDev) (s : S) → (device_open bus d s).0 ≡ pos 0 → (device_open bus d s).1 ≡ empty_rings
  unfolding device_open
  open_empties d s e = ground arith

  -- With well-formed rings, a frame waiting and a size_t of more than six: where another process opens the
  -- device successfully after the reader has copied its frame, the reader comes through, and the count of
  -- the emptied ring has wrapped to the largest number of size_t. Up to so many calls of device_read that
  -- follow, with nothing received, return frames of zeros that nobody sent.
  pub read_reopened-ghosts :
      (word : ℕ) (d : CanDev) (s : S)
      → 6 < word
      → IsValid d
      → 0 < d.rx_count
      → (device_open bus d s).0 ≡ pos 0
      → Ends (read_reopened bus word d s) (λ (ret, d', p, h).
        (p ≡ resting)
        × (d'.rx_count ≡ word - 1)
        × ((n : ℕ)
            → n < word
            → Ends (read_frames n d') (λ (outs, e). outs ≡ replicate n (some zero_frame))))
  unfolding read_reopened read_step
  read_reopened-ghosts word d s big v waits opens =
      let oldest = get_elem?-eq-get_or d.rx_buf d.rx_out zero_frame (ground (arith, v)) in
      let last : 0 + word - 1 ≡ word - 1 = omega arith in
      let wraps : (0 + word - 1) % word ≡ word - 1 = rw last (mod-eq_of_lt (omega arith)) in
      let found_some : (d.rx_count == 0) ≡ false = ground arith in
      rw (found_some, oldest, open_empties d s opens, wraps)
        (refl, refl, λ n small. ghosts n 1 (word - 1) (omega arith) (omega arith))
