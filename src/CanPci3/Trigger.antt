-- ===== src/CanPci3/Trigger.antt =====
-- Runs of byte writes to the device of backup/qemu_linux3/can-pci.c.
use linux_qemu.Base.{
  ℕ, zero, suc, ◌+◌, ◌≤◌, ◌<◌, List, [], ◌∷◌, ◌++◌, some, ◌≡◌, refl, arith, Ends, ◌==◌, length,
  take, drop, Option-cases, inl, inr, false, length-set, set, if◌then◌else◌, get_or,
  get_elem?-eq-get_or, length-drop,
}
use linux_qemu.Frame.{AllBelow, write_all}
use linux_qemu.Memory.{overlay, store, bytes_of}
use linux_qemu.Display.{display_msg, items, short_item}
use linux_qemu.CanPci3.{CanState, can_mem_write, frame_at_start, guest_bus}

-- How many of the bytes start a transmission.
unfoldable pub hits : List ℕ → ℕ
hits [] = 0
hits (b ∷ bs) = if b == 0x55 then hits bs + 1 else hits bs

write_plain :
    (a b : ℕ) (s : CanState)
    → length s.mem ≡ 32
    → a < 32
    → b < 256
    → (b == 0x55) ≡ false
    → can_mem_write a b 1 s ≡ some (record s { mem = set s.mem a b })
unfolding can_mem_write store overlay bytes_of
write_plain a b s size inside byte plain = ground arith

-- Printing bytes that are there.
items-ends :
    (item : ℕ → List ℕ) (n i : ℕ) (bytes : List ℕ)
    → i + n ≤ length bytes
    → Ends (items item n i bytes) (λ t. Unit {0})
unfolding items
items-ends item zero i bytes inside = tt
items-ends item (suc n) i bytes inside = elim (Option-cases (items item n (i + 1) bytes)) [
  | inl e ↦ absurd (rw e at (items-ends item n (i + 1) bytes (omega arith)))
  | inr (rest, e) ↦ ground (arith, e, get_elem?-eq-get_or bytes i 0)
]

printed_frame :
    (mem : List ℕ)
    → length mem ≡ 32
    → get_or mem 4 0 ≤ 24
    → Ends (display_msg (frame_at_start mem)) (λ t. Unit {0})
unfolding display_msg
printed_frame mem size shown =
    let room : 0 + get_or mem 4 0 ≤ length (drop 8 mem) = omega (arith, length-drop 8 mem) in
    elim (Option-cases (items short_item (get_or mem 4 0) 0 (drop 8 mem))) [
      | inl e ↦ absurd (rw e at (items-ends short_item (get_or mem 4 0) 0 (drop 8 mem) room))
      | inr (text, e) ↦ rw e tt
    ]

-- With at most 24 bytes of data in the frame at the memory's start.
pub write_trigger :
    (a : ℕ) (s : CanState)
    → a < 32
    → length s.mem ≡ 32
    → get_or s.mem 4 0 ≤ 24
    → can_mem_write a 0x55 1 s ≡ some (record s { chr = s.chr ++ take 16 s.mem ∷ []; offset = 0 })
unfolding can_mem_write
write_trigger a s inside size shown = elim (Option-cases (display_msg (frame_at_start s.mem))) [
  | inl e ↦ absurd (rw e at (printed_frame s.mem size shown))
  | inr (text, e) ↦ ground (arith, e)
]

module _ (stale : List ℕ) where
  -- Bytes other than 0x55 go to the memory.
  pub write_all-overlay :
      (a : ℕ) (bs : List ℕ) (s : CanState)
      → length s.mem ≡ 32
      → a + length bs ≤ 32
      → AllBelow 256 bs
      → hits bs ≡ 0
      → write_all (guest_bus stale) a bs (some s) ≡ some (record s { mem = overlay a bs s.mem })
  unfolding guest_bus hits overlay
  write_all-overlay a [] s size fits bytes plain = refl
  write_all-overlay a (b ∷ bs) s size fits bytes plain =
      let s1 = record s { mem = set s.mem a b } in
      ground (arith, write_plain a b s, write_all-overlay (a + 1) bs s1, length-set s.mem a b)
