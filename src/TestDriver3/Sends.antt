-- ===== src/TestDriver3/Sends.antt =====
-- The driver of backup/qemu_linux3/qemu_test on the device of backup/qemu_linux3/can-pci.c.
use linux_qemu.Base.{
  ℕ, zero, suc, ◌<◌, refl, sym, ap, ◌∙◌, ◌≤◌, List, [], ◌∷◌, ◌++◌, some, false, ◌≡◌, arith, Ends,
  length, take, get_or,
}
use linux_qemu.Base.Int.{pos}
use linux_qemu.Frame.{AllBelow}
use linux_qemu.Memory.{overlay, store, load}
use linux_qemu.Memory.Laws.{length-overlay, take-drop-overlay}
use linux_qemu.CanPci3.{CanState, can_mem_write, guest_bus}
use linux_qemu.CanPci3.Trigger.{hits, write_all-overlay, write_trigger}
use linux_qemu.TestDriver3.{CanDev, device_write}

-- The driver's buffer after a write at its start.
pub copied :
    (slot mem : List ℕ)
    → length mem ≡ 96
    → length slot ≤ 96
    → (store 0 slot mem ≡ some (overlay 0 slot mem))
      × (load 0 (length slot) (overlay 0 slot mem) ≡ some slot)
unfolding store load
copied slot mem size fits = ground (arith, length-overlay 0 slot mem, take-drop-overlay 0 slot mem)

get_or-take : (n i : ℕ) (xs : List ℕ) → i < n → get_or (take n xs) i 0 ≡ get_or xs i 0
get_or-take zero i xs h = absurd (omega arith)
get_or-take (suc n) i [] h = refl
get_or-take (suc n) zero (x ∷ xs) h = refl
get_or-take (suc n) (suc i) (x ∷ xs) h = get_or-take n i xs (omega arith)

-- The length code of a frame that is written to the device's memory.
pub get_or-overlay_code :
    (slot mem : List ℕ)
    → length slot ≡ 16
    → length mem ≡ 32
    → get_or (overlay 0 slot mem) 4 0 ≡ get_or slot 4 0
get_or-overlay_code slot mem sixteen size =
    let there = rw sixteen at (take-drop-overlay 0 slot mem (omega arith)) in
    sym (get_or-take 16 4 (overlay 0 slot mem) (omega arith)) ∙ ap (λ t. get_or t 4 0) there

module _ (stale slot : List ℕ) (d : CanDev) (s : CanState) where
  -- A write of a frame's sixteen bytes at the start of the driver's 96, none of which is 0x55 and whose
  -- length code is at most 24,
  -- makes the device of 32 bytes send exactly these bytes, once, and returns 16.
  pub device_write-sends :
      length d.mem ≡ 96
      → length s.mem ≡ 32
      → length slot ≡ 16
      → AllBelow 256 slot
      → hits slot ≡ 0
      → get_or slot 4 0 ≤ 24
      → Ends
          (device_write (guest_bus stale) 16 0 slot false d (some s))
          (λ (ret, d1, t). (ret ≡ pos 16) × Ends t (λ u. u.chr ≡ s.chr ++ slot ∷ []))
  unfolding device_write guest_bus can_mem_write
  device_write-sends buffer size sixteen bytes plain shown =
      let s1 = record s { mem = overlay 0 slot s.mem } in
      let fourth = get_or-overlay_code slot s.mem in
      ground (
        arith,
        copied slot d.mem,
        write_all-overlay stale 0 slot s,
        write_trigger 30 s1,
        take-drop-overlay 0 slot s.mem,
        length-overlay 0 slot s.mem,
        fourth,
      )
