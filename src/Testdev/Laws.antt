-- ===== src/Testdev/Laws.antt =====
-- The test device of backup/qemu_linux1/pci_testdev2.c as a memory.
use linux_qemu.Base.{
  ℕ, ◌+◌, ◌%◌, ◌^◌, ◌≤◌, ◌<◌, List, [], ◌∷◌, none, some, ◌≡◌, ◌⊎◌, Ends, length, get_or, take, drop,
  arith,
}
use linux_qemu.Memory.{bytes_of}
use linux_qemu.Memory.Laws.{read-write, write-outcomes}
use linux_qemu.Testdev.{mem_pci_write, mem_pci_read}

-- At the addresses up to 8 of the sixteen bytes, a read of at most four bytes after a write of as many
-- gives back the low `size` bytes, whatever the reader's variable held, and any byte `i` outside those
-- written stays.
pub mem_pci_read-write :
    (addr val size s0 s1 s2 s3 i : ℕ) (mem : List ℕ)
    → length mem ≡ 16
    → addr ≤ 8
    → size ≤ 4
    → (i < addr) ⊎ (addr + size ≤ i)
    → Ends (mem_pci_write addr val size mem) (λ mem'.
      Ends
        (mem_pci_read addr size (s0 ∷ s1 ∷ s2 ∷ s3 ∷ []) mem')
        (λ v. v % 256 ^ size ≡ val % 256 ^ size)
      × (length mem' ≡ 16)
      × (get_or mem' i 0 ≡ get_or mem i 0))
unfolding mem_pci_write mem_pci_read
mem_pci_read-write addr val size s0 s1 s2 s3 i mem sixteen inside =
    read-write 16 addr val size s0 s1 s2 s3 i mem sixteen (omega arith)

-- A write of at most eight bytes, by its address: above 16 it is ignored; up to 8 it ends, and its bytes
-- are there; at 9 to 16 it leaves the sixteen bytes, where the handler prints the eight bytes from the
-- address on, or even its memcpy does.
pub mem_pci_write-outcomes :
    (addr val size : ℕ) (mem : List ℕ)
    → length mem ≡ 16
    → size ≤ 8
    → (16 < addr → mem_pci_write addr val size mem ≡ some mem)
      × (addr ≤ 8
          → Ends
              (mem_pci_write addr val size mem)
              (λ mem'. take size (drop addr mem') ≡ bytes_of size val))
      × (8 < addr → addr ≤ 16 → mem_pci_write addr val size mem ≡ none)
unfolding mem_pci_write
mem_pci_write-outcomes addr val size mem sixteen short =
    let (ignored, stored, outside) = write-outcomes 16 addr val size mem sixteen short in
    (ignored, λ inside. stored (omega arith), λ near. outside (omega arith))
