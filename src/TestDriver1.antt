-- ===== src/TestDriver1.antt =====
-- backup/qemu_linux1/linux_driver/qemu_test_pci.c: a driver that only probes the device's memory.
-- The accesses to the mapped region, a write of `size` bytes and a read of them, are parameters;
-- `none` is a device that has gone wrong.
pub mod Echo
use linux_qemu.Base.{
  ℕ, List, [], ◌∷◌, Option, none, some, ◌>>=◌, Bool, true, false, not, ◌==◌, u8, u32, if◌then◌else◌,
}
use linux_qemu.Base.Int.{ℤ, pos}

abbrev pub pci_revision_id_simple_tst : ℕ
pci_revision_id_simple_tst = 0x73

module _ {S : Type 0} (write : ℕ → ℕ → ℕ → S → Option S) (read : ℕ → ℕ → S → Option ℕ) where
  -- With the result come the two values that the printk calls show. What pci_enable_device answers
  -- is not looked at.
  unfoldable pub pcisimple_probe : ℕ → S → Option (ℤ × List ℕ × S)
  pcisimple_probe revision s =
      if not (revision == pci_revision_id_simple_tst) then some (pos 1, [], s) else do
        s1 ← write 0 0x12345678 4 s
        v1 ← read 0 4 s1
        s2 ← write 8 0x89 1 s1
        v2 ← read 8 1 s2
        some (pos 0, u32 v1 ∷ u8 v2 ∷ [], s2)

-- Whether the device is enabled; remove disables it.
unfoldable pub pcisimple_remove : Bool → Bool
pcisimple_remove enabled = false
