-- ===== src/TestDriver2.antt =====
-- backup/qemu_linux2/qemu_test/qemu_test_pci.c: a driver that only probes the first CAN device. The
-- accesses to the port and memory regions are parameters; `none` is a device that has gone wrong.
pub mod Echo
use linux_qemu.Base.{
  ℕ, List, [], ◌∷◌, Option, none, some, ◌>>=◌, Bool, true, false, not, ◌==◌, u8, u32, if◌then◌else◌,
}
use linux_qemu.Base.Int.{ℤ, pos, is_zero, eio}

abbrev pub pci_revision_id_canbus : ℕ
pci_revision_id_canbus = 0x73

-- The device is enabled, and its interrupt requested.
pub record Held : Type 0 where
  pub device : Bool
  pub irq : Bool

unfoldable pub irq_handler : Held → Held
irq_handler h = h

module _ {S : Type 0} (io_write : ℕ → ℕ → S → S) (io_read : ℕ → S → ℕ)
    (write : ℕ → ℕ → ℕ → S → Option S) (read : ℕ → ℕ → S → Option ℕ) where
  -- `rc` is what pci_enable_device answers, `irq_refused` what request_irq does. With the result
  -- come the three values that the printk calls show.
  unfoldable pub pcisimple_probe : ℕ → ℤ → Bool → Held → S → Option (ℤ × List ℕ × Held × S)
  pcisimple_probe revision rc irq_refused h s =
      if not (revision == pci_revision_id_canbus)
      then some (pos 1, [], h, s)
      else if not (is_zero rc)
      then some (rc, [], h, s)
      else if irq_refused
      then some (eio, [], record h { device = true }, s)
      else do
        let s1 = io_write 0 0x89 s
        let v1 = io_read 0 s1
        s2 ← write 0 0x12345678 4 s1
        v2 ← read 0 4 s2
        s3 ← write 8 0x89 1 s2
        v3 ← read 8 1 s3
        some (pos 0, u8 v1 ∷ u32 v2 ∷ u8 v3 ∷ [], record { device = true; irq = true }, s3)

unfoldable pub pcisimple_remove : Held → Held
pcisimple_remove h = record { device = false; irq = false }
