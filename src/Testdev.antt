-- ===== src/Testdev.antt =====
-- backup/qemu_linux1/pci_testdev2.c: the test device, sixteen bytes of memory behind two regions.
pub mod Laws
use linux_qemu.Base.{ℕ, List, Option, replicate}
use linux_qemu.Memory.{write, read}

abbrev pub pci_mem_size : ℕ
pci_mem_size = 16

pub mem_pci_write : ℕ → ℕ → ℕ → List ℕ → Option (List ℕ)
mem_pci_write addr value size mem = write pci_mem_size addr value size mem

pub mem_pci_read : ℕ → ℕ → List ℕ → List ℕ → Option ℕ
mem_pci_read addr size stale mem = read pci_mem_size addr size stale mem

-- g_malloc0
unfoldable pub pci_simple_tst_init : List ℕ
pci_simple_tst_init = replicate pci_mem_size 0
