-- ===== src/CanPci2.antt =====
-- backup/qemu_linux2/can-pci.c: the first CAN device, a memory of sixteen bytes and a port that
-- sends a fixed text to the backend.
use linux_qemu.Base.{
  ℕ, List, [], ◌∷◌, ◌++◌, Option, none, some, ◌>>=◌, Bool, false, not, replicate, if◌then◌else◌,
}
use linux_qemu.Memory

-- `chr` is what the backend has been given, call by call.
pub record CanState : Type 0 where
  pub mem : List ℕ
  pub irq : Bool
  pub chr : List (List ℕ)

-- "ttt"
abbrev pub whatever : List ℕ
whatever = b't' ∷ b't' ∷ b't' ∷ []

unfoldable pub can_ioport_write : ℕ → ℕ → CanState → CanState
can_ioport_write addr val s = record s { chr = s.chr ++ whatever ∷ [] }

unfoldable pub can_ioport_read : ℕ → CanState → ℕ
can_ioport_read addr s = 0

unfoldable pub can_mem_write : ℕ → ℕ → ℕ → CanState → Option CanState
can_mem_write addr val size s = do
  mem ← Memory.write 16 addr val size s.mem
  some (record s { mem = mem })

unfoldable pub can_mem_read : ℕ → ℕ → List ℕ → CanState → Option ℕ
can_mem_read addr size stale s = Memory.read 16 addr size stale s.mem

-- `none` is exit(1), for want of a backend.
unfoldable pub can_pci_init : Bool → CanState → Option CanState
can_pci_init has_chr s =
    if not has_chr then none else some (record s { mem = replicate 16 0; irq = false })
