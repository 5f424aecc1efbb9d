-- ===== src/Lifecycle.antt =====
-- What the emulated devices hold of QEMU between the call of their init and of their exit function:
-- backup/qemu_linux1/pci_testdev2.c and can-pci.c of backup/qemu_linux2, qemu_linux3 and
-- qemu_linux4. `none` is the release of something that is not held, or a process that exits.
use linux_qemu.Base.{
  Option, none, some, ◌>>=◌, ◌≡◌, Bool, true, false, not, refl, arith, if◌then◌else◌,
}

pub record Held : Type 0 where
  pub mem_base : Bool
  pub memio : Bool
  pub portio : Bool
  pub timer : Bool

abbrev pub nothing : Held
nothing = record { mem_base = false; memio = false; portio = false; timer = false }

-- g_free(s->mem_base)
pub free_memory : Held → Option Held
free_memory h = if h.mem_base then some (record h { mem_base = false }) else none

pub destroy_memio : Held → Option Held
destroy_memio h = if h.memio then some (record h { memio = false }) else none

pub destroy_portio : Held → Option Held
destroy_portio h = if h.portio then some (record h { portio = false }) else none

-- The test device; its regions are called mmio and portio.
pub pci_simple_tst_init : Held → Held
pci_simple_tst_init h = record h { mem_base = true; memio = true; portio = true }

-- The exit functions of the four devices are the same code.
pub can_pci_exit : Held → Option Held
can_pci_exit h = do h1 ← free_memory h; h2 ← destroy_memio h1; destroy_portio h2

-- The first two CAN devices.
unfoldable pub can_pci_init : Bool → Held → Option Held
can_pci_init has_chr h =
    if not has_chr then none else some (record h { mem_base = true; portio = true; memio = true })

-- The emulated controller makes a timer as well.
pub can_pci_init_timer : Bool → Held → Option Held
can_pci_init_timer has_chr h =
    if not has_chr
    then none
    else some (record h { mem_base = true; portio = true; memio = true; timer = true })

-- After an init with a backend, exit gives back all that the first three devices hold. The emulated
-- controller keeps its timer, which serves a state that is gone. A second exit releases what
-- is not held.
pub can_pci_exit-init :
    (can_pci_exit (pci_simple_tst_init nothing) ≡ some nothing)
    × ((can_pci_init true nothing >>= can_pci_exit) ≡ some nothing)
    × ((can_pci_init_timer true nothing >>= can_pci_exit) ≡ some (record nothing { timer = true }))
    × ((h h1 : Held) → can_pci_exit h ≡ some h1 → can_pci_exit h1 ≡ none)
unfolding pci_simple_tst_init can_pci_init can_pci_init_timer can_pci_exit free_memory destroy_memio
    destroy_portio
can_pci_exit-init = (refl, refl, refl, λ h h1 e. ground arith)
