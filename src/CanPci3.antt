-- ===== src/CanPci3.antt =====
-- backup/qemu_linux3/can-pci.c: the second CAN device, a memory of 32 bytes from whose start a
-- frame is sent.
pub mod Trigger
use linux_qemu.Base.{
  ℕ, ◌+◌, List, [], ◌∷◌, ◌++◌, Option, none, some, ◌>>=◌, u8, Bool, false, not, ltb, ◌==◌,
  replicate, take, if◌then◌else◌, drop, get_or,
}
use linux_qemu.Memory
use linux_qemu.Memory.{value_of, bytes_of, store}
use linux_qemu.Frame.{CanFrame, Bus}
use linux_qemu.Display.{display_msg}

pub record CanState : Type 0 where
  pub mem : List ℕ
  pub offset : ℕ
  pub irq : Bool
  pub chr : List (List ℕ)

-- The frame that display_msg is given, the start of the memory: its data goes on to the memory's end.
abbrev pub frame_at_start : List ℕ → CanFrame
frame_at_start mem = record {
  can_id = value_of (take 4 mem);
  can_dlc = get_or mem 4 0;
  bytes = drop 8 mem;
}

-- `if ((addr = 30) && (val == 0x55))` assigns, so that the value alone decides; the address that
-- memcpy uses was computed before. What display_msg prints is lost, but where the frame's length code
-- is too large it reads behind the memory.
unfoldable pub can_mem_write : ℕ → ℕ → ℕ → CanState → Option CanState
can_mem_write addr val size s =
    if ltb 32 addr
    then some s
    else if val == 0x55
    then (do
      printed ← display_msg (frame_at_start s.mem)
      some (record s { chr = s.chr ++ take 16 s.mem ∷ []; offset = 0 }))
    else do mem ← store addr (bytes_of size val) s.mem; some (record s { mem = mem })

unfoldable pub can_mem_read : ℕ → ℕ → List ℕ → CanState → Option ℕ
can_mem_read addr size stale s = Memory.read 32 addr size stale s.mem

unfoldable pub can_ioport_write : ℕ → ℕ → CanState → CanState
can_ioport_write addr val s = s

unfoldable pub can_ioport_read : ℕ → CanState → ℕ
can_ioport_read addr s = 0

unfoldable pub can_pci_init : Bool → CanState → Option CanState
can_pci_init has_chr s =
    if not has_chr then none else some (record s { mem = replicate 32 0; irq = false })

-- A guest's accesses of one byte to the memory region; the state `none` is a device that has gone
-- wrong. `stale` is what the variable that a read fills happens to hold.
unfoldable pub guest_bus : List ℕ → Bus (Option CanState)
guest_bus stale = record {
  read8 = λ s a. elim (s >>= can_mem_read a 1 stale) [ none ↦ (0, none) | some v ↦ (u8 v, s) ];
  write8 = λ s a v. s >>= can_mem_write a v 1;
}
