-- ===== src/CanPci.antt =====
-- backup/qemu_linux4/can-pci.c and can-pci.h: the emulated PCI CAN controller. `none` is an access
-- outside an array, undefined in C.
pub mod Payload
pub mod Session
pub mod Open
pub mod Link
pub mod Registers
pub mod Decode
pub mod Mismatch
pub mod Stream
pub mod Interrupt
pub mod Midway
use linux_qemu.Base.{
  ℕ, zero, suc, ◌+◌, ◌-◌, ◌*◌, ◌/◌, ◌^◌, bit_and, bit_or, List, [], ◌∷◌, ◌++◌, Option, none, some,
  ◌>>=◌, Bool, true, false, not, ◌&&◌, u8, ltb, leb, ◌==◌, if◌then◌else◌, length, get_or, set,
}
use linux_qemu.Bits.{has}
use linux_qemu.Frame.{CanFrame, Bus}

abbrev pub pci_mem_size : ℕ
pci_mem_size = 128

-- `irq` is the level of the interrupt line, `chr` the frames that the character backend has been
-- given, oldest first, and `memio_size` the size of the memory region. mem_base, offset and the
-- port region hold nothing that the handlers read. `timer_armed` is whether transmit_timer runs,
-- `xmit_count` the static variable of serial_xmit.
pub record CanState : Type 0 where
  pub mode : ℕ
  pub status : ℕ
  pub command : ℕ
  pub trx_buff : List ℕ
  pub code_mask : List ℕ
  pub rx_buff : List ℕ
  pub tx_buff : List ℕ
  pub irq : Bool
  pub chr : List CanFrame
  pub memio_size : ℕ
  pub timer_armed : Bool
  pub xmit_count : ℕ

unfoldable pub can_hardware_reset : CanState → CanState
can_hardware_reset s = record s { mode = 0x01; status = 0x0c }

-- for (; i < dlc; i++) can->data[i] = buff[offset + i], with `n` rounds left.
pub copy_payload : List ℕ → ℕ → ℕ → ℕ → List ℕ → Option (List ℕ)
copy_payload buff offset zero i bytes = some bytes
copy_payload buff offset (suc n) i bytes =
    let rest = copy_payload buff offset n (u8 (i + 1)) (set bytes i (get_or buff (offset + i) 0)) in
    if ltb i (length bytes) && ltb (offset + i) (length buff) then rest else none

-- for (; i < 8; i++) can->data[i] = 0, with `n` rounds left.
pub clear_payload : ℕ → ℕ → List ℕ → List ℕ
clear_payload zero i bytes = bytes
clear_payload (suc n) i bytes = clear_payload n (u8 (i + 1)) (set bytes i 0)

-- `can` is what the caller's variable holds before the call.
pub buff2frame : List ℕ → CanFrame → Option CanFrame
buff2frame buff can =
    let b0 = get_or buff 0 0 in
    let b1 = get_or buff 1 0 in
    let b2 = get_or buff 2 0 in
    let b3 = get_or buff 3 0 in
    let b4 = get_or buff 4 0 in
    let id = if has b0 0x40 then 2 ^ 30 else can.can_id in
    let dlc = bit_and b0 0x0f in
    let id1 = bit_or (bit_or id (2 ^ 31)) (b1 * 2 ^ 21) in
    let id2 = bit_or (bit_or id1 (b2 * 2 ^ 13)) (b3 * 2 ^ 5) in
    let extended = bit_or id2 (b4 / 2 ^ 3) in
    let standard = bit_or (bit_or id (b1 * 2 ^ 3)) (b2 / 2 ^ 5) in
    let is_extended = has b0 0x80 in
    do
      bytes ← copy_payload buff (if is_extended then 5 else 3) dlc 0 can.bytes
      some (record {
        can_id = if is_extended then extended else standard;
        can_dlc = dlc;
        bytes = clear_payload (8 - dlc) dlc bytes;
      })

-- `case 1` with bit 0 of the value: a frame goes to the backend. `stack` is what the local
-- variable `can`, which nothing initialises, happens to hold.
unfoldable pub transmit : CanFrame → CanState → Option CanState
transmit stack s = do
  can ← buff2frame s.trx_buff stack
  some (record s { tx_buff = s.trx_buff; chr = s.chr ++ can ∷ []; irq = true })

-- `case 16` to `case 28`.
unfoldable pub write_buffer : ℕ → ℕ → CanState → CanState
write_buffer addr val s =
    if has s.mode 0x01
    then (if ltb addr 24 then record s { code_mask = set s.code_mask (addr - 16) (u8 val) } else s)
    else record s { trx_buff = set s.trx_buff (addr - 16) (u8 val) }

unfoldable pub can_mem_write : CanFrame → ℕ → ℕ → CanState → Option CanState
can_mem_write stack addr val s =
    if ltb s.memio_size addr
    then some s
    else if addr == 0
    then some (record s { mode = bit_and 0x1f val })
    else if addr == 1
    then (if has 0x01 val then transmit stack s else some s)
    else if leb 16 addr && leb addr 28
    then some (write_buffer addr val s)
    else if addr == 127
    then some (if val == 0x33 then record s { irq = false } else s)
    else some s

unfoldable pub can_mem_read : ℕ → CanState → ℕ
can_mem_read addr s =
    if ltb s.memio_size addr
    then 0
    else if addr == 0
    then s.mode
    else if addr == 2
    then s.status
    else 0xff

unfoldable pub can_ioport_write : ℕ → ℕ → CanState → CanState
can_ioport_write addr val s = s

unfoldable pub can_ioport_read : ℕ → CanState → ℕ
can_ioport_read addr s = 0

-- The timer's callback: it has run off, and runs again when it is set.
pub serial_xmit : CanState → CanState
serial_xmit s =
    if not (s.xmit_count == 0)
    then record s { irq = true; xmit_count = 0; timer_armed = true }
    else record s { irq = false; xmit_count = 1; timer_armed = false }

-- `has_chr` is whether a backend was given; without one the process exits, which is `none`.
unfoldable pub can_pci_init : Bool → CanState → Option CanState
can_pci_init has_chr s =
    if not has_chr
    then none
    else some (
        can_hardware_reset
          (record s { irq = false; memio_size = pci_mem_size; timer_armed = false }))

-- A guest's accesses to the memory region; the state `none` is a device that has gone wrong.
unfoldable pub guest_bus : CanFrame → Bus (Option CanState)
guest_bus stack = record {
  read8 = λ s a. elim s [ none ↦ (0, none) | some t ↦ (can_mem_read a t, some t) ];
  write8 = λ s a v. s >>= can_mem_write stack a v;
}
