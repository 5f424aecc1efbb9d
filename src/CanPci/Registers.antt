-- ===== src/CanPci/Registers.antt =====
-- The registers of the emulated controller of backup/qemu_linux4/can-pci.c under every guest
-- access: what keeps them well formed, and the one access that leaves its arrays.
use linux_qemu.Base.{
  ℕ, ◌-◌, ◌%◌, ◌≤◌, ◌<◌, bit_and, List, none, ◌≡◌, ◌≢◌, ◌⊎◌, inl, inr, arith, ◌==◌, Ends, length,
  length-set, get_or, u8, Option-cases, ◌∙◌, if◌then◌else◌,
}
use linux_qemu.Bits.{has, and_mask, and_comm}
use linux_qemu.Frame.{CanFrame}
use linux_qemu.CanPci.{CanState, copy_payload, buff2frame, transmit, write_buffer, can_mem_write}
use linux_qemu.CanPci.Payload.{copy_payload-ends, copy_payload-fault, length-clear_payload}

pub record IsValid (s : CanState) : Type 0 where
  pub five_bits : s.mode < 32
  pub trx_size : length s.trx_buff ≡ 13
  pub mask_size : length s.code_mask ≡ 8
  pub tx_size : length s.tx_buff ≡ 13
  pub region : s.memio_size ≡ 128

-- The length code in the transmit buffer.
abbrev pub length_code : CanState → ℕ
length_code s = get_or s.trx_buff 0 0 % 16

-- `0x01 & val` and `0x1f & val`.
pub has_one : (val : ℕ) → has 1 val ≡ (val % 2 == 1)
unfolding has
has_one val = rw (and_comm, and_mask 1 val) (ground arith)

pub mode_bits : (val : ℕ) → bit_and 0x1f val ≡ val % 32
mode_bits val = rw and_comm (and_mask 5 val)

buff2frame-ends :
    (buff : List ℕ) (can : CanFrame)
    → length buff ≡ 13
    → length can.bytes ≡ 8
    → get_or buff 0 0 % 16 ≤ 8
    → Ends (buff2frame buff can) (λ f. (length f.bytes ≡ 8) × (f.can_dlc ≡ get_or buff 0 0 % 16))
unfolding buff2frame
buff2frame-ends buff can room eight short =
    let b0 : ℕ = get_or buff 0 0 in
    let code = and_mask 4 b0 in
    let offset : ℕ = if has b0 0x80 then 5 else 3 in
    let offset_le : offset ≤ 5 = ground arith in
    let copied =
      copy_payload-ends buff offset (bit_and b0 15) 0 can.bytes (omega arith) (omega arith)
        (omega arith) in
    elim (Option-cases (copy_payload buff offset (bit_and b0 15) 0 can.bytes)) [
      | inl e ↦ absurd (rw e at copied)
      | inr (bytes, e) ↦
          let same = rw e at copied in
          rw e (length-clear_payload (8 - bit_and b0 15) (bit_and b0 15) bytes ∙ same ∙ eight, code)
    ]

buff2frame-fault :
    (buff : List ℕ) (can : CanFrame)
    → length can.bytes ≡ 8
    → 8 < get_or buff 0 0 % 16
    → buff2frame buff can ≡ none
unfolding buff2frame
buff2frame-fault buff can eight long =
    let b0 : ℕ = get_or buff 0 0 in
    let code = and_mask 4 b0 in
    let offset : ℕ = if has b0 0x80 then 5 else 3 in
    rw (
      copy_payload-fault buff offset (bit_and b0 15) 0 can.bytes (omega arith) (omega arith)
        (omega arith))

-- On well-formed registers, every write of the guest ends and leaves them well formed, unless it
-- asks for the transmission of a length code above eight. The variable that the frame is decoded
-- into has eight bytes of payload.
pub can_mem_write-IsValid :
    (stack : CanFrame) (addr val : ℕ) (s : CanState)
    → IsValid s
    → length stack.bytes ≡ 8
    → (addr ≢ 1) ⊎ (val % 2 ≡ 0) ⊎ (length_code s ≤ 8)
    → Ends (can_mem_write stack addr val s) IsValid
unfolding can_mem_write transmit write_buffer
can_mem_write-IsValid stack addr val s v eight allowed = ground (
  arith,
  has_one val,
  mode_bits val,
  length-set s.code_mask (addr - 16) (u8 val),
  length-set s.trx_buff (addr - 16) (u8 val),
  buff2frame-ends s.trx_buff stack,
)

-- A request to transmit with a length code above eight makes buff2frame write behind the payload
-- of its frame, whatever else the buffer holds.
pub can_mem_write-overflow :
    (stack : CanFrame) (val : ℕ) (s : CanState)
    → s.memio_size ≡ 128
    → length stack.bytes ≡ 8
    → val % 2 ≡ 1
    → 8 < length_code s
    → can_mem_write stack 1 val s ≡ none
unfolding can_mem_write transmit
can_mem_write-overflow stack val s region eight odd long =
    ground (arith, has_one val, buff2frame-fault s.trx_buff stack eight)
