-- ===== src/Basic/Transfer.antt =====
-- The frame layout of the BasicCAN driver, source/linux_driver/basiccan_mode/can_pci.c: what
-- send_message writes, and that receive_message reads the same layout back.
use linux_qemu.Base.{
  ℕ, ◌+◌, ◌-◌, ◌*◌, ◌/◌, ◌%◌, ◌^◌, ◌≤◌, ◌<◌, bit_and, bit_or, List, [], ◌∷◌, ◌++◌, some, ◌≡◌, refl,
  arith, u8, u32, if◌then◌else◌, take, replicate,
}
use linux_qemu.Bits.{has, has_bit, and_mask, and_shl, or_low, or_high}
use linux_qemu.Frame.{CanFrame, IsFrame, Bus, Shows, write_all}
use linux_qemu.Pelican.Send.{is_remote, send_data-write_all}
use linux_qemu.Pelican.Receive.{field, payload_filled}
use linux_qemu.Basic.{send_message, receive_message}

-- The upper eight of eleven identifier bits; the lower three, the remote flag and the length.
abbrev pub id_byte : CanFrame → ℕ
id_byte f = f.can_id / 8 % 256

abbrev pub flag_byte : CanFrame → ℕ
flag_byte f = f.can_id % 8 * 32 + (if is_remote f then 16 else 0) + f.can_dlc

unfoldable pub tx_image : CanFrame → List ℕ
tx_image f = id_byte f ∷ flag_byte f ∷ take f.can_dlc f.bytes

-- What arrives of a frame: eleven identifier bits, the remote flag, the length and the payload
-- up to it, followed by zeros.
unfoldable pub received : CanFrame → CanFrame
received f = record {
  can_id = f.can_id % 2 ^ 11 + (if is_remote f then 2 ^ 30 else 0);
  can_dlc = f.can_dlc;
  bytes = take f.can_dlc f.bytes ++ replicate (8 - f.can_dlc) 0;
}

-- `(id << 5) & 0xe0`, the shift being of 32 bits.
id_low : (id : ℕ) → bit_and (u32 (id * 2 ^ 5)) 0xe0 ≡ id % 8 * 32
id_low id =
    let q = u32 (id * 2 ^ 5) / 32 in
    let whole : u32 (id * 2 ^ 5) ≡ q * 2 ^ 5 = omega arith in
    rw (whole, and_shl 5 q 7, and_mask 3 q) (omega arith)

-- The stores into the uint8_t `temp` lose nothing.
flag_remote : (x : ℕ) → x % 32 ≡ 0 → x < 256 → u8 (bit_or x 16) ≡ x + 16
flag_remote x aligned fits = omega (arith, or_low 5 x 16 aligned (omega arith))

flag_length : (x d : ℕ) → x % 16 ≡ 0 → x < 256 → d ≤ 8 → u8 (bit_or x (bit_and d 15)) ≡ x + d
flag_length x d aligned fits short =
    let code : bit_and d 15 ≡ d = omega (arith, and_mask 4 d) in
    rw code (omega (arith, or_low 4 x d aligned (omega arith)))

flag_fields :
    (f : CanFrame)
    → f.can_dlc ≤ 8
    → (has (flag_byte f) 16 ≡ is_remote f)
      × (bit_and (flag_byte f) 15 ≡ f.can_dlc)
      × (bit_and (flag_byte f / 2 ^ 5) 7 ≡ f.can_id % 8)
flag_fields f short = (
  ground (arith, has_bit 4 (flag_byte f)),
  ground (arith, and_mask 4 (flag_byte f)),
  ground (arith, and_mask 3 (flag_byte f / 2 ^ 5)),
)

module _ {S : Type 0} (bus : Bus S) where
  -- A frame of at most eight bytes is written in the BasicCAN transmit layout from address 10,
  -- and a transmission is requested after it.
  pub send_message-basic_image :
      (f : CanFrame) (s : S)
      → IsFrame f
      → f.can_dlc ≤ 8
      → send_message bus f s ≡ some (bus.write8 (write_all bus 10 (tx_image f) s) 1 1)
  unfolding send_message tx_image
  send_message-basic_image f s v short = ground (
    arith,
    has_bit 30 f.can_id,
    and_mask 8 (f.can_id / 2 ^ 3),
    id_low f.can_id,
    flag_remote (f.can_id % 8 * 32),
    flag_length (f.can_id % 8 * 32) f.can_dlc,
    flag_length (f.can_id % 8 * 32 + 16) f.can_dlc,
    send_data-write_all bus f.bytes f.can_dlc 0 12
        (write_all bus 10 (id_byte f ∷ flag_byte f ∷ []) s),
  )

  -- From a receive buffer that holds the layout of a frame of at most eight bytes the driver reads
  -- the frame's low eleven identifier bits, remote flag, length and payload, padded with zeros, and
  -- then releases the buffer.
  pub receive_message-basic_image :
      (f : CanFrame) (s : S)
      → IsFrame f
      → f.can_dlc ≤ 8
      → Shows bus s 20 (tx_image f)
      → receive_message bus s ≡ some (received f, bus.write8 s 1 4)
  unfolding receive_message tx_image received
  receive_message-basic_image f s v short shows =
      let id1 = id_byte f * 2 ^ 3 in
      let joined : id1 + f.can_id % 8 ≡ f.can_id % 2 ^ 11 = omega arith in
      ground (
        arith,
        flag_fields f short,
        field 3 (id_byte f) (omega arith),
        or_low 3 id1 (f.can_id % 8) (omega arith) (omega arith),
        or_high 30 (2 ^ 30) (f.can_id % 2 ^ 11) refl (omega arith),
        payload_filled bus f 22 s v.eight short (omega arith) shows.1.1,
      )
