-- ===== src/CanPci/Decode.antt =====
-- buff2frame of backup/qemu_linux4/can-pci.c against the transmit layout that the PeliCAN driver
-- writes (source/linux_driver/pelican_mode/can_pci.c).
use linux_qemu.Base.{
  ℕ, ◌+◌, ◌*◌, ◌/◌, ◌%◌, ◌^◌, ◌≤◌, bit_or, List, [], ◌∷◌, ◌++◌, some, ◌≡◌, true, ◌⊎◌, inl, inr,
  arith, length, take, length-take, Bool-cases,
}
use linux_qemu.Bits.{zero-or, or_low}
use linux_qemu.Frame.{CanFrame, IsFrame}
use linux_qemu.Pelican.Send.{is_extended, is_remote, info_byte, tx_image}
use linux_qemu.Pelican.Receive.{info_fields, received}
use linux_qemu.CanPci.{buff2frame}
use linux_qemu.CanPci.Payload.{Holds-append, payload_lem}

-- The identifier bytes, joined by `|` above `flags`.
joined_extended :
    (n flags : ℕ)
    → flags % 2 ^ 29 ≡ 0
    → bit_or
        (bit_or
          (bit_or (bit_or flags (n / 2 ^ 21 % 256 * 2 ^ 21)) (n / 2 ^ 13 % 256 * 2 ^ 13))
          (n / 2 ^ 5 % 256 * 2 ^ 5))
        (n % 32 * 8 / 2 ^ 3)
      ≡ flags + n % 2 ^ 29
joined_extended n flags aligned =
    let id1 = flags + n / 2 ^ 21 % 256 * 2 ^ 21 in
    let id2 = id1 + n / 2 ^ 13 % 256 * 2 ^ 13 in
    let id3 = id2 + n / 2 ^ 5 % 256 * 2 ^ 5 in
    let sum : id3 + n % 32 * 8 / 2 ^ 3 ≡ flags + n % 2 ^ 29 = omega arith in
    rw
      (
        or_low 29 flags (n / 2 ^ 21 % 256 * 2 ^ 21) aligned (omega arith),
        or_low 21 id1 (n / 2 ^ 13 % 256 * 2 ^ 13) (omega arith) (omega arith),
        or_low 13 id2 (n / 2 ^ 5 % 256 * 2 ^ 5) (omega arith) (omega arith),
        or_low 5 id3 (n % 32 * 8 / 2 ^ 3) (omega arith) (omega arith),
      )
      sum

joined_standard :
    (n flags : ℕ)
    → flags % 2 ^ 11 ≡ 0
    → bit_or (bit_or flags (n / 8 % 256 * 2 ^ 3)) (n % 8 * 32 / 2 ^ 5) ≡ flags + n % 2 ^ 11
joined_standard n flags aligned =
    let id1 = flags + n / 8 % 256 * 2 ^ 3 in
    let sum : id1 + n % 8 * 32 / 2 ^ 5 ≡ flags + n % 2 ^ 11 = omega arith in
    rw
      (
        or_low 11 flags (n / 8 % 256 * 2 ^ 3) aligned (omega arith),
        or_low 3 id1 (n % 8 * 32 / 2 ^ 5) (omega arith) (omega arith),
      )
      sum

-- Of a buffer that begins with the layout of a frame of at most eight bytes the device makes the
-- frame's flags, identifier, length and zero-padded payload, if the frame is remote or the
-- variable that it fills held the identifier 0.
pub buff2frame-tx_image :
    (f can : CanFrame) (rest : List ℕ)
    → IsFrame f
    → f.can_dlc ≤ 8
    → (is_remote f ≡ true) ⊎ (can.can_id ≡ 0)
    → length can.bytes ≡ 8
    → buff2frame (tx_image f ++ rest) can ≡ some (received f)
unfolding buff2frame tx_image received
buff2frame-tx_image f can rest v short clean eight =
    let n = f.can_id in
    let xs = take f.can_dlc f.bytes in
    let taken = length-take f.can_dlc f.bytes (omega arith) in
    elim (Bool-cases (is_extended f)) [
      | inl e ↦
          let head =
            info_byte f
            ∷ n / 2 ^ 21 % 256
            ∷ n / 2 ^ 13 % 256
            ∷ n / 2 ^ 5 % 256
            ∷ (n % 32 * 8)
            ∷ [] in
          let (mid, copied, cleared) =
            payload_lem (head ++ (xs ++ rest)) 5 xs can.bytes eight (omega arith)
              (Holds-append head xs rest) in
          rw e (
            ground (
              arith,
              e,
              copied,
              cleared,
              taken,
              info_fields f short,
              zero-or (2 ^ 31),
              joined_extended n (2 ^ 31),
              joined_extended n (3 * 2 ^ 30),
            ))
      | inr e ↦
          let head = info_byte f ∷ n / 8 % 256 ∷ (n % 8 * 32) ∷ [] in
          let (mid, copied, cleared) =
            payload_lem (head ++ (xs ++ rest)) 3 xs can.bytes eight (omega arith)
              (Holds-append head xs rest) in
          rw e (
            ground (
              arith,
              e,
              copied,
              cleared,
              taken,
              info_fields f short,
              joined_standard n 0,
              joined_standard n (2 ^ 30),
            ))
    ]
