-- ===== src/Pelican/Receive.antt =====
-- What receive_message of source/linux_driver/pelican_mode/can_pci.c makes of the receive buffer,
-- and that it gives back the frame that send_message laid out.
use linux_qemu.Base.{
  ℕ, suc, ◌+◌, ◌-◌, ◌*◌, ◌/◌, ◌%◌, ◌^◌, ◌≤◌, ◌<◌, bit_and, List, [], ◌∷◌, ◌++◌, some, ◌≡◌, false,
  inl, inr, arith, if◌then◌else◌, length, set-append, length-append, append_assoc, append-nil, ap,
  replicate, take, length-take, length-replicate, Bool-cases,
}
use linux_qemu.Bits.{has, has_bit, and_mask, and_shl, or_low}
use linux_qemu.Frame.{CanFrame, IsFrame, Bus, Shows, zero_frame}
use linux_qemu.Pelican.{receive_data, extended_id, standard_id, receive_message}
use linux_qemu.Pelican.Send.{is_extended, is_remote, info_byte, tx_image}

-- What arrives of a frame: the flags, the identifier's 29 or 11 bits, and the payload up to the
-- length code, followed by zeros.
abbrev pub received_id : CanFrame → ℕ
received_id f =
    (if is_remote f then 2 ^ 30 else 0)
    + (if is_extended f then 2 ^ 31 + f.can_id % 2 ^ 29 else f.can_id % 2 ^ 11)

unfoldable pub received : CanFrame → CanFrame
received f = record {
  can_id = received_id f;
  can_dlc = f.can_dlc;
  bytes = take f.can_dlc f.bytes ++ replicate (8 - f.can_dlc) 0;
}

pub received-eight :
    (f : CanFrame) → length f.bytes ≡ 8 → f.can_dlc ≤ 8 → length (received f).bytes ≡ 8
unfolding received
received-eight f eight short = omega (
  arith,
  length-append (take f.can_dlc f.bytes) (replicate (8 - f.can_dlc) 0),
  length-take f.can_dlc f.bytes,
  eight,
  length-replicate {A = ℕ} (8 - f.can_dlc) 0,
)

-- The field of a received byte: `(b << k) & (0xff << k)`.
pub field : (k b : ℕ) → b < 256 → bit_and (b * 2 ^ k) (255 * 2 ^ k) ≡ b * 2 ^ k
field k b h = ground (arith, and_shl k b 255, and_mask 8 b)

-- The frame information byte is taken apart as it was put together.
pub info_fields :
    (f : CanFrame)
    → f.can_dlc ≤ 8
    → (has (info_byte f) (2 ^ 6) ≡ is_remote f)
      × (has (info_byte f) (2 ^ 7) ≡ is_extended f)
      × (bit_and (info_byte f) 15 ≡ f.can_dlc)
info_fields f short = (
  ground (arith, has_bit 6 (info_byte f)),
  ground (arith, has_bit 7 (info_byte f)),
  ground (arith, and_mask 4 (info_byte f)),
)

module _ {S : Type 0} (bus : Bus S) where
  receive_data-fills :
      (xs pre : List ℕ) (m index : ℕ) (s : S)
      → length pre + length xs ≤ 8
      → index + length xs < 256
      → Shows bus s index xs
      → receive_data bus (length xs) (length pre) index (pre ++ replicate (length xs + m) 0) s
        ≡ some (pre ++ xs ++ replicate m 0, s)
  unfolding receive_data
  receive_data-fills [] pre m index s fits room shows =
      let none_left : replicate {A = ℕ} (0 + m) 0 ≡ replicate m 0 =
        ap (λ k. replicate k 0) {y = m} (omega arith) in
      rw (none_left, append-nil)
  receive_data-fills (x ∷ xs) pre m index s fits room shows =
      let one_more : replicate {A = ℕ} (suc (length xs) + m) 0 ≡ 0 ∷ replicate (length xs + m) 0 =
        ap (λ k. replicate k 0) {y = suc (length xs + m)} (omega arith) in
      let at_end : length (pre ++ x ∷ []) ≡ length pre + 1 = length-append pre (x ∷ []) in
      ground (
        arith,
        one_more,
        at_end,
        shows.0,
        set-append pre 0 x (replicate (length xs + m) 0),
        append_assoc pre (x ∷ []) (replicate (length xs + m) 0),
        append_assoc pre (x ∷ []) xs,
        receive_data-fills xs (pre ++ x ∷ []) m (index + 1) s (omega arith) (omega arith) shows.1,
      )

  -- The identifier bytes that send_message writes are put together again.
  extended_id-eq :
      (n : ℕ) (s : S) (flags : ℕ)
      → flags % 2 ^ 29 ≡ 0
      → Shows bus s 17 (n / 2 ^ 21 % 256 ∷ n / 2 ^ 13 % 256 ∷ n / 2 ^ 5 % 256 ∷ (n % 32 * 8) ∷ [])
      → extended_id bus s flags ≡ (flags + n % 2 ^ 29, 21, s)
  unfolding extended_id
  extended_id-eq n s flags aligned shows =
      let b1 = n / 2 ^ 21 % 256 in
      let b2 = n / 2 ^ 13 % 256 in
      let b3 = n / 2 ^ 5 % 256 in
      let b4 = n % 32 * 8 in
      let id1 = flags + b1 * 2 ^ 21 in
      let id2 = id1 + b2 * 2 ^ 13 in
      let id3 = id2 + b3 * 2 ^ 5 in
      let sum : id3 + b4 / 2 ^ 3 % 32 ≡ flags + n % 2 ^ 29 = omega arith in
      ground (
        arith,
        field 21 b1 (omega arith),
        field 13 b2 (omega arith),
        field 5 b3 (omega arith),
        and_mask 5 (b4 / 2 ^ 3),
        or_low 29 flags (b1 * 2 ^ 21) aligned (omega arith),
        or_low 21 id1 (b2 * 2 ^ 13) (omega arith) (omega arith),
        or_low 13 id2 (b3 * 2 ^ 5) (omega arith) (omega arith),
        or_low 5 id3 (b4 / 2 ^ 3 % 32) (omega arith) (omega arith),
      )

  standard_id-eq :
      (n : ℕ) (s : S) (flags : ℕ)
      → flags % 2 ^ 11 ≡ 0
      → Shows bus s 17 (n / 8 % 256 ∷ (n % 8 * 32) ∷ [])
      → standard_id bus s flags ≡ (flags + n % 2 ^ 11, 19, s)
  unfolding standard_id
  standard_id-eq n s flags aligned shows =
      let b1 = n / 8 % 256 in
      let b2 = n % 8 * 32 in
      let id1 = flags + b1 * 2 ^ 3 in
      let sum : id1 + b2 / 2 ^ 5 % 8 ≡ flags + n % 2 ^ 11 = omega arith in
      ground (
        arith,
        field 3 b1 (omega arith),
        and_mask 3 (b2 / 2 ^ 5),
        or_low 11 flags (b1 * 2 ^ 3) aligned (omega arith),
        or_low 3 id1 (b2 / 2 ^ 5 % 8) (omega arith) (omega arith),
      )

  -- The payload loop fills the zeroed payload from the front.
  pub payload_filled :
      (f : CanFrame) (index : ℕ) (s : S)
      → length f.bytes ≡ 8
      → f.can_dlc ≤ 8
      → index + 8 < 256
      → Shows bus s index (take f.can_dlc f.bytes)
      → receive_data bus f.can_dlc 0 index zero_frame.bytes s
        ≡ some (take f.can_dlc f.bytes ++ replicate (8 - f.can_dlc) 0, s)
  payload_filled f index s eight short room shows =
      let taken = length-take f.can_dlc f.bytes (omega arith) in
      let all : f.can_dlc + (8 - f.can_dlc) ≡ 8 = omega arith in
      rw (taken, all) at
        (receive_data-fills (take f.can_dlc f.bytes) [] (8 - f.can_dlc) index s (omega arith)
          (omega arith) shows)

  -- From a receive buffer that holds the layout of a frame of at most eight bytes the driver
  -- reads the frame's flags, its identifier, its length and its payload padded with zeros, and
  -- then releases the buffer.
  pub receive_message-tx_image :
      (f : CanFrame) (s : S)
      → IsFrame f
      → f.can_dlc ≤ 8
      → Shows bus s 16 (tx_image f)
      → receive_message bus s ≡ some (received f, bus.write8 s 1 4)
  unfolding receive_message tx_image received
  receive_message-tx_image f s v short shows = elim (Bool-cases (is_extended f)) [
    | inl e ↦
        let sh = rw e at shows in
        ground (
          arith,
          e,
          sh.0,
          info_fields f short,
          extended_id-eq f.can_id s (2 ^ 31),
          extended_id-eq f.can_id s (3 * 2 ^ 30),
          payload_filled f 21 s v.eight short (omega arith) (sh.1.1.1.1.1),
        )
    | inr e ↦
        let sh = rw e at shows in
        ground (
          arith,
          e,
          sh.0,
          info_fields f short,
          standard_id-eq f.can_id s 0,
          standard_id-eq f.can_id s (2 ^ 30),
          payload_filled f 19 s v.eight short (omega arith) sh.1.1.1,
        )
  ]

-- A frame in which nothing is set that its format does not carry: bit 29 of an extended
-- identifier, bits 11 to 29 of a standard one, and the payload past the length code.
pub record IsCanonical (f : CanFrame) : Type 0 where
  pub no_error_flag : f.can_id / 2 ^ 29 % 2 ≡ 0
  pub eleven_bits : is_extended f ≡ false → f.can_id % 2 ^ 29 < 2 ^ 11
  pub padded : f.bytes ≡ take f.can_dlc f.bytes ++ replicate (8 - f.can_dlc) 0

pub received_self : (f : CanFrame) → IsFrame f → IsCanonical f → received f ≡ f
unfolding received
received_self f v c = ground (arith, c.eleven_bits, c.padded)
