-- ===== src/Pelican/Send.antt =====
-- What send_message of source/linux_driver/pelican_mode/can_pci.c writes to the controller.
use linux_qemu.Base.{
  ℕ, zero, suc, ◌+◌, ◌-◌, ◌*◌, ◌/◌, ◌%◌, ◌^◌, ◌≤◌, ◌<◌, bit_or, List, [], ◌∷◌, ◌++◌, none, some,
  ◌≡◌, refl, Bool, true, false, ◌⊎◌, inl, inr, arith, u8, ltb, ◌==◌, if◌then◌else◌, length, get_or,
  get_elem?-eq-get_or, get_elem?-out, take, drop, drop-step, Bool-cases,
}
use linux_qemu.Bits.{has, has_bit, and_mask, zero-or, or_high}
use linux_qemu.Frame.{CanFrame, IsFrame, Bus, write_all}
use linux_qemu.Pelican.{send_data, send_message}

-- An identifier's flags and number, by arithmetic.
abbrev pub is_extended : CanFrame → Bool
is_extended f = f.can_id / 2 ^ 31 % 2 == 1

abbrev pub is_remote : CanFrame → Bool
is_remote f = f.can_id / 2 ^ 30 % 2 == 1

-- The transmit buffer of an SJA1000 in PeliCAN mode, from address 16: frame information, then the
-- identifier from its top bit on, left-aligned in two or four bytes, then the payload.
abbrev pub info_byte : CanFrame → ℕ
info_byte f = (if is_extended f then 128 else 0) + (if is_remote f then 64 else 0) + f.can_dlc

abbrev pub id_bytes : CanFrame → List ℕ
id_bytes f =
    if is_extended f
    then (f.can_id / 2 ^ 21 % 256
        ∷ f.can_id / 2 ^ 13 % 256
        ∷ f.can_id / 2 ^ 5 % 256
        ∷ (f.can_id % 32 * 8)
        ∷ [])
    else (f.can_id / 8 % 256 ∷ (f.can_id % 8 * 32) ∷ [])

unfoldable pub tx_image : CanFrame → List ℕ
tx_image f = info_byte f ∷ id_bytes f ++ take f.can_dlc f.bytes

-- The stores into the uint8_t `temp` lose nothing.
info_plain : (d : ℕ) → d ≤ 8 → u8 (bit_or 0 d) ≡ d
info_plain d h = omega (arith, zero-or d)

info_remote : (d : ℕ) → d ≤ 8 → u8 (bit_or d 64) ≡ 64 + d
info_remote d h = omega (arith, or_high 6 64 d refl (omega arith))

info_extended : (t : ℕ) → t < 128 → u8 (bit_or t 128) ≡ 128 + t
info_extended t h = omega (arith, or_high 7 128 t refl h)

module _ {S : Type 0} (bus : Bus S) where
  -- Inside the payload the loop is consecutive writes.
  pub send_data-write_all :
      (bytes : List ℕ) (n i index : ℕ) (s : S)
      → i + n ≤ length bytes
      → length bytes ≤ 8
      → index + n < 256
      → send_data bus bytes n i index s ≡ some (write_all bus index (take n (drop i bytes)) s)
  unfolding send_data
  send_data-write_all bytes zero i index s fits eight room = refl
  send_data-write_all bytes (suc n) i index s fits eight room =
      let i_next : u8 (i + 1) ≡ i + 1 = omega arith in
      let index_next : u8 (index + 1) ≡ index + 1 = omega arith in
      rw
        (
          get_elem?-eq-get_or bytes i 0 (omega arith),
          send_data,
          drop-step bytes i 0 (omega arith),
          i_next,
          index_next,
        )
        (send_data-write_all bytes n (i + 1) (index + 1) (bus.write8 s index (get_or bytes i 0))
          (omega arith) eight (omega arith))

  -- Past the payload it reads outside the array.
  pub send_data-fault :
      (bytes : List ℕ) (n i index : ℕ) (s : S)
      → i ≤ length bytes
      → length bytes < i + n
      → length bytes ≤ 8
      → send_data bus bytes n i index s ≡ none
  unfolding send_data
  send_data-fault bytes zero i index s i_in past eight = absurd (omega arith)
  send_data-fault bytes (suc n) i index s i_in past eight =
      elim (Bool-cases (ltb i (length bytes))) [
        | inl inside ↦
            let lt : i < length bytes = ground arith in
            let i_next : u8 (i + 1) ≡ i + 1 = omega arith in
            rw (get_elem?-eq-get_or bytes i 0 lt, send_data, i_next)
              (send_data-fault bytes n (i + 1) (u8 (index + 1))
                (bus.write8 s index (get_or bytes i 0)) (omega arith) (omega arith) eight)
        | inr outside ↦ rw (get_elem?-out bytes i (ground arith), send_data)
      ]

  -- A frame of at most eight bytes is written in the PeliCAN transmit layout, and a transmission
  -- is requested after it; of a standard identifier bit 2 has to be clear.
  pub send_message-tx_image :
      (f : CanFrame) (s : S)
      → IsFrame f
      → f.can_dlc ≤ 8
      → (is_extended f ≡ true) ⊎ (f.can_id / 4 % 2 ≡ 0)
      → send_message bus f s ≡ some (bus.write8 (write_all bus 16 (tx_image f) s) 1 1)
  unfolding send_message tx_image
  send_message-tx_image f s v short id_ok = ground (
    arith,
    has_bit 31 f.can_id,
    has_bit 30 f.can_id,
    info_plain f.can_dlc,
    info_remote f.can_dlc,
    info_extended f.can_dlc,
    info_extended (64 + f.can_dlc),
    and_mask 8 (f.can_id / 2 ^ 21),
    and_mask 8 (f.can_id / 2 ^ 13),
    and_mask 8 (f.can_id / 2 ^ 5),
    and_mask 8 (f.can_id / 2 ^ 3),
    and_mask 5 f.can_id,
    and_mask 2 f.can_id,
    send_data-write_all f.bytes f.can_dlc 0 21 (write_all bus 16 (info_byte f ∷ id_bytes f) s),
    send_data-write_all f.bytes f.can_dlc 0 19 (write_all bus 16 (info_byte f ∷ id_bytes f) s),
  )

  -- Of a standard frame of at most eight bytes bit 2 of the identifier never reaches the
  -- controller: with the bit set it is sent as with the bit clear.
  pub send_message-loses_bit_two :
      (f : CanFrame) (s : S)
      → IsFrame f
      → f.can_dlc ≤ 8
      → is_extended f ≡ false
      → f.can_id / 4 % 2 ≡ 1
      → send_message bus f s ≡ send_message bus (record f { can_id = f.can_id - 4 }) s
  unfolding send_message
  send_message-loses_bit_two f s v short standard bit_two = ground (
    arith,
    has_bit 31 f.can_id,
    has_bit 30 f.can_id,
    has_bit 31 (f.can_id - 4),
    has_bit 30 (f.can_id - 4),
    and_mask 8 (f.can_id / 2 ^ 3),
    and_mask 8 ((f.can_id - 4) / 2 ^ 3),
    and_mask 2 f.can_id,
    and_mask 2 (f.can_id - 4),
  )

  -- A length code above eight makes the loop read past the eight bytes of the payload.
  pub send_message-fault :
      (f : CanFrame) (s : S) → length f.bytes ≡ 8 → 8 < f.can_dlc → send_message bus f s ≡ none
  unfolding send_message
  send_message-fault f s eight long = elim (Bool-cases (has f.can_id (2 ^ 31))) [
    | inl e ↦
        rw (e, send_data-fault f.bytes f.can_dlc 0 21 _ (omega arith) (omega arith) (omega arith))
    | inr e ↦
        rw (e, send_data-fault f.bytes f.can_dlc 0 19 _ (omega arith) (omega arith) (omega arith))
  ]
