-- ===== src/Pelican.antt =====
-- source/linux_driver/pelican_mode/can_pci.c: how the driver moves a frame to and from the
-- controller. `none` is an access outside the eight bytes of `data`, undefined in C.
pub mod Send
pub mod Receive
pub mod Handlers
pub mod Interrupt
pub mod Run
pub mod Drain
pub mod Storm
pub mod Fill
pub mod Race
pub mod Logs
pub mod Threads
pub mod Reopens
pub mod Opens
pub mod Maps
pub mod Calls
use linux_qemu.Base.{
  ℕ, zero, suc, ◌+◌, ◌*◌, ◌/◌, ◌%◌, ◌^◌, bit_and, bit_or, List, Option, none, some, ◌>>=◌, u8, u32,
  ltb, get_elem?, set, if◌then◌else◌,
}
use linux_qemu.Bits.{has}
use linux_qemu.Frame.{CanFrame, zero_frame, Bus}

abbrev pub tx_frame_info_reg : ℕ
tx_frame_info_reg = 16

abbrev pub sja_command_reg : ℕ
sja_command_reg = 1

abbrev pub eff : ℕ
eff = 0x80

abbrev pub rtr : ℕ
rtr = 0x40

module _ {S : Type 0} (bus : Bus S) where
  -- for (; i < dlc; i++, index++) iowrite8(data[i], base + index), with `n` rounds left.
  unfoldable pub send_data : List ℕ → ℕ → ℕ → ℕ → S → Option S
  send_data bytes zero i index s = some s
  send_data bytes (suc n) i index s = elim (get_elem? bytes i) [
    | none ↦ none
    | some b ↦ send_data bytes n (u8 (i + 1)) (u8 (index + 1)) (bus.write8 s index b)
  ]

  unfoldable pub send_message : CanFrame → S → Option S
  send_message f s =
      let dlc = u8 (bit_or 0 f.can_dlc) in
      let temp = if has f.can_id (2 ^ 30) then u8 (bit_or dlc rtr) else dlc in
      let extended = do
        let s1 = bus.write8 s 16 (u8 (bit_or temp eff))
        let s2 = bus.write8 s1 17 (bit_and (f.can_id / 2 ^ 21) 0xff)
        let s3 = bus.write8 s2 18 (bit_and (f.can_id / 2 ^ 13) 0xff)
        let s4 = bus.write8 s3 19 (bit_and (f.can_id / 2 ^ 5) 0xff)
        let s5 = bus.write8 s4 20 (u8 (bit_and f.can_id 0x1f * 2 ^ 3))
        send_data f.bytes f.can_dlc 0 21 s5
      in let standard = do
        let s1 = bus.write8 s 16 temp
        let s2 = bus.write8 s1 17 (bit_and (f.can_id / 2 ^ 3) 0xff)
        let s3 = bus.write8 s2 18 (u8 (bit_and f.can_id 0x03 * 2 ^ 5))
        send_data f.bytes f.can_dlc 0 19 s3
        in do
          s' ← if has f.can_id (2 ^ 31) then extended else standard
          some (bus.write8 s' sja_command_reg 0x01)

  -- for (; i < dlc; i++) data[i] = ioread8(base + index++), with `n` rounds left.
  unfoldable pub receive_data : ℕ → ℕ → ℕ → List ℕ → S → Option (List ℕ × S)
  receive_data zero i index bytes s = some (bytes, s)
  receive_data (suc n) i index bytes s =
      let (temp, s') = bus.read8 s index in
      let rest = receive_data n (u8 (i + 1)) (u8 (index + 1)) (set bytes i temp) s' in
      if ltb i 8 then rest else none

  -- The identifier bytes of an extended frame, `id` being the flags; the next index comes with it.
  pub extended_id : S → ℕ → ℕ × ℕ × S
  extended_id s id =
      let (b1, s1) = bus.read8 s 17 in
      let (b2, s2) = bus.read8 s1 18 in
      let (b3, s3) = bus.read8 s2 19 in
      let (b4, s4) = bus.read8 s3 20 in
      let id1 = bit_or id (bit_and (b1 * 2 ^ 21) (0xff * 2 ^ 21)) in
      let id2 = bit_or id1 (bit_and (b2 * 2 ^ 13) (0xff * 2 ^ 13)) in
      let id3 = bit_or id2 (bit_and (b3 * 2 ^ 5) (0xff * 2 ^ 5)) in
      (bit_or id3 (bit_and (b4 / 2 ^ 3) 0x1f), 21, s4)

  unfoldable pub standard_id : S → ℕ → ℕ × ℕ × S
  standard_id s id =
      let (b1, s1) = bus.read8 s 17 in
      let (b2, s2) = bus.read8 s1 18 in
      let id1 = bit_or id (bit_and (b1 * 2 ^ 3) (0xff * 2 ^ 3)) in
      (bit_or id1 (bit_and (b2 / 2 ^ 5) 0x07), 19, s2)

  unfoldable pub receive_message : S → Option (CanFrame × S)
  receive_message s =
      let (temp, s1) = bus.read8 s 16 in
      let id_rtr = if has temp (2 ^ 6) then bit_or 0 (2 ^ 30) else 0 in
      let dlc = bit_and temp 0x0f in
      let extended = extended_id s1 (bit_or id_rtr (2 ^ 31)) in
      let standard = standard_id s1 id_rtr in
      let (id, index, s2) = if has temp (2 ^ 7) then extended else standard in
      do
        (bytes, s3) ← receive_data dlc 0 index zero_frame.bytes s2
        some (
          record { can_id = id; can_dlc = dlc; bytes = bytes },
          bus.write8 s3 sja_command_reg 0x04,
        )
