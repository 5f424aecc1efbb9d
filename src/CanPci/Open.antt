-- ===== src/CanPci/Open.antt =====
-- device_open of the PeliCAN driver (source/linux_driver/pelican_mode/can_pci.c) against the
-- emulated controller of backup/qemu_linux4/can-pci.c.
use linux_qemu.Base.{
  ℕ, ◌+◌, ◌-◌, ◌%◌, ◌<◌, bit_and, bit_or, List, some, ◌≡◌, arith, ◌==◌, if◌then◌else◌, length,
  length-set, set, u8,
}
use linux_qemu.Base.Int.{pos}
use linux_qemu.Bits.{has_bit, and_mask, or_one, and_clear_one, or_step}
use linux_qemu.Frame.{CanFrame}
use linux_qemu.Driver.{CanDev, empty_rings}
use linux_qemu.Driver.Mode.{enter_reset, leave_reset}
use linux_qemu.Pelican.Handlers.{set_up, device_open}
use linux_qemu.CanPci.{CanState, write_buffer, can_mem_write, can_mem_read, guest_bus}
use linux_qemu.CanPci.Registers.{IsValid, mode_bits}

-- The mode register after `|= 1`, `|= 8` and `&= ~1` on the low five bits.
pub set_low : (m : ℕ) → m < 32 → m % 2 ≡ 0 → bit_and 0x1f (u8 (bit_or m 1)) ≡ m + 1
set_low m h even = omega (arith, mode_bits (u8 (bit_or m 1)), or_one m)

pub with_filter : ℕ → ℕ
with_filter m = bit_and 0x1f (u8 (bit_or m 8))

with_filter-odd : (m : ℕ) → m < 32 → m % 2 ≡ 1 → (with_filter m % 2 ≡ 1) × (with_filter m < 32)
unfolding with_filter
with_filter-odd m h odd = omega (arith, mode_bits (u8 (bit_or m 8)), or_step m 8)

pub clear_low : (m : ℕ) → m < 32 → m % 2 ≡ 1 → bit_and 0x1f (bit_and m 254) ≡ m - 1
clear_low m h odd = omega (arith, mode_bits (bit_and m 254), and_clear_one m)

pub filter_size :
    (mask : List ℕ)
    → length mask ≡ 8
    → length (set (set (set (set mask 4 255) 5 255) 6 255) 7 255) ≡ 8
filter_size mask eight = simp length-set eight

module _ (stack : CanFrame) where
  write_mode :
      (val : ℕ) (s : CanState)
      → can_mem_write stack 0 val s ≡ some (record s { mode = bit_and 0x1f val })
  unfolding can_mem_write
  write_mode val s = ground arith

  pub read_mode :
      (s : CanState) → s.memio_size ≡ 128 → (guest_bus stack).read8 (some s) 0 ≡ (s.mode, some s)
  unfolding guest_bus can_mem_read
  read_mode s region = ground arith

  -- The first loop: at most one try.
  enters :
      (s : CanState)
      → IsValid s
      → let m = if s.mode % 2 == 1 then s.mode else s.mode + 1 in
        enter_reset (guest_bus stack) 3 s.mode (some s) ≡ (m, some (record s { mode = m }))
  unfolding enter_reset guest_bus can_mem_write can_mem_read
  enters s v = ground (arith, and_mask 1 s.mode, and_mask 1 (s.mode + 1), set_low s.mode)

  -- The second loop: one try.
  leaves :
      (s : CanState)
      → IsValid s
      → s.mode % 2 ≡ 1
      → leave_reset (guest_bus stack) 3 s.mode (some s)
        ≡ (s.mode - 1, some (record s { mode = s.mode - 1 }))
  unfolding leave_reset guest_bus can_mem_write can_mem_read
  leaves s v odd = ground (arith, and_mask 1 s.mode, and_mask 1 (s.mode - 1), clear_low s.mode)

  -- In reset mode the four mask bytes are opened; the clock and interrupt registers, which the
  -- controller does not have, take no value.
  sets_up :
      (s : CanState)
      → IsValid s
      → s.mode % 2 ≡ 1
      → set_up (guest_bus stack) (some s)
        ≡ some (record s {
          mode = with_filter s.mode;
          code_mask = set (set (set (set s.code_mask 4 255) 5 255) 6 255) 7 255;
        })
  unfolding set_up guest_bus can_mem_write can_mem_read write_buffer with_filter
  sets_up s v odd =
      ground (arith, with_filter-odd s.mode, has_bit 0 (bit_and 0x1f (u8 (bit_or s.mode 8))))

  -- Opening the device on a well-formed controller returns 0 from either mode: the rings are empty
  -- after it, the controller is in operation mode with its acceptance mask open, and nothing has
  -- gone to the backend.
  pub device_open-operates :
      (d : CanDev) (s : CanState)
      → IsValid s
      → (mode : ℕ) × (device_open (guest_bus stack) d (some s) ≡ (
        pos 0,
        empty_rings,
        some (record s {
          mode = mode;
          code_mask = set (set (set (set s.code_mask 4 255) 5 255) 6 255) 7 255;
        }),
      ))
        × (mode % 2 ≡ 0)
        × (mode < 32)
  unfolding device_open
  device_open-operates d s v =
      let m1 : ℕ = if s.mode % 2 == 1 then s.mode else s.mode + 1 in
      let odd1 : m1 % 2 ≡ 1 = ground arith in
      let small1 : m1 < 32 = ground arith in
      let s1 = record s { mode = m1 } in
      let v1 : IsValid s1 = ground arith in
      let mask = set (set (set (set s.code_mask 4 255) 5 255) 6 255) 7 255 in
      let s2 = record s { mode = with_filter m1; code_mask = mask } in
      let odd2 = with_filter-odd m1 small1 odd1 in
      let v2 : IsValid s2 = ground (arith, odd2, filter_size s.code_mask v.mask_size) in
      (
        with_filter m1 - 1,
        ground (
          arith,
          read_mode s,
          read_mode s2,
          enters s v,
          sets_up s1 v1 odd1,
          leaves s2 v2 odd2.0,
          and_mask 1 m1,
          and_mask 1 (with_filter m1 - 1),
          odd2,
        ),
        omega (arith, odd2),
        omega (arith, odd2),
      )
