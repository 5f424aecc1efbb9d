-- ===== src/TestDriver4/Open.antt =====
-- device_open of backup/qemu_linux4/qemu_test/qemu_test_pci.c against the emulated controller of
-- backup/qemu_linux4/can-pci.c.
use linux_qemu.Base.{ℕ, suc, ◌+◌, ◌-◌, ◌%◌, some, ◌≡◌, arith, ◌==◌, if◌then◌else◌, replicate}
use linux_qemu.Base.Int.{pos}
use linux_qemu.Bits.{and_mask}
use linux_qemu.Frame.{CanFrame, zero_frame}
use linux_qemu.CanPci.{CanState, can_mem_write, can_mem_read, guest_bus}
use linux_qemu.CanPci.Registers.{IsValid}
use linux_qemu.CanPci.Open.{set_low, clear_low, read_mode}
use linux_qemu.TestDriver4.{CanDev, enter_reset, leave_reset, device_open}

module _ (stack : CanFrame) where
  -- The first loop leaves two tries, or three.
  enters :
      (s : CanState)
      → IsValid s
      → let m = if s.mode % 2 == 1 then s.mode else s.mode + 1 in
        enter_reset (guest_bus stack) 3 s.mode (some s)
        ≡ (if s.mode % 2 == 1 then 3 else 2, m, some (record s { mode = m }))
  unfolding enter_reset guest_bus can_mem_write can_mem_read
  enters s v = ground (arith, and_mask 1 s.mode, and_mask 1 (s.mode + 1), set_low s.mode)

  -- The second loop takes one.
  leaves :
      (left : ℕ) (s : CanState)
      → IsValid s
      → s.mode % 2 ≡ 1
      → leave_reset (guest_bus stack) (suc (suc left)) s.mode (some s)
        ≡ (suc left, s.mode - 1, some (record s { mode = s.mode - 1 }))
  unfolding leave_reset guest_bus can_mem_write can_mem_read
  leaves left s v odd = ground (arith, and_mask 1 s.mode, and_mask 1 (s.mode - 1), clear_low s.mode)

  -- On a well-formed controller the three tries that both loops share are enough, from either mode:
  -- opening returns 0, clears the frames of the queue but not its count and index, and leaves the
  -- controller in operation mode and otherwise as it was.
  pub device_open-shares_tries :
      (d : CanDev) (s : CanState)
      → IsValid s
      → device_open (guest_bus stack) d (some s) ≡ (
        pos 0,
        record d { tx_buf = replicate 6 zero_frame },
        some (record s { mode = s.mode - s.mode % 2 }),
      )
  unfolding device_open
  device_open-shares_tries d s v =
      let m1 : ℕ = if s.mode % 2 == 1 then s.mode else s.mode + 1 in
      let s1 = record s { mode = m1 } in
      let v1 : IsValid s1 = ground arith in
      ground (
        arith,
        read_mode stack s,
        read_mode stack s1,
        enters s v,
        leaves 0 s1 v1,
        leaves 1 s1 v1,
        and_mask 1 m1,
        and_mask 1 (m1 - 1),
      )
