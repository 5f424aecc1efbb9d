-- ===== src/Programs/Send.antt =====
-- source/examples/pelican_mode/send.c on the driver of source/linux_driver/pelican_mode/can_pci.c
-- and the controller of backup/qemu_linux4/can-pci.c.
use linux_qemu.Base.{
  ℕ, [], ◌∷◌, ◌++◌, Option, some, ◌≡◌, refl, inr, true, false, arith, length, drop, set,
}
use linux_qemu.Base.Int.{pos}
use linux_qemu.Frame.{CanFrame, Bus, IsFrame, frame_size}
use linux_qemu.Driver.{CanDev, device_read, empty_rings}
use linux_qemu.Pelican.Handlers.{device_open, device_write, device_release}
use linux_qemu.Pelican.Send.{tx_image}
use linux_qemu.Pelican.Receive.{received}
use linux_qemu.CanPci.{CanState, guest_bus, can_mem_write}
use linux_qemu.CanPci.Registers.{IsValid}
use linux_qemu.CanPci.Open.{device_open-operates, filter_size}
use linux_qemu.CanPci.Session.{write_delivers}
use linux_qemu.Programs.{Syscalls, cansnd, send_main}
use linux_qemu.Programs.Serves.{FileOperations, Serves}

abbrev pub pelican_operations : {S : Type 0} → Bus S → FileOperations CanDev S CanFrame
pelican_operations bus = record {
  device_open = device_open bus;
  device_write = λ f. device_write bus frame_size f false;
  device_read = device_read frame_size false;
  device_release = device_release bus;
}

cansnd-IsFrame : IsFrame cansnd
cansnd-IsFrame = omega arith

received-cansnd : received cansnd ≡ cansnd
unfolding received
received-cansnd = refl

-- Releasing the device puts the controller into reset mode.
release_resets :
    (stack : CanFrame) (s : CanState)
    → device_release (guest_bus stack) (some s) ≡ (pos 0, some (record s { mode = 1 }))
unfolding device_release guest_bus can_mem_write
release_resets stack s = ground arith

module _ {K : Type 0} (sys : Syscalls K CanFrame) (state : CanDev → Option CanState → K) (fd : ℕ)
    (stack : CanFrame) (serves : Serves sys (pelican_operations (guest_bus stack)) state fd) where
  -- On a well-formed controller whose buffer is free, the program, for the frame that it fills in,
  -- exits with 0, and the backend has been given this frame, once; the controller is left in reset
  -- mode. No interrupt comes between the program's system calls, and the variable that the device
  -- decodes into holds the identifier 0 and eight bytes.
  pub send_main-delivers :
      (d : CanDev) (s : CanState)
      → IsValid s
      → s.status ≡ 0x0c
      → stack.can_id ≡ 0
      → length stack.bytes ≡ 8
      → (d' : CanDev) × (u : CanState) × (send_main sys cansnd (state d (some s))
          ≡ (0, state d' (some u)))
        × (u.chr ≡ s.chr ++ cansnd ∷ [])
        × (u.mode ≡ 1)
  unfolding send_main
  send_main-delivers d s v free clean eight =
      let (mode, opens, even, small) = device_open-operates stack d s v in
      let s1 : CanState = record s {
        mode = mode;
        code_mask = set (set (set (set s.code_mask 4 255) 5 255) 6 255) 7 255;
      } in
      let v1 : IsValid s1 = ground (arith, filter_size s.code_mask v.mask_size) in
      let image = tx_image cansnd ++ drop (length (tx_image cansnd)) s.trx_buff in
      let d2 : CanDev = record empty_rings { tx_buf = set empty_rings.tx_buf 0 cansnd } in
      let s2 : CanState = record s1 {
        trx_buff = image;
        tx_buff = image;
        chr = s.chr ++ cansnd ∷ [];
        irq = true;
      } in
      let written : device_write (guest_bus stack) 16 cansnd false empty_rings (some s1)
          ≡ some (pos 16, d2, some s2) =
        rw received-cansnd at (
          write_delivers stack cansnd s1 v1 even free cansnd-IsFrame (omega arith) (inr refl)
            (inr clean) eight) in
      let opened = serves.opens d empty_rings (some s) (some s1) opens in
      let wrote = serves.writes cansnd empty_rings d2 (some s1) (some s2) 16 written in
      let closed =
        serves.closes d2 (some s2) (some (record s2 { mode = 1 })) (pos 0)
          (release_resets stack s2) in
      (d2, record s2 { mode = 1 }, ground (arith, opened, wrote, closed), refl, refl)
