-- ===== src/CanPci/Session.antt =====
-- A whole session: the emulated controller of backup/qemu_linux4/can-pci.c is set up, and the
-- PeliCAN driver (source/linux_driver/pelican_mode/can_pci.c) opens it and writes a frame.
use linux_qemu.Base.{
  ◌/◌, ◌%◌, ◌≤◌, [], ◌∷◌, ◌++◌, some, ◌≡◌, refl, true, false, ◌⊎◌, arith, Ends, length, drop, set,
}
use linux_qemu.Base.Int.{pos}
use linux_qemu.Frame.{CanFrame, IsFrame}
use linux_qemu.Driver
use linux_qemu.Driver.{CanDev, empty_rings}
use linux_qemu.Pelican.Send.{is_extended, is_remote, tx_image}
use linux_qemu.Pelican.Receive.{received}
use linux_qemu.Pelican.Handlers.{device_open, device_write}
use linux_qemu.CanPci.{
  CanState, can_hardware_reset, can_pci_init, serial_xmit, can_mem_read, guest_bus,
}
use linux_qemu.CanPci.Registers.{IsValid}
use linux_qemu.CanPci.Open.{device_open-operates, filter_size}
use linux_qemu.CanPci.Link.{send_message-delivers}

-- The arrays have the sizes that the structure declares.
pub record HasArrays (s : CanState) : Type 0 where
  pub trx_size : length s.trx_buff ≡ 13
  pub mask_size : length s.code_mask ≡ 8
  pub tx_size : length s.tx_buff ≡ 13

-- From arrays of their declared sizes, initialisation with a backend ends, in reset mode, with the
-- registers well formed.
pub can_pci_init-IsValid :
    (s : CanState)
    → HasArrays s
    → Ends
        (can_pci_init true s)
        (λ t. IsValid t × (t.mode ≡ 1) × (t.status ≡ 0x0c) × (t.irq ≡ false))
unfolding can_pci_init can_hardware_reset
can_pci_init-IsValid s h = ground arith

-- From a static count of 1, the first tick of the timer raises the line; the second lowers it, puts
-- the count back and does not set the timer again.
pub serial_xmit_twice :
    (s : CanState)
    → s.xmit_count ≡ 1
    → ((serial_xmit s).irq ≡ true)
      × (serial_xmit (serial_xmit s) ≡ record s { irq = false; timer_armed = false })
unfolding serial_xmit
serial_xmit_twice s h = ground arith

module _ (stack f : CanFrame) where
  -- A write of a frame to an open device whose controller has a free buffer.
  pub write_delivers :
      (s : CanState)
      → IsValid s
      → s.mode % 2 ≡ 0
      → s.status ≡ 0x0c
      → IsFrame f
      → f.can_dlc ≤ 8
      → (is_extended f ≡ true) ⊎ (f.can_id / 4 % 2 ≡ 0)
      → (is_remote f ≡ true) ⊎ (stack.can_id ≡ 0)
      → length stack.bytes ≡ 8
      → device_write (guest_bus stack) 16 f false empty_rings (some s)
        ≡ some (
          pos 16,
          record empty_rings { tx_buf = set empty_rings.tx_buf 0 f },
          some (record s {
            trx_buff = tx_image f ++ drop (length (tx_image f)) s.trx_buff;
            tx_buff = tx_image f ++ drop (length (tx_image f)) s.trx_buff;
            chr = s.chr ++ received f ∷ [];
            irq = true;
          }),
        )
  unfolding device_write Driver.device_write guest_bus can_mem_read
  write_delivers s v operating free frame short id_ok clean eight =
      ground (arith, send_message-delivers stack f s v operating frame short id_ok clean eight)

  -- From any contents of the controller's arrays: initialisation ends, opening the device returns
  -- 0, and writing a frame then returns its size, leaves nothing waiting in the driver, hands what
  -- the format carries of it (flags, identifier, length, and the payload padded with zeros) to the
  -- backend, once and behind what that had, and raises the interrupt. The frame has
  -- at most eight bytes, bit 2 of a standard identifier is clear, and the variable that the device
  -- decodes into holds the identifier 0 or the frame is remote.
  pub session_delivers :
      (s : CanState) (d : CanDev)
      → HasArrays s
      → IsFrame f
      → f.can_dlc ≤ 8
      → (is_extended f ≡ true) ⊎ (f.can_id / 4 % 2 ≡ 0)
      → (is_remote f ≡ true) ⊎ (stack.can_id ≡ 0)
      → length stack.bytes ≡ 8
      → Ends (can_pci_init true s) (λ s1.
        let (opened, d2, t) = device_open (guest_bus stack) d (some s1) in
        (opened ≡ pos 0)
        × Ends (device_write (guest_bus stack) 16 f false d2 t) (λ (written, d3, t3).
          (written ≡ pos 16)
          × (d3.tx_count ≡ 0)
          × Ends t3 (λ u. (u.chr ≡ s.chr ++ received f ∷ []) × (u.irq ≡ true))))
  unfolding can_pci_init can_hardware_reset
  session_delivers s d h frame short id_ok clean eight =
      let s1 : CanState = record s {
        mode = 1;
        status = 0x0c;
        irq = false;
        memio_size = 128;
        timer_armed = false;
      } in
      let v1 : IsValid s1 = ground arith in
      let (mode, opens, even, small) = device_open-operates stack d s1 v1 in
      let s2 : CanState = record s1 {
        mode = mode;
        code_mask = set (set (set (set s.code_mask 4 255) 5 255) 6 255) 7 255;
      } in
      let v2 : IsValid s2 = ground (arith, filter_size s.code_mask h.mask_size) in
      let writes = write_delivers s2 v2 even refl frame short id_ok clean eight in
      rw (opens, writes) (refl, (refl, refl, (refl, refl)))
