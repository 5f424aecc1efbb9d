-- ===== src/Backend/Session.antt =====
-- A whole session up to the bus: the emulated controller of backup/qemu_linux4/can-pci.c is set up with the CAN
-- backend of backup/qemu_linux4/qemu-char.c, and the PeliCAN driver (source/linux_driver/pelican_mode/can_pci.c)
-- opens it and writes frames.
use linux_qemu.Base.{ℕ, List, [], ◌++◌, some, map, ◌≡◌, refl, arith, Ends, true, false, length, set}
use linux_qemu.Base.Int.{ℤ, pos}
use linux_qemu.Frame.{CanFrame}
use linux_qemu.Driver.{CanDev, empty_rings}
use linux_qemu.Driver.Invariant.{empty_rings-IsValid}
use linux_qemu.Pelican.Receive.{received}
use linux_qemu.Pelican.Handlers.{device_open}
use linux_qemu.Pelican.Calls.{device_open-mapped}
use linux_qemu.CanPci.{CanState, can_hardware_reset, can_pci_init}
use linux_qemu.CanPci.Registers.{IsValid}
use linux_qemu.CanPci.Open.{device_open-operates, filter_size}
use linux_qemu.CanPci.Session.{HasArrays}
use linux_qemu.CanPci.Stream.{AllCarried, write_frames}
use linux_qemu.Backend.Held.{opened}
use linux_qemu.Backend.Wire.{wire, accepted, IsCanSocket, deliver}
use linux_qemu.Backend.Wired.{wired_bus}
use linux_qemu.Backend.Guest.{opened-IsBusMap, none_wired, write_frames-reach}

module _ {W : Type 0} (write : ℕ → List ℕ → ℕ → W → ℤ × W) (pad : List ℕ) (fd : ℕ)
    (stack : CanFrame) (eight : length stack.bytes ≡ 8) where
  -- From any contents of the controller's arrays and no frame listed, with an opened CAN backend
  -- on a raw CAN socket: initialisation ends, opening the device returns 0, and writing frames
  -- then returns 16 for each, whatever the socket answers, and leaves none waiting in the driver.
  -- The socket is given each frame once, in the order of the writes, as the sixteen bytes of a
  -- struct can_frame, three of them padding, with what the format carries; the bus gets those
  -- whose write succeeded and none of the others. Each frame has at most eight bytes and a
  -- standard one a clear bit 2, and the variable that the device decodes into has eight bytes, and
  -- the identifier 0 unless the frame is remote. No interrupt comes between the writes.
  pub session_reaches :
      (fs : List CanFrame) (s : CanState) (d : CanDev) (w : W) (bus : W → List (List ℕ))
      → IsCanSocket write bus fd
      → length pad ≡ 3
      → HasArrays s
      → s.chr ≡ []
      → AllCarried stack fs
      → Ends (can_pci_init true s) (λ s1.
        let (ret, d2, t) = device_open (wired_bus write pad (opened fd) stack) d (some (s1, w)) in
        (ret ≡ pos 0)
        × Ends (write_frames (wired_bus write pad (opened fd) stack) fs d2 t) (λ (rets, d3, t3).
          (rets ≡ map (λ f. pos 16) fs)
          × (d3.tx_count ≡ 0)
          × Ends t3 (λ (u, w').
            (answers : List ℤ) × (deliver write pad (opened fd) (map received fs) w
              ≡ some (answers, w'))
            × (bus w' ≡ bus w ++ accepted answers (map (λ f. wire pad (received f)) fs)))))
  unfolding can_pci_init can_hardware_reset
  session_reaches fs s d w bus sock three h none_given carried =
      let s1 : CanState = record s {
        mode = 1;
        status = 0x0c;
        irq = false;
        memio_size = 128;
        timer_armed = false;
      } in
      let v1 : IsValid s1 = ground arith in
      let (mode, opens, even, small) = device_open-operates stack d s1 v1 in
      let s2 : CanState = record s1 {
        mode = mode;
        code_mask = set (set (set (set s.code_mask 4 255) 5 255) 6 255) 7 255;
      } in
      let v2 : IsValid s2 = ground (arith, filter_size s.code_mask h.mask_size) in
      let opened_here =
        rw (none_wired write pad fd s1 w none_given) at
          (device_open-mapped (opened-IsBusMap write pad fd stack w) d (some s1)) in
      rw (opened_here, opens, none_wired write pad fd s2 w none_given)
        (
          refl,
          write_frames-reach write pad fd stack eight fs empty_rings s2 w bus sock three
              empty_rings-IsValid (omega arith) v2 even refl none_given carried,
        )
