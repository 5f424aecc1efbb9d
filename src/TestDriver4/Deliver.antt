-- ===== src/TestDriver4/Deliver.antt =====
-- The driver and the main.c of backup/qemu_linux4/qemu_test on the controller of
-- backup/qemu_linux4/can-pci.c.
use linux_qemu.Base.{
  ℕ, ◌-◌, ◌*◌, ◌/◌, ◌%◌, ◌≤◌, ◌<◌, [], ◌∷◌, ◌++◌, Option, none, some, ◌≡◌, ◌⊎◌, refl, inl, inr,
  true, false, arith, length, length-set, set, get_elem?-eq-get_or, get_or-set_self, replicate,
}
use linux_qemu.Base.Words.{sub_word}
use linux_qemu.Base.Int.{pos}
use linux_qemu.Frame.{CanFrame, Bus, IsFrame, zero_frame, frame_size}
use linux_qemu.Pelican.Send.{is_extended, is_remote}
use linux_qemu.Pelican.Receive.{received}
use linux_qemu.CanPci.{CanState, guest_bus, can_mem_read, can_mem_write}
use linux_qemu.CanPci.Registers.{IsValid}
use linux_qemu.CanPci.Link.{send_message-delivers}
use linux_qemu.CanPci.Stream.{given, given-IsValid}
use linux_qemu.Programs.{Syscalls, cansnd, second_frame, double_main}
use linux_qemu.Programs.Serves.{FileOperations, Serves}
use linux_qemu.TestDriver4.{CanDev, device_open, device_write, device_read, irq_handler}
use linux_qemu.TestDriver4.Open.{device_open-shares_tries}
use linux_qemu.TestDriver4.Queue.{Queued, used}

module _ (stack : CanFrame) (word dev_size : ℕ) where
  write_gives :
      (f : CanFrame) (n : ℕ) (d : CanDev) (s : CanState)
      → 6 * dev_size < word
      → 16 ≤ dev_size
      → n < 6
      → Queued dev_size n d
      → IsValid s
      → s.mode % 2 ≡ 0
      → s.status ≡ 0x0c
      → IsFrame f
      → f.can_dlc ≤ 8
      → (is_extended f ≡ true) ⊎ (f.can_id / 4 % 2 ≡ 0)
      → (is_remote f ≡ true) ⊎ (stack.can_id ≡ 0)
      → length stack.bytes ≡ 8
      → device_write (guest_bus stack) word dev_size 16 f false d (some s)
        ≡ some (pos 0, record d { tx_buf = set d.tx_buf d.tx_in f }, some (given f s))
  unfolding device_write guest_bus can_mem_read
  write_gives f n d s small big space q v operating free frame short id_ok clean eight =
      let uses = used dev_size n q.at_most in
      let room = sub_word word (6 * dev_size) d.tx_count (omega (arith, uses, q.counted)) small in
      let put = get_elem?-eq-get_or (set d.tx_buf d.tx_in f) d.tx_in zero_frame in
      let got = get_or-set_self d.tx_buf d.tx_in f zero_frame in
      let sent = send_message-delivers stack f s v operating frame short id_ok clean eight in
      ground (arith, uses, room, put, got, sent, length-set d.tx_buf d.tx_in f)

-- The operations as the kernel calls them; a read answers 0 and fills in nothing.
abbrev pub test_operations : {S : Type 0} → ℕ → ℕ → Bus S → FileOperations CanDev S CanFrame
test_operations word dev_size bus = record {
  device_open = device_open bus;
  device_write = λ f. device_write bus word dev_size frame_size f false;
  device_read = λ d. some (pos 0, none, (device_read frame_size d).1);
  device_release = λ s. (pos 0, s);
}

cansnd-IsFrame : IsFrame cansnd
cansnd-IsFrame = omega arith

second_frame-IsFrame : IsFrame second_frame
second_frame-IsFrame = omega arith

received_both : (received cansnd ≡ cansnd) × (received second_frame ≡ second_frame)
unfolding received
received_both = (refl, refl)

irq_lowers :
    (stack : CanFrame) (u : CanState)
    → u.memio_size ≡ 128
    → irq_handler (guest_bus stack) (some u) ≡ some (record u { irq = false })
unfolding irq_handler guest_bus can_mem_write
irq_lowers stack u region = ground arith

module _ {K : Type 0} (sys : Syscalls K CanFrame) (stack : CanFrame) (word dev_size : ℕ)
    (state : CanDev → Option CanState → K) (fd : ℕ)
    (serves : Serves sys (test_operations word dev_size (guest_bus stack)) state fd) where
  -- On a well-formed controller whose buffer is free, with fewer than six frames queued, the
  -- program exits with 0, and the backend has been given its two frames, the second after the
  -- first; the interrupt that this raises is lowered by the driver's handler. The size of struct
  -- can_dev is at least 16, six of them fit size_t, and the variable that the device decodes into
  -- holds the identifier 0.
  pub double_main-delivers :
      (n : ℕ) (d : CanDev) (s : CanState)
      → 6 * dev_size < word
      → 16 ≤ dev_size
      → n < 6
      → Queued dev_size n d
      → IsValid s
      → s.status ≡ 0x0c
      → stack.can_id ≡ 0
      → length stack.bytes ≡ 8
      → (d' : CanDev) × (u : CanState) × (double_main sys cansnd second_frame (state d (some s))
          ≡ (0, state d' (some u)))
        × (u.chr ≡ s.chr ++ cansnd ∷ [] ++ second_frame ∷ [])
        × (u.irq ≡ true)
        × (irq_handler (guest_bus stack) (some u) ≡ some (record u { irq = false }))
  unfolding double_main
  double_main-delivers n d s small big space q v free clean eight =
      let d1 : CanDev = record d { tx_buf = replicate 6 zero_frame } in
      let s1 : CanState = record s { mode = s.mode - s.mode % 2 } in
      let v1 : IsValid s1 = ground arith in
      let q1 : Queued dev_size n d1 = ground arith in
      let d2 : CanDev = record d1 { tx_buf = set d1.tx_buf d1.tx_in cansnd } in
      let s2 = given cansnd s1 in
      let v2 = given-IsValid cansnd s1 cansnd-IsFrame (omega arith) v1 in
      let q2 : Queued dev_size n d2 = ground (arith, length-set d1.tx_buf d1.tx_in cansnd) in
      let d3 : CanDev = record d2 { tx_buf = set d2.tx_buf d2.tx_in second_frame } in
      let s3 = given second_frame s2 in
      let opens = device_open-shares_tries stack d s v in
      let first =
        write_gives stack word dev_size cansnd n d1 s1 small big space q1 v1 (omega arith) free
          cansnd-IsFrame (omega arith) (inr refl) (inr clean) eight in
      let second =
        write_gives stack word dev_size second_frame n d2 s2 small big space q2 v2 (omega arith)
          free second_frame-IsFrame (omega arith) (inl refl) (inr clean) eight in
      let opened = serves.opens d d1 (some s) (some s1) opens in
      let wrote = serves.writes cansnd d1 d2 (some s1) (some s2) 0 first in
      let wrote2 = serves.writes second_frame d2 d3 (some s2) (some s3) 0 second in
      let closed = serves.closes d3 (some s3) (some s3) (pos 0) refl in
      (
        d3,
        s3,
        ground (arith, opened, wrote, wrote2, closed),
        rw (received_both.0, received_both.1) refl,
        refl,
        irq_lowers stack s3 v.region,
      )
