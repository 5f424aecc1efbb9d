-- ===== src/CanPci/Link.antt =====
-- The PeliCAN driver's send_message (source/linux_driver/pelican_mode/can_pci.c) against the
-- emulated controller of backup/qemu_linux4/can-pci.c.
use linux_qemu.Base.{
  ℕ, ◌+◌, ◌-◌, ◌/◌, ◌%◌, ◌≤◌, ◌<◌, List, [], ◌∷◌, ◌++◌, some, ◌≡◌, ap, sym, true, ◌⊎◌, inl, inr,
  arith, length, length-append, length-take, set, set-append, append_assoc, take, drop, u8,
  take-append-drop, Bool-cases,
}
use linux_qemu.Bits.{has_bit}
use linux_qemu.Frame.{CanFrame, IsFrame, AllBelow, AllBelow-take, write_all}
use linux_qemu.Pelican.{send_message}
use linux_qemu.Pelican.Send.{is_extended, is_remote, id_bytes, tx_image, send_message-tx_image}
use linux_qemu.Pelican.Receive.{received}
use linux_qemu.CanPci.{CanState, transmit, write_buffer, can_mem_write, guest_bus}
use linux_qemu.CanPci.Registers.{IsValid, has_one}
use linux_qemu.CanPci.Decode.{buff2frame-tx_image}

-- In operation mode a byte written to the transmit buffer is stored there.
write_buffer-stores :
    (stack : CanFrame) (s : CanState) (i val : ℕ)
    → s.memio_size ≡ 128
    → s.mode % 2 ≡ 0
    → i < 13
    → val < 256
    → can_mem_write stack (16 + i) val s ≡ some (record s { trx_buff = set s.trx_buff i val })
unfolding can_mem_write write_buffer
write_buffer-stores stack s i val region operating i_in byte =
    let wide : u8 val ≡ val = omega arith in
    let slot : 16 + i - 16 ≡ i = omega arith in ground (arith, has_bit 0 s.mode, wide, slot)

-- Consecutive writes replace the front of the buffer.
pub write_all-stores :
    (stack : CanFrame) (s : CanState) (xs pre old rest : List ℕ)
    → s.memio_size ≡ 128
    → s.mode % 2 ≡ 0
    → length pre + length xs ≤ 13
    → length old ≡ length xs
    → AllBelow 256 xs
    → s.trx_buff ≡ pre ++ (old ++ rest)
    → write_all (guest_bus stack) (16 + length pre) xs (some s)
      ≡ some (record s { trx_buff = pre ++ (xs ++ rest) })
unfolding guest_bus
write_all-stores stack s [] pre [] rest region operating room same bytes held =
    ap (λ b. some (record s { trx_buff = b })) held
write_all-stores stack s [] pre (o ∷ old) rest region operating room same bytes held =
    absurd (omega arith)
write_all-stores stack s (x ∷ xs) pre [] rest region operating room same bytes held =
    absurd (omega arith)
write_all-stores stack s (x ∷ xs) pre (o ∷ old) rest region operating room same bytes held =
    let at_end : length (pre ++ x ∷ []) ≡ length pre + 1 = length-append pre (x ∷ []) in
    let s' = record s { trx_buff = set s.trx_buff (length pre) x } in
    let stored =
      write_buffer-stores stack s (length pre) x region operating (omega arith) bytes.0 in
    let shifted : s'.trx_buff ≡ pre ++ x ∷ [] ++ (old ++ rest) =
      rw (held, set-append, append_assoc) in
    let ih =
      write_all-stores stack s' xs (pre ++ x ∷ []) old rest region operating (omega arith)
        (omega arith) bytes.1 shifted in
    let next : 16 + length (pre ++ x ∷ []) ≡ 16 + length pre + 1 = omega arith in
    rw stored (rw (next, append_assoc pre (x ∷ []) (xs ++ rest)) at ih)

pub tx_image-AllBelow : (f : CanFrame) → IsFrame f → f.can_dlc ≤ 8 → AllBelow 256 (tx_image f)
unfolding tx_image
tx_image-AllBelow f v short =
    let payload = AllBelow-take 256 f.can_dlc f.bytes v.bytes_fit in
    elim (Bool-cases (is_extended f)) [
      | inl e ↦
          rw e (ground arith, (omega arith, (omega arith, (omega arith, (omega arith, payload)))))
      | inr e ↦ rw e (ground arith, (omega arith, (omega arith, payload)))
    ]

pub length-tx_image : (f : CanFrame) → IsFrame f → f.can_dlc ≤ 8 → length (tx_image f) ≤ 13
unfolding tx_image
length-tx_image f v short =
    ground
      (arith, length-take f.can_dlc f.bytes, length-append (id_bytes f) (take f.can_dlc f.bytes))

-- The command that follows hands the frame to the backend.
pub transmit-delivers :
    (stack f : CanFrame) (s : CanState) (rest : List ℕ)
    → s.memio_size ≡ 128
    → IsFrame f
    → f.can_dlc ≤ 8
    → (is_remote f ≡ true) ⊎ (stack.can_id ≡ 0)
    → length stack.bytes ≡ 8
    → can_mem_write stack 1 1 (record s { trx_buff = tx_image f ++ rest })
      ≡ some (record s {
        trx_buff = tx_image f ++ rest;
        tx_buff = tx_image f ++ rest;
        chr = s.chr ++ received f ∷ [];
        irq = true;
      })
unfolding can_mem_write transmit
transmit-delivers stack f s rest region v short clean eight =
    ground (arith, has_one 1, buff2frame-tx_image f stack rest v short clean eight)

-- With well-formed registers and the controller in operation mode the driver's send_message hands
-- its frame to the backend, raises the interrupt and leaves the other registers: flags, identifier,
-- length and payload arrive, the payload padded with zeros. The frame has at most eight bytes, bit
-- 2 of a standard identifier is clear, and the variable that buff2frame fills holds the identifier
-- 0 or the frame is remote.
pub send_message-delivers :
    (stack f : CanFrame) (s : CanState)
    → IsValid s
    → s.mode % 2 ≡ 0
    → IsFrame f
    → f.can_dlc ≤ 8
    → (is_extended f ≡ true) ⊎ (f.can_id / 4 % 2 ≡ 0)
    → (is_remote f ≡ true) ⊎ (stack.can_id ≡ 0)
    → length stack.bytes ≡ 8
    → let buff = tx_image f ++ drop (length (tx_image f)) s.trx_buff in
      send_message (guest_bus stack) f (some s)
      ≡ some (
          some (record s {
            trx_buff = buff;
            tx_buff = buff;
            chr = s.chr ++ received f ∷ [];
            irq = true;
          }))
send_message-delivers stack f s v operating frame short id_ok clean eight =
    let n = length (tx_image f) in
    let fits = length-tx_image f frame short in
    let stored =
      write_all-stores stack s (tx_image f) [] (take n s.trx_buff) (drop n s.trx_buff) v.region
        operating (omega arith) (length-take n s.trx_buff (omega arith))
        (tx_image-AllBelow f frame short) (sym (take-append-drop n s.trx_buff)) in
    let sent = transmit-delivers stack f s (drop n s.trx_buff) v.region frame short clean eight in
    rw (send_message-tx_image (guest_bus stack) f (some s) frame short id_ok, stored)
      (unfold guest_bus in ap some sent)
