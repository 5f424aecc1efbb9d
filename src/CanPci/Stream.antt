-- ===== src/CanPci/Stream.antt =====
-- Many frames, one after the other, from the PeliCAN driver
-- (source/linux_driver/pelican_mode/can_pci.c) through the emulated controller of
-- backup/qemu_linux4/can-pci.c.
use linux_qemu.Base.{
  ℕ, ◌/◌, ◌%◌, ◌≤◌, ◌<◌, List, [], ◌∷◌, ◌++◌, append-nil, append_assoc, some, ◌>>=◌, Option, ◌≡◌,
  refl, sym, ap, subst, map, Ends-bind, true, false, ◌⊎◌, arith, Ends, length, length-append,
  length-drop, length-set, drop, set, get_elem?-eq-get_or, get_or-set_self,
}
use linux_qemu.Base.Int.{ℤ, pos}
use linux_qemu.Frame.{CanFrame, Bus, IsFrame, zero_frame}
use linux_qemu.Driver
use linux_qemu.Driver.{CanDev}
use linux_qemu.Driver.Invariant
use linux_qemu.Pelican.Send.{is_extended, is_remote, tx_image}
use linux_qemu.Pelican.Receive.{received}
use linux_qemu.Pelican.Handlers.{device_write}
use linux_qemu.CanPci.{CanState, can_mem_read, guest_bus}
use linux_qemu.CanPci.Registers.{IsValid}
use linux_qemu.CanPci.Link.{send_message-delivers, length-tx_image}

-- A frame of at most eight bytes that the driver and the device carry: bit 2 of a standard
-- identifier is clear, and the variable `stack` that the device decodes into holds the identifier 0
-- or the frame is remote.
pub record Carried (stack f : CanFrame) : Type 0 where
  pub frame : IsFrame f
  pub short : f.can_dlc ≤ 8
  pub id_ok : (is_extended f ≡ true) ⊎ (f.can_id / 4 % 2 ≡ 0)
  pub clean : (is_remote f ≡ true) ⊎ (stack.can_id ≡ 0)

abbrev pub AllCarried : CanFrame → List CanFrame → Type 0
AllCarried stack [] = Unit {0}
AllCarried stack (f ∷ fs) = Carried stack f × AllCarried stack fs

-- The controller once it has been given a frame.
abbrev pub given : CanFrame → CanState → CanState
given f s =
    let image = tx_image f ++ drop (length (tx_image f)) s.trx_buff in
    record s { trx_buff = image; tx_buff = image; chr = s.chr ++ received f ∷ []; irq = true }

pub given-IsValid :
    (f : CanFrame) (s : CanState) → IsFrame f → f.can_dlc ≤ 8 → IsValid s → IsValid (given f s)
given-IsValid f s frame short v =
    let n : ℕ = length (tx_image f) in
    let fits : n ≤ 13 = length-tx_image f frame short in
    let size : length (tx_image f ++ drop n s.trx_buff) ≡ 13 = omega (
      arith,
      length-append (tx_image f) (drop n s.trx_buff),
      length-drop n s.trx_buff,
      v.trx_size,
    ) in
    ground (arith, size)

module _ {S : Type 0} (bus : Bus S) where
  -- The answers of the writes, and the driver and the controller after them.
  unfoldable pub write_frames : List CanFrame → CanDev → S → Option (List ℤ × CanDev × S)
  write_frames [] d s = some ([], d, s)
  write_frames (f ∷ fs) d s = do
    (ret, d1, s1) ← device_write bus 16 f false d s
    (rets, d2, s2) ← write_frames fs d1 s1
    some (ret ∷ rets, d2, s2)

module _ (stack : CanFrame) (eight : length stack.bytes ≡ 8) where
  write_given :
      (f : CanFrame) (d : CanDev) (s : CanState)
      → Invariant.IsValid d
      → d.tx_count < 6
      → IsValid s
      → s.mode % 2 ≡ 0
      → s.status ≡ 0x0c
      → Carried stack f
      → device_write (guest_bus stack) 16 f false d (some s)
        ≡ some (pos 16, record d { tx_buf = set d.tx_buf d.tx_in f }, some (given f s))
  unfolding device_write Driver.device_write guest_bus can_mem_read
  write_given f d s w room v operating free c =
      let put = get_elem?-eq-get_or (set d.tx_buf d.tx_in f) d.tx_in zero_frame in
      let got = get_or-set_self d.tx_buf d.tx_in f zero_frame in
      let sent =
        send_message-delivers stack f s v operating c.frame c.short c.id_ok c.clean eight in
      ground (arith, put, got, sent, length-set d.tx_buf d.tx_in f)

  -- With well-formed rings that are not full and a well-formed controller in operation mode whose
  -- buffer is free, no interrupt coming between: all writes return 16, leave as many frames waiting
  -- as before, and give the backend the frames, in the order of the writes and once each, as the
  -- format carries them. Each frame has at most eight bytes and a standard one a clear bit 2, and
  -- the variable that the device decodes into holds eight bytes, and the identifier 0 unless the
  -- frame is remote.
  pub write_frames-deliver :
      (fs : List CanFrame) (d : CanDev) (s : CanState)
      → Invariant.IsValid d
      → d.tx_count < 6
      → IsValid s
      → s.mode % 2 ≡ 0
      → s.status ≡ 0x0c
      → AllCarried stack fs
      → Ends (write_frames (guest_bus stack) fs d (some s)) (λ (rets, d', t).
        (rets ≡ map (λ f. pos 16) fs)
        × (d'.tx_count ≡ d.tx_count)
        × Ends t (λ u. u.chr ≡ s.chr ++ map received fs))
  unfolding write_frames
  write_frames-deliver [] d s w room v operating free carried = (refl, refl, sym (append-nil s.chr))
  write_frames-deliver (f ∷ fs) d s w room v operating free (c, cs) =
      let d1 : CanDev = record d { tx_buf = set d.tx_buf d.tx_in f } in
      let w1 : Invariant.IsValid d1 = ground (arith, length-set d.tx_buf d.tx_in f) in
      let rest =
        write_frames-deliver fs d1 (given f s) w1 room (given-IsValid f s c.frame c.short v)
          operating free cs in
      rw (write_given f d s w room v operating free c) (
        Ends-bind (write_frames (guest_bus stack) fs d1 (some (given f s))) _ _ rest
          (λ (rets, d', t) (answers, count, chr). (
            ap (λ rs. pos 16 ∷ rs) answers,
            count,
            subst (λ sent. Ends t (λ u. u.chr ≡ sent))
                (append_assoc s.chr (received f ∷ []) (map received fs)) chr,
          )))
