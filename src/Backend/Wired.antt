-- ===== src/Backend/Wired.antt =====
-- The emulated controller of backup/qemu_linux4/can-pci.c on the CAN backend of
-- backup/qemu_linux4/qemu-char.c: from the PeliCAN driver's device_write to the bus behind the socket.
use linux_qemu.Base.{
  ℕ, List, [], Option, none, some, ◌>>=◌, Option-cases, ◌≡◌, inl, inr, refl, arith, Ends, true,
  ◌==◌, ltb, if◌then◌else◌,
}
use linux_qemu.Base.Int.{ℤ}
use linux_qemu.Bits.{has}
use linux_qemu.Frame.Maps.{IsBusMap}
use linux_qemu.Frame.{CanFrame, Bus, frame_size}
use linux_qemu.CanPci
use linux_qemu.CanPci.{CanState, buff2frame, can_mem_read, guest_bus}
use linux_qemu.Backend.{CharDriverState, qemu_chr_fe_write}
use linux_qemu.Backend.Wire.{wire, deliver, deliver_last}

module _ {W : Type 0} (write : ℕ → List ℕ → ℕ → W → ℤ × W) (pad : List ℕ)
    (chr : CharDriverState) where
  -- `case 1` with bit 0 of the value: the answer of the backend is dropped. The frames go to the backend
  -- itself, and the list `chr` of the state is left alone.
  pub transmit : CanFrame → CanState → W → Option (CanState × W)
  transmit stack s w = do
    can ← buff2frame s.trx_buff stack
    (ret, w1) ← qemu_chr_fe_write write chr (wire pad can) frame_size w
    some (record s { tx_buff = s.trx_buff; irq = true }, w1)

  pub can_mem_write : CanFrame → ℕ → ℕ → CanState × W → Option (CanState × W)
  can_mem_write stack addr val (s, w) =
      if ltb s.memio_size addr
      then some (s, w)
      else if addr == 1
      then (if has 0x01 val then transmit stack s w else some (s, w))
      else CanPci.can_mem_write stack addr val s >>= λ t. some (t, w)

  pub wired_bus : CanFrame → Bus (Option (CanState × W))
  wired_bus stack = record {
    read8 = λ x a. elim x [ none ↦ (0, none) | some t ↦ (can_mem_read a t.0, some t) ];
    write8 = λ x a v. x >>= can_mem_write stack a v;
  }

  -- The device that has listed its frames, with the backend given what it listed.
  unfoldable pub wired : W → Option CanState → Option (CanState × W)
  wired w t = do s ← t; (rets, w1) ← deliver write pad chr s.chr w; some (record s { chr = [] }, w1)

  read-wired :
      (stack : CanFrame) (a : ℕ) (t : Option CanState) (w : W)
      → ((fs : List CanFrame) → Ends (deliver write pad chr fs w) (λ x. Unit {0}))
      → (wired_bus stack).read8 (wired w t) a
        ≡ (((guest_bus stack).read8 t a).0, wired w ((guest_bus stack).read8 t a).1)
  unfolding wired wired_bus guest_bus can_mem_read
  read-wired stack a none w calls = refl
  read-wired stack a (some s) w calls = elim (Option-cases (deliver write pad chr s.chr w)) [
    | inl d ↦ absurd (rw d at (calls s.chr))
    | inr (x, d) ↦ rw d refl
  ]

  write-wired :
      (stack : CanFrame) (a v : ℕ) (t : Option CanState) (w : W)
      → (wired_bus stack).write8 (wired w t) a v ≡ wired w ((guest_bus stack).write8 t a v)
  unfolding wired wired_bus guest_bus can_mem_write transmit CanPci.can_mem_write CanPci.transmit
      CanPci.write_buffer
  write-wired stack a v none w = refl
  write-wired stack a v (some s) w = elim (Option-cases (deliver write pad chr s.chr w)) [
    | inl d ↦ elim (Option-cases (buff2frame s.trx_buff stack)) [
      | inl b ↦ rw d (ground (arith, d, b))
      | inr (can, b) ↦
          let last = rw d at (deliver_last write pad chr s.chr can w) in
          rw d (ground (arith, d, b, last))
    ]
    | inr ((rets, w1), d) ↦ elim (Option-cases (buff2frame s.trx_buff stack)) [
      | inl b ↦ rw d (ground (arith, d, b))
      | inr (can, b) ↦
          let last = rw d at (deliver_last write pad chr s.chr can w) in
          elim (Option-cases (qemu_chr_fe_write write chr (wire pad can) frame_size w1)) [
            | inl e ↦ rw d (ground (arith, d, b, e, rw e at last))
            | inr ((ret, w2), e) ↦ rw d (ground (arith, d, b, e, rw e at last))
          ]
    ]
  ]

  -- A register read shows the same, as long as the backend can be called.
  pub wired-IsBusMap :
      (stack : CanFrame) (w : W)
      → ((fs : List CanFrame) → Ends (deliver write pad chr fs w) (λ x. Unit {0}))
      → IsBusMap (guest_bus stack) (wired_bus stack) (wired w)
  wired-IsBusMap stack w calls = record {
    reads = λ t a. read-wired stack a t w calls;
    writes = λ t a v. write-wired stack a v t w;
  }
