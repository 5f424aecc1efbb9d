-- ===== src/Driver/Traffic/Moves.antt =====
-- Where the frames of a run of source/linux_driver/*/can_pci.c go: what each step does to the
-- waiting frames and to those sent.
use mathlib.Core.List.{Perm, perm_append_comm}
use mathlib.Core.List.Perm
use linux_qemu.Base.{
  ℕ, List, [], ◌∷◌, ◌++◌, append-nil, append_assoc, Option, Option-cases, some, Bool, true, false,
  not, Bool-cases, ◌&&◌, ◌≡◌, ◌≢◌, ◌⊎◌, inl, inr, refl, arith, ◌==◌, bit_and, length-set,
  get_elem?-eq-get_or, get_or, get_or-set_self, set, ltb,
}
use linux_qemu.Base.Int.{ℤ}
use linux_qemu.Bits.{has}
use linux_qemu.Frame.{CanFrame, Bus, zero_frame, frame_size}
use linux_qemu.Driver.{CanDev, buffer_size, device_read, device_write, irq_transmit, irq_receive}
use linux_qemu.Driver.Invariant.{IsValid, tx_queue}
use linux_qemu.Driver.Ring.{queue-pop, queue-set, queue-set_same}
use linux_qemu.Driver.Traffic.{
  Logged, logged_bus, logged_send, logged_receive, taken, Step, writes, reads, transmits, receives,
  drifts,
}

-- A step that takes over `h` leaves `w` and `s` of the waiting and the sent frames as `w'` and
-- `s'`; `free` is whether a write found the controller's buffer free.
pub data Move (free : Bool) (h w s w' s' : List CanFrame) : Type 0 where
  idles : h ≡ [] → w' ≡ w → s' ≡ s → Move free h w s w' s'
  queues : h ≢ [] → w' ≡ w ++ h → s' ≡ s → Move free h w s w' s'
  passes : free ≡ true → w' ≡ w → s' ≡ s ++ h → Move free h w s w' s'
  sends : (f : CanFrame) → h ≡ [] → w ≡ f ∷ w' → s' ≡ s ++ f ∷ [] → Move free h w s w' s'

abbrev pub MoveOf : Bool → List CanFrame → CanDev → List CanFrame → CanDev → List CanFrame → Type 0
MoveOf free h d s d' s' = Move free h (tx_queue d) s (tx_queue d') s'

module _ {S : Type 0} (bus : Bus S) (send : CanFrame → S → Option S)
    (receive : S → Option (CanFrame × S)) where
  write_moves :
      {d d' : CanDev} (s : Logged S) {s' : Logged S} {ret : ℤ} (count : ℕ) (slot : CanFrame)
      (failed : Bool)
      → IsValid d
      → device_write (logged_bus bus send) (logged_send bus send) count slot failed d s
        ≡ some (ret, d', s')
      → MoveOf
          (bit_and (bus.read8 s.controller 2).0 4 == 4)
          (taken count slot d)
          d
          s.sent
          d'
          s'.sent
        × IsValid d'
  unfolding device_write
  write_moves {d} {d'} s count slot failed v e =
      let buf = set d.tx_buf d.tx_in slot in
      let size = length-set d.tx_buf d.tx_in slot in
      let put = get_elem?-eq-get_or buf d.tx_in zero_frame in
      let got = get_or-set_self d.tx_buf d.tx_in slot zero_frame in
      let read = bus.read8 s.controller 2 in
      elim (Bool-cases (count == frame_size && not (d.tx_count == buffer_size))) [
        | inl b ↦ elim (Bool-cases (bit_and read.0 4 == 4)) [
          | inl free ↦ elim (Option-cases (send slot read.1)) [
            | inl n ↦ absurd (ground (arith, b, free, n, put, got))
            | inr (t, m) ↦
                let kept = queue-set_same d.tx_buf slot d.tx_count d.tx_out d.tx_in in
                rw b (
                  passes free (ground (arith, b, free, m, put, got, kept))
                      (ground (arith, b, free, m, put, got)),
                  ground (arith, b, free, m, put, got, size),
                )
          ]
          | inr locked ↦
              let added = queue-set d.tx_buf slot d.tx_count d.tx_out d.tx_in in
              rw b (
                queues (cc) (ground (arith, b, locked, added)) (ground (arith, b, locked)),
                ground (arith, b, locked, size),
              )
        ]
        | inr b ↦ rw b (idles refl (ground (arith, b)) (ground (arith, b)), ground (arith, b))
      ]

  transmit_moves :
      {d d' : CanDev} (free : Bool) (s : Logged S) {s' : Logged S} (temp : ℕ)
      → IsValid d
      → irq_transmit (logged_bus bus send) (logged_send bus send) temp d s ≡ some (d', s')
      → MoveOf free [] d s.sent d' s'.sent × IsValid d'
  unfolding irq_transmit
  transmit_moves {d} free s temp v e =
      let oldest = get_elem?-eq-get_or d.tx_buf d.tx_out zero_frame in
      let f : CanFrame = get_or d.tx_buf d.tx_out zero_frame in
      elim (Bool-cases (has temp 2 && ltb 0 d.tx_count)) [
        | inl b ↦ elim (Option-cases (send f s.controller)) [
          | inl n ↦ absurd (ground (arith, oldest, n, b))
          | inr (t, m) ↦
              let pop = queue-pop d.tx_buf d.tx_out d.tx_count in
              (
                sends f refl (ground (arith, oldest, m, b, pop)) (ground (arith, oldest, m, b)),
                ground (arith, oldest, m, b),
              )
        ]
        | inr b ↦ (idles refl (ground (arith, b)) (ground (arith, b)), ground (arith, b))
      ]

  read_moves :
      {d d' : CanDev} {ret : ℤ} {out : Option CanFrame} (free : Bool) (s : Logged S) (count : ℕ)
      (failed : Bool)
      → IsValid d
      → device_read count failed d ≡ some (ret, out, d')
      → MoveOf free [] d s.sent d' s.sent × IsValid d'
  unfolding device_read
  read_moves {d} free s count failed v e =
      let oldest = get_elem?-eq-get_or d.rx_buf d.rx_out zero_frame in
      (idles refl (ground (arith, oldest)) refl, ground (arith, oldest))

  receive_moves :
      {d d' : CanDev} (free : Bool) (s : Logged S) {s' : Logged S}
      → IsValid d
      → (d.rx_count == buffer_size) ≡ false
      → irq_receive (logged_receive receive) d s ≡ some (d', s')
      → MoveOf free [] d s.sent d' s'.sent × IsValid d'
  unfolding irq_receive
  receive_moves {d} free s v room e = elim (Option-cases (receive s.controller)) [
    | inl n ↦ absurd (ground (arith, n))
    | inr ((f, t), m) ↦
        let size = length-set d.rx_buf d.rx_in f in
        (idles refl (ground (arith, m)) (ground (arith, m)), ground (arith, m, size))
  ]

  pub Step-moves :
      {d d' : CanDev} {s s' : Logged S} {h : List CanFrame}
      → Step bus send receive d s h d' s'
      → IsValid d
      → MoveOf (bit_and (bus.read8 s.controller 2).0 4 == 4) h d s.sent d' s'.sent × IsValid d'
  Step-moves {s = s} (writes count slot failed e t) v = rw t (write_moves s count slot failed v e)
  Step-moves {s = s} (reads count failed e) v = read_moves _ s count failed v e
  Step-moves {s = s} (transmits temp e) v = transmit_moves _ s temp v e
  Step-moves {s = s} (receives room e) v = receive_moves _ s v room e
  Step-moves (drifts e) v = (idles refl refl e, v)

-- A move puts the frames taken over behind the waiting ones, or right behind those sent.
pub Move-perm :
    {free : Bool} {h w s w' s' : List CanFrame}
    → Move free h w s w' s'
    → Perm (s' ++ w') ((s ++ w) ++ h)
Move-perm {w = w} {s = s} (idles eh ew es) = rw (eh, ew, es, append-nil) (Perm.refl (s ++ w))
Move-perm {h = h} {w = w} {s = s} (queues some_taken ew es) =
    rw (ew, es, append_assoc s w h) (Perm.refl (s ++ (w ++ h)))
Move-perm {h = h} {w = w} {s = s} (passes free ew es) =
    rw (ew, es, append_assoc s h w, append_assoc s w h) (Perm.append_left s (perm_append_comm h w))
Move-perm {s = s} {w' = w'} (sends f eh ew es) =
    rw (eh, ew, es, append-nil, append_assoc s (f ∷ []) w') (Perm.refl (s ++ (f ∷ w')))

-- Unless a frame passes waiting ones, in their order.
pub Move-in_order :
    {free : Bool} {h w s w' s' : List CanFrame}
    → Move free h w s w' s'
    → (w ≡ []) ⊎ (free ≡ false) ⊎ (h ≡ [])
    → s' ++ w' ≡ (s ++ w) ++ h
Move-in_order {w = w} {s = s} (idles eh ew es) patient = rw (eh, ew, es, append-nil)
Move-in_order {h = h} {w = w} {s = s} (queues some_taken ew es) patient =
    rw (ew, es, append_assoc s w h)
Move-in_order {h = h} {s = s} (passes free ew es) (inl none_waits) =
    rw (ew, es, none_waits) (simp append-nil)
Move-in_order (passes free ew es) (inr (inl locked)) = cc
Move-in_order {s = s} (passes free ew es) (inr (inr none_taken)) =
    rw (ew, es, none_taken) (simp append-nil)
Move-in_order {s = s} {w' = w'} (sends f eh ew es) patient =
    rw (eh, ew, es, append-nil, append_assoc s (f ∷ []) w')
