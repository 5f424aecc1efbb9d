-- ===== src/Driver/Threads/Atomic.antt =====
-- The interleaved statements of Driver.Threads act like operations on two queues, each of which takes
-- effect at one moment.
use linux_qemu.Base.{
  get_or, get_elem?-eq-get_or, bit_and, Bool-cases, Option-cases, ◌==◌, ◌-◌, ℕ, ◌<◌, List, [], ◌∷◌,
  ◌++◌, append-nil, Option, some, Bool, false, ◌≡◌, ◌⊎◌, inl, inr, refl, arith, length,
}
use linux_qemu.Frame.{CanFrame, Bus, zero_frame}
use linux_qemu.Driver.{CanDev, buffer_size}
use linux_qemu.Driver.Ring.{length-queue}
use linux_qemu.Driver.Invariant.{tx_queue, rx_queue}
use linux_qemu.Driver.Traffic.{Logged, logged_bus, logged_send}
use linux_qemu.Driver.Threads.{
  ReadPc, resting, found, copied, stepped, moved, WritePc, outside, admitted, filled, asked,
  counted, stored, read_step, write_step, System, Step, reads, writes, transmits, receives, drifts,
  Reach, here, later,
}
use linux_qemu.Driver.Threads.Rings.{wrapped, RxInv, rx_view, TxInv}
use linux_qemu.Driver.Threads.Queues.{
  Queues, Act, rests, arrives, Acts, still, more, pop-Act, Move-Act,
}
use linux_qemu.Driver.Threads.Keeps.{
  read_step-keeps, write_step-keeps, transmit_keeps, receive_keeps,
}
use linux_qemu.Driver.Threads.Order.{
  RxInv-SameRx, TxInv-SameTx, IsQuiet, Inv, Step-Inv, quiet_start,
}

read_step-short :
    (word : ℕ) (failed : Bool) (d d' : CanDev) (pc pc' : ReadPc) (h : List CanFrame)
    → read_step word failed d pc ≡ some (d', pc', h)
    → (h ≡ []) ⊎ ((f : CanFrame) × (h ≡ f ∷ []))
unfolding read_step
read_step-short word failed d d' resting pc' h e = inl (ground arith)
read_step-short word failed d d' found pc' h e = inl (ground arith)
read_step-short word failed d d' (copied f) pc' h e = inr (f, ground arith)
read_step-short word failed d d' stepped pc' h e = inl (ground arith)
read_step-short word failed d d' moved pc' h e = inl (ground arith)

-- The abstract queues: a frame is in them until the reader has moved past it, and as soon as it is counted.
abbrev pub view : {S : Type 0} → System S → Queues
view x = record {
  rx = rx_view x.reader x.dev;
  tx = tx_queue x.dev;
  sent = x.controller.sent;
  got = x.got;
  came = x.came;
  given = x.given;
}

asked_takes :
    {S : Type 0} (bus : Bus S) (send : CanFrame → S → Option S) (word : ℕ) (slot : CanFrame)
    (d d' : CanDev) (s s' : Logged S) (f : CanFrame) (temp : ℕ) (pc' : WritePc) (h : List CanFrame)
    → length d.tx_buf ≡ 6
    → d.tx_in < 6
    → write_step (logged_bus bus send) (logged_send bus send) word slot d s (asked f temp)
      ≡ some (d', s', pc', h)
    → h ≡ f ∷ []
unfolding write_step
asked_takes bus send word slot d d' s s' f temp pc' h six inside e =
    let g = get_or d.tx_buf d.tx_in zero_frame in
    let here = get_elem?-eq-get_or d.tx_buf d.tx_in zero_frame in
    elim (Bool-cases (bit_and temp 4 == 4)) [
      | inr locked ↦ ground (arith, locked)
      | inl free ↦ elim (Option-cases (send g s.controller)) [
        | inl n ↦ absurd (ground (arith, free, here, n))
        | inr (t, m) ↦ ground (arith, free, here, m)
      ]
    ]

write_step-short :
    {S : Type 0} (bus : Bus S) (send : CanFrame → S → Option S) (word : ℕ) (slot : CanFrame)
    (d d' : CanDev) (s s' : Logged S) (pc pc' : WritePc) (h : List CanFrame)
    → TxInv pc d
    → write_step (logged_bus bus send) (logged_send bus send) word slot d s pc
      ≡ some (d', s', pc', h)
    → (h ≡ []) ⊎ ((f : CanFrame) × (h ≡ f ∷ []) × (length (tx_queue d) < 6))
unfolding write_step
write_step-short bus send word slot d d' s s' outside pc' h v e = inl (ground arith)
write_step-short bus send word slot d d' s s' admitted pc' h v e = inl (ground arith)
write_step-short bus send word slot d d' s s' (filled f) pc' h v e = inl (ground arith)
write_step-short bus send word slot d d' s s' (asked f temp) pc' h v e =
    let inside : d.tx_in < 6 = ground (arith, v) in
    inr (
      f,
      asked_takes bus send word slot d d' s s' f temp pc' h v.ring.six inside e,
      omega (arith, v.writing, length-queue d.tx_buf d.tx_out d.tx_count),
    )
write_step-short bus send word slot d d' s s' counted pc' h v e = inl (ground arith)
write_step-short bus send word slot d d' s s' stored pc' h v e = inl (ground arith)

rx_room :
    (pc : ReadPc) (d : CanDev)
    → RxInv pc d
    → (d.rx_count == buffer_size) ≡ false
    → length (rx_view pc d) < 6
rx_room resting d v room = ground (arith, length-queue d.rx_buf d.rx_out d.rx_count)
rx_room found d v room = ground (arith, length-queue d.rx_buf d.rx_out d.rx_count)
rx_room (copied f) d v room = ground (arith, length-queue d.rx_buf d.rx_out d.rx_count)
rx_room stepped d v room = ground (arith, length-queue d.rx_buf (wrapped d.rx_out) (d.rx_count - 1))
rx_room moved d v room = ground (arith, length-queue d.rx_buf d.rx_out (d.rx_count - 1))

module _ {S : Type 0} (word : ℕ) (bus : Bus S) (send : CanFrame → S → Option S)
    (receive : S → Option (CanFrame × S)) (rx0 tx0 : List CanFrame) (big : 6 < word) where
  Step-Act :
      {x y : System S} → Step word bus send receive x y → Inv rx0 tx0 x → Act (view x) (view y)
  Step-Act {x} (reads {d = d} {pc = pc} {h = h} failed e y) v =
      let (inv, shown, same) = rw e at (read_step-keeps word failed x.dev x.reader big v.rx) in
      let (tx, kept) = TxInv-SameTx x.writer x.dev d v.tx same in
      rw (y, kept)
        (pop-Act (view x) h (rx_view pc d) shown
          (read_step-short word failed x.dev d x.reader pc h e))
  Step-Act {x} (writes {d = d} {s = s} {pc = pc} {h = h} slot e y) v =
      let (inv, move, same) =
        write_step-keeps bus send word slot x.dev d x.controller s x.writer pc h big v.tx e in
      let (rx, shown) = RxInv-SameRx x.reader x.dev d v.rx same in
      rw (y, shown)
        (Move-Act (view x) move
          (write_step-short bus send word slot x.dev d x.controller s x.writer pc h v.tx e))
  Step-Act {x} (transmits {d = d} {s = s} temp e y) v =
      let (inv, move, same) = transmit_keeps bus send temp x.dev d x.controller s x.writer v.tx e in
      let (rx, shown) = RxInv-SameRx x.reader x.dev d v.rx same in
      rw (y, shown) (rw append-nil at (Move-Act (view x) move (inl refl)))
  Step-Act {x} (receives {f = f} {t = t} {d = d} room took e y) v =
      let (inv, shown, same) =
        receive_keeps receive x.dev d x.controller.controller t f x.reader v.rx room took e in
      let (tx, kept) = TxInv-SameTx x.writer x.dev d v.tx same in
      rw (y, kept, shown) (arrives f (rx_room x.reader x.dev v.rx room) refl)
  Step-Act {x} (drifts e y) v = rw (y, e) (rests refl)

  Reach-Acts :
      {x y : System S}
      → Reach word bus send receive x y
      → Inv rx0 tx0 x
      → Acts (view x) (view y) × Inv rx0 tx0 y
  Reach-Acts here v = (still, v)
  Reach-Acts (later run step) v =
      let (acts, w) = Reach-Acts run v in
      (more acts (Step-Act step w), Step-Inv rx0 tx0 word bus send receive big step w)

quiet_view : {S : Type 0} (x : System S) → IsQuiet x → (view x).rx ≡ rx_queue x.dev
quiet_view x q = rw q.no_reader refl

-- From quiet well-formed rings, with one reader and one writer, the branches of the interrupt handler coming
-- between their statements, but not inside the writer's send_message, and a size_t of more than six: the run acts on two queues of at most six frames as a sequence of
-- whole operations. A read takes the oldest received frame, a received frame and a written one go to the
-- end of a queue that has room, a written one may instead be sent at once, and the handler sends the
-- oldest written one. At the start the queues are the frames that wait in the rings, and wherever the
-- reader is through they are that again.
pub Reach-atomic :
    {S : Type 0} (word : ℕ) (bus : Bus S) (send : CanFrame → S → Option S)
    (receive : S → Option (CanFrame × S)) {x y : System S}
    → 6 < word
    → IsQuiet x
    → Reach word bus send receive x y
    → Acts (view x) (view y)
      × ((view x).rx ≡ rx_queue x.dev)
      × (y.reader ≡ resting → (view y).rx ≡ rx_queue y.dev)
Reach-atomic word bus send receive {x} {y} big quiet run = (
  (Reach-Acts word bus send receive (rx_queue x.dev) (x.controller.sent ++ tx_queue x.dev) big run
      (quiet_start x quiet)).0,
  quiet_view x quiet,
  λ through. rw through refl,
)
