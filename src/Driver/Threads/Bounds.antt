-- ===== src/Driver/Threads/Bounds.antt =====
-- The statements of Driver.Threads, interleaved, stay inside their arrays and wrap no count.
use linux_qemu.Base.{
  ℕ, [], ◌∷◌, ◌⊎◌, refl, ◌++◌, ◌≤◌, ◌<◌, Option, none, some, Option-cases, inl, inr, Bool, ◌≡◌,
  arith, Ends, length, get_or, get_elem?-eq-get_or,
}
use linux_qemu.Frame.{CanFrame, Bus, zero_frame}
use linux_qemu.Driver.{CanDev, irq_transmit, irq_receive}
use linux_qemu.Driver.Invariant.{rx_queue, tx_queue}
use linux_qemu.Driver.Traffic.{Logged, logged_bus, logged_send}
use linux_qemu.Driver.Threads.{
  ReadPc, resting, found, copied, stepped, moved, WritePc, outside, admitted, filled, asked,
  counted, stored, read_step, write_step, System, Reach,
}
use linux_qemu.Driver.Threads.Rings.{RxInv, TxInv}
use linux_qemu.Driver.Threads.Order.{IsQuiet, Reach-Inv, quiet_start}

-- One more than the largest index that the reader leaves at each place: 6 stands between rx_out++ and
-- its reset alone. The same for the writer's.
abbrev pub out_limit : ReadPc → ℕ
out_limit resting = 6
out_limit found = 6
out_limit (copied f) = 6
out_limit stepped = 7
out_limit moved = 6

abbrev pub in_limit : WritePc → ℕ
in_limit outside = 6
in_limit admitted = 6
in_limit (filled f) = 6
in_limit (asked f temp) = 6
in_limit counted = 6
in_limit stored = 7

-- Indices inside the arrays, but where they wait to be set back, and counts that their rings hold.
pub record InBounds (reader : ReadPc) (writer : WritePc) (d : CanDev) : Type 0 where
  pub rx_size : length d.rx_buf ≡ 6
  pub tx_size : length d.tx_buf ≡ 6
  pub rx_next : d.rx_in < 6
  pub rx_oldest : d.rx_out < out_limit reader
  pub tx_next : d.tx_in < in_limit writer
  pub tx_oldest : d.tx_out < 6
  pub rx_fits : d.rx_count ≤ 6
  pub tx_fits : d.tx_count ≤ 6

RxInv-fits : (pc : ReadPc) (d : CanDev) → RxInv pc d → d.rx_count ≤ 6
RxInv-fits resting d v = v.reading
RxInv-fits found d v = v.reading.1
RxInv-fits (copied f) d v = v.reading.1
RxInv-fits stepped d v = v.reading.1
RxInv-fits moved d v = v.reading.1

TxInv-inside : (pc : WritePc) (d : CanDev) → TxInv pc d → d.tx_in < in_limit pc
TxInv-inside outside d v = omega (arith, v.ring)
TxInv-inside admitted d v = omega (arith, v.ring)
TxInv-inside (filled f) d v = omega (arith, v.ring)
TxInv-inside (asked f temp) d v = omega (arith, v.ring)
TxInv-inside counted d v = v.writing
TxInv-inside stored d v = omega (arith, v.writing)

RxInv-inside : (pc : ReadPc) (d : CanDev) → RxInv pc d → d.rx_out < out_limit pc
RxInv-inside resting d v = v.ring.out_in
RxInv-inside found d v = v.ring.out_in
RxInv-inside (copied f) d v = v.ring.out_in
RxInv-inside stepped d v = omega (arith, v.reading)
RxInv-inside moved d v = v.ring.out_in

Inv-InBounds : {x : ReadPc} {y : WritePc} (d : CanDev) → RxInv x d → TxInv y d → InBounds x y d
Inv-InBounds {x} {y} d rx tx = record {
  rx_size = rx.ring.six;
  tx_size = tx.ring.six;
  rx_next = omega (arith, rx.ring);
  rx_oldest = RxInv-inside x d rx;
  tx_next = TxInv-inside y d tx;
  tx_oldest = tx.ring.out_in;
  rx_fits = RxInv-fits x d rx;
  tx_fits = tx.ring.count_in;
}

read_step-ends :
    (word : ℕ) (failed : Bool) (d : CanDev) (pc : ReadPc) (writer : WritePc)
    → InBounds pc writer d
    → Ends (read_step word failed d pc) (λ x. Unit {0})
unfolding read_step
read_step-ends word failed d resting writer v = ground arith
read_step-ends word failed d found writer v =
    ground (arith, get_elem?-eq-get_or d.rx_buf d.rx_out zero_frame)
read_step-ends word failed d (copied f) writer v = ground arith
read_step-ends word failed d stepped writer v = ground arith
read_step-ends word failed d moved writer v = ground arith

module _ {S : Type 0} (bus : Bus S) (send : CanFrame → S → Option S) where
  -- A frame that the controller takes is taken, and listed.
  logged_send-cases :
      (f : CanFrame) (s : Logged S)
      → (send f s.controller ≡ none) ⊎ ((t : Logged S) × (logged_send bus send f s ≡ some t))
  logged_send-cases f s = elim (Option-cases (send f s.controller)) [
    | inl n ↦ inl n
    | inr (t, e) ↦ inr (record { controller = t; sent = s.sent ++ f ∷ [] }, rw e refl)
  ]

  write_step-ends :
      (word : ℕ) (slot : CanFrame) (d : CanDev) (s : Logged S) (reader : ReadPc) (pc : WritePc)
      → InBounds reader pc d
      → (send (get_or d.tx_buf d.tx_in zero_frame) s.controller ≡ none)
        ⊎ Ends
            (write_step (logged_bus bus send) (logged_send bus send) word slot d s pc)
            (λ x. Unit {0})
  unfolding write_step
  write_step-ends word slot d s reader outside v = inr (ground arith)
  write_step-ends word slot d s reader admitted v = inr (ground (arith, v))
  write_step-ends word slot d s reader (filled f) v = inr (ground arith)
  write_step-ends word slot d s reader (asked f temp) v =
      let g = get_or d.tx_buf d.tx_in zero_frame in
      let here = get_elem?-eq-get_or d.tx_buf d.tx_in zero_frame (ground (arith, v)) in
      elim (logged_send-cases g s) [ inl n ↦ inl n | inr (t, m) ↦ inr (ground (arith, here, m)) ]
  write_step-ends word slot d s reader counted v = inr (ground arith)
  write_step-ends word slot d s reader stored v = inr (ground arith)

  irq_transmit-ends :
      (temp : ℕ) (d : CanDev) (s : Logged S) (reader : ReadPc) (writer : WritePc)
      → InBounds reader writer d
      → (send (get_or d.tx_buf d.tx_out zero_frame) s.controller ≡ none)
        ⊎ Ends (irq_transmit (logged_bus bus send) (logged_send bus send) temp d s) (λ x. Unit {0})
  unfolding irq_transmit
  irq_transmit-ends temp d s reader writer v =
      let g = get_or d.tx_buf d.tx_out zero_frame in
      let here = get_elem?-eq-get_or d.tx_buf d.tx_out zero_frame (ground (arith, v)) in
      elim (logged_send-cases g s) [ inl n ↦ inl n | inr (t, m) ↦ inr (ground (arith, here, m)) ]

irq_receive-ends :
    {S : Type 0} (receive : S → Option (CanFrame × S)) (d : CanDev) (s : S) (reader : ReadPc)
    (writer : WritePc)
    → InBounds reader writer d
    → (receive s ≡ none) ⊎ Ends (irq_receive receive d s) (λ x. Unit {0})
unfolding irq_receive
irq_receive-ends receive d s reader writer v = elim (Option-cases (receive s)) [
  | inl n ↦ inl n
  | inr (x, m) ↦ inr (ground (arith, m, v))
]

-- From quiet well-formed rings, with a size_t of more than six, one reader and one writer, the branches of the
-- interrupt handler coming between their statements, but not inside the writer's send_message: the arrays have
-- their six slots, and no count is above six, so that none has wrapped. Every index is inside its array, but for
-- rx_out between rx_out++ and its reset and tx_in between tx_in++ and its reset, which may be 6 there. Whichever
-- statement comes next, of the reader, of the writer, or of either branch of the handler, is defined, unless it is
-- one in which the frame at hand cannot be sent or received.
pub Reach-InBounds :
    {S : Type 0} (word : ℕ) (bus : Bus S) (send : CanFrame → S → Option S)
    (receive : S → Option (CanFrame × S)) {x y : System S}
    → 6 < word
    → IsQuiet x
    → Reach word bus send receive x y
    → InBounds y.reader y.writer y.dev
      × ((failed : Bool) → Ends (read_step word failed y.dev y.reader) (λ t. Unit {0}))
      × ((slot : CanFrame)
          → (send (get_or y.dev.tx_buf y.dev.tx_in zero_frame) y.controller.controller ≡ none)
            ⊎ Ends
                (write_step
                  (logged_bus bus send)
                  (logged_send bus send)
                  word
                  slot
                  y.dev
                  y.controller
                  y.writer)
                (λ t. Unit {0}))
      × ((temp : ℕ)
          → (send (get_or y.dev.tx_buf y.dev.tx_out zero_frame) y.controller.controller ≡ none)
            ⊎ Ends
                (irq_transmit (logged_bus bus send) (logged_send bus send) temp y.dev y.controller)
                (λ t. Unit {0}))
      × ((receive y.controller.controller ≡ none)
          ⊎ Ends (irq_receive receive y.dev y.controller.controller) (λ t. Unit {0}))
Reach-InBounds word bus send receive {x} {y} big quiet run =
    let inv =
      Reach-Inv (rx_queue x.dev) (x.controller.sent ++ tx_queue x.dev) word bus send receive big run
        (quiet_start x quiet) in
    let v = Inv-InBounds y.dev inv.rx inv.tx in
    (
      v,
      λ failed. read_step-ends word failed y.dev y.reader y.writer v,
      λ slot. write_step-ends bus send word slot y.dev y.controller y.reader y.writer v,
      λ temp. irq_transmit-ends bus send temp y.dev y.controller y.reader y.writer v,
      irq_receive-ends receive y.dev y.controller.controller y.reader y.writer v,
    )
