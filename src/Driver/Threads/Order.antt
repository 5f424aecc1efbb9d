-- ===== src/Driver/Threads/Order.antt =====
-- One reader, one writer and the interrupt handler of source/linux_driver/*/can_pci.c, interleaved as
-- Driver.Threads lets them.
use mathlib.Core.List.{Perm}
use mathlib.Core.List.Perm
use linux_qemu.Base.{
  ℕ, ◌<◌, List, [], ◌∷◌, ◌++◌, append-nil, append_assoc, Option, Bool, true, ◌≡◌, sym, ap, ◌∙◌,
  arith, Ends, Ends-weaken, ◌-◌,
}
use linux_qemu.Frame.{CanFrame, Bus}
use linux_qemu.Driver.{CanDev}
use linux_qemu.Driver.Ring.{advance, queue, queue-pop}
use linux_qemu.Driver.Invariant.{IsValid, tx_queue, rx_queue}
use linux_qemu.Driver.Traffic.Moves.{Move, Move-perm}
use linux_qemu.Driver.Threads.{
  ReadPc, resting, found, copied, stepped, moved, WritePc, outside, admitted, filled, asked,
  counted, stored, read_step, System, Step, reads, writes, transmits, receives, drifts, Reach, here,
  later,
}
use linux_qemu.Driver.Threads.Rings.{RxInv, rx_view, TxInv, SameRx, SameTx}
use linux_qemu.Driver.Threads.Keeps.{
  read_step-keeps, write_step-keeps, transmit_keeps, receive_keeps,
}

pub RxInv-SameRx :
    (pc : ReadPc) (d d' : CanDev)
    → RxInv pc d
    → SameRx d d'
    → RxInv pc d' × (rx_view pc d' ≡ rx_view pc d)
RxInv-SameRx resting d d' v s = ground arith
RxInv-SameRx found d d' v s = ground arith
RxInv-SameRx (copied f) d d' v s = ground arith
RxInv-SameRx stepped d d' v s = ground arith
RxInv-SameRx moved d d' v s = ground arith

pub TxInv-SameTx :
    (pc : WritePc) (d d' : CanDev)
    → TxInv pc d
    → SameTx d d'
    → TxInv pc d' × (tx_queue d' ≡ tx_queue d)
TxInv-SameTx outside d d' v s = ground arith
TxInv-SameTx admitted d d' v s = ground arith
TxInv-SameTx (filled f) d d' v s = ground arith
TxInv-SameTx (asked f temp) d d' v s = ground arith
TxInv-SameTx counted d d' v s = ground arith
TxInv-SameTx stored d d' v s = ground arith

-- Nobody is under way, and nothing is logged.
pub record IsQuiet {S : Type 0} (x : System S) : Type 0 where
  pub valid : IsValid x.dev
  pub no_reader : x.reader ≡ resting
  pub no_writer : x.writer ≡ outside
  pub none_got : x.got ≡ []
  pub none_came : x.came ≡ []
  pub none_given : x.given ≡ []

module _ {S : Type 0} (rx0 tx0 : List CanFrame) where
  pub record Inv (x : System S) : Type 0 where
    pub rx : RxInv x.reader x.dev
    pub tx : TxInv x.writer x.dev
    pub fifo : x.got ++ rx_view x.reader x.dev ≡ rx0 ++ x.came
    pub conserved : Perm (x.controller.sent ++ tx_queue x.dev) (tx0 ++ x.given)

  module _ (word : ℕ) (bus : Bus S) (send : CanFrame → S → Option S)
      (receive : S → Option (CanFrame × S)) (big : 6 < word) where
    conserve :
        (given : List CanFrame) {h w s w' s' : List CanFrame}
        → Move true h w s w' s'
        → Perm (s ++ w) (tx0 ++ given)
        → Perm (s' ++ w') (tx0 ++ (given ++ h))
    conserve given {h} m p =
        rw (← append_assoc tx0 given h) (Perm.trans (Move-perm m) (Perm.append_right h p))

    pub Step-Inv : {x y : System S} → Step word bus send receive x y → Inv x → Inv y
    Step-Inv {x} (reads {d = d} {pc = pc} {h = h} failed e y) v =
        let (inv, view, same) = rw e at (read_step-keeps word failed x.dev x.reader big v.rx) in
        let (tx, kept) = TxInv-SameTx x.writer x.dev d v.tx same in
        let fifo : (x.got ++ h) ++ rx_view pc d ≡ rx0 ++ x.came =
          append_assoc x.got h (rx_view pc d) ∙ ap (λ q. x.got ++ q) (sym view) ∙ v.fifo in
        rw y (record { rx = inv; tx = tx; fifo = fifo; conserved = rw kept v.conserved })
    Step-Inv {x} (writes {d = d} {s = s} {pc = pc} {h = h} slot e y) v =
        let (inv, move, same) =
          write_step-keeps bus send word slot x.dev d x.controller s x.writer pc h big v.tx e in
        let (rx, view) = RxInv-SameRx x.reader x.dev d v.rx same in
        rw y (record {
          rx = rx;
          tx = inv;
          fifo = rw view v.fifo;
          conserved = conserve x.given move v.conserved;
        })
    Step-Inv {x} (transmits {d = d} {s = s} temp e y) v =
        let (inv, move, same) =
          transmit_keeps bus send temp x.dev d x.controller s x.writer v.tx e in
        let (rx, view) = RxInv-SameRx x.reader x.dev d v.rx same in
        let conserved = rw append-nil at (conserve x.given move v.conserved) in
        rw y (record { rx = rx; tx = inv; fifo = rw view v.fifo; conserved = conserved })
    Step-Inv {x} (receives {f = f} {t = t} {d = d} room took e y) v =
        let (inv, view, same) =
          receive_keeps receive x.dev d x.controller.controller t f x.reader v.rx room took e in
        let (tx, kept) = TxInv-SameTx x.writer x.dev d v.tx same in
        let fifo : x.got ++ rx_view x.reader d ≡ rx0 ++ (x.came ++ f ∷ []) =
          ap (λ q. x.got ++ q) view
          ∙ sym (append_assoc x.got (rx_view x.reader x.dev) (f ∷ []))
          ∙ ap (λ q. q ++ f ∷ []) v.fifo
          ∙ append_assoc rx0 x.came (f ∷ []) in
        rw y (record { rx = inv; tx = tx; fifo = fifo; conserved = rw kept v.conserved })
    Step-Inv {x} (drifts e y) v =
        rw y (record { rx = v.rx; tx = v.tx; fifo = v.fifo; conserved = rw e v.conserved })

    pub Reach-Inv : {x y : System S} → Reach word bus send receive x y → Inv x → Inv y
    Reach-Inv here v = v
    Reach-Inv (later run step) v = Step-Inv step (Reach-Inv run v)

pub quiet_start :
    {S : Type 0} (x : System S)
    → IsQuiet x
    → Inv (rx_queue x.dev) (x.controller.sent ++ tx_queue x.dev) x
quiet_start x q = record {
  rx = rw q.no_reader (ground (arith, q.valid));
  tx = rw q.no_writer (ground (arith, q.valid));
  fifo = rw (q.no_reader, q.none_got, q.none_came, append-nil (rx_queue x.dev));
  conserved = rw (q.none_given, append-nil) (Perm.refl (x.controller.sent ++ tx_queue x.dev));
}

-- A reader that has copied a frame has copied the oldest that it has not taken.
copied_oldest :
    (pc : ReadPc) (d : CanDev) (f : CanFrame)
    → RxInv pc d
    → pc ≡ copied f
    → (rest : List CanFrame) × (rx_view pc d ≡ f ∷ rest)
copied_oldest resting d f v e = absurd (cc)
copied_oldest found d f v e = absurd (cc)
copied_oldest (copied g) d f v e = (
  queue d.rx_buf (advance d.rx_out) (d.rx_count - 1),
  ground (arith, queue-pop d.rx_buf d.rx_out d.rx_count),
)
copied_oldest stepped d f v e = absurd (cc)
copied_oldest moved d f v e = absurd (cc)

-- The rings are well formed once both are through.
through : (d : CanDev) → RxInv resting d → TxInv outside d → IsValid d
through d v u = ground arith

module _ {S : Type 0} (word : ℕ) (bus : Bus S) (send : CanFrame → S → Option S)
    (receive : S → Option (CanFrame × S)) {x y : System S} (big : 6 < word) (quiet : IsQuiet x)
    (run : Reach word bus send receive x y) where
  reached : Inv (rx_queue x.dev) (x.controller.sent ++ tx_queue x.dev) y
  reached =
      Reach-Inv (rx_queue x.dev) (x.controller.sent ++ tx_queue x.dev) word bus send receive big run
        (quiet_start x quiet)

  -- From quiet well-formed rings, with one reader and one writer, the branches of the interrupt handler
  -- coming between their statements, but not inside the writer's send_message, and a size_t of more than
  -- six: the frames that the reader has taken, and those it has not, are in this order the frames that waited and those that came; a frame that the reader has
  -- copied to its caller is the next one that it takes.
  pub threads_in_order :
      (y.got ++ rx_view y.reader y.dev ≡ rx_queue x.dev ++ y.came)
      × ((f : CanFrame)
          → y.reader ≡ copied f
          → (rest : List CanFrame) × (rx_view y.reader y.dev ≡ f ∷ rest))
  threads_in_order = (reached.fifo, λ f. copied_oldest y.reader y.dev f reached.rx)

  -- From quiet well-formed rings, with one reader and one writer, the branches of the interrupt handler
  -- coming between their statements, but not inside the writer's send_message, and a size_t of more than
  -- six: the frames sent and those waiting to be sent are, up to their order, those sent and waiting at
  -- the start and those that the writer has taken over. So none is lost and none is sent twice, as long
  -- as no interrupt comes inside that send_message.
  pub threads_conserve :
      Perm (y.controller.sent ++ tx_queue y.dev) ((x.controller.sent ++ tx_queue x.dev) ++ y.given)
  threads_conserve = reached.conserved

  -- A reader's next statement never leaves its array, and takes from the front of the queue if it takes
  -- a frame; and whenever reader and writer are through, the rings are well formed.
  pub threads_keep :
      ((failed : Bool)
        → Ends
            (read_step word failed y.dev y.reader)
            (λ (d, pc, h). rx_view y.reader y.dev ≡ h ++ rx_view pc d))
      × (y.reader ≡ resting → y.writer ≡ outside → IsValid y.dev)
  threads_keep = (
    λ failed.
        Ends-weaken (read_step word failed y.dev y.reader) (λ r kept. kept.1)
          (read_step-keeps word failed y.dev y.reader big reached.rx),
    λ er ew. through y.dev (rw er at reached.rx) (rw ew at reached.tx),
  )
