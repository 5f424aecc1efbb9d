-- ===== src/Driver/Abstract/Calls.antt =====
-- device_read and device_write of source/linux_driver/*/can_pci.c on the abstract device: two bounded queues.
use linux_qemu.Base.{
  ℕ, List, Option, some, ◌>>=◌, Bool, ◌≡◌, ap, Ends, Ends-bind, Ends-regroup, bit_and, ◌==◌,
}
use mathlib.Core.Quot
use mathlib.Core.Equiv.{IsEquiv}
use mathlib.Core.HLevel.{Σ_set}
use linux_qemu.Base.Int.{ℤ}
use linux_qemu.Frame.{CanFrame, Bus}
use linux_qemu.Driver.{CanDev, device_read, device_write}
use linux_qemu.Driver.Fifo
use linux_qemu.Driver.Invariant.{
  IsValid, rx_queue, tx_queue, device_read_refines, device_write_refines,
}
use linux_qemu.Driver.Abstract.{Rings, Device, queues, queues-IsEquiv}
use linux_qemu.Driver.Abstract.Lift.{lifted, lifted_lem, lifted-mk}

answers_set : IsSet (ℤ × Option CanFrame)
answers_set = hlevel

module _ (count : ℕ) (failed : Bool) where
  read_op : CanDev → Option ((ℤ × Option CanFrame) × CanDev)
  read_op d = do (ret, out, d') ← device_read count failed d; some ((ret, out), d')

  read_spec : List CanFrame → List CanFrame → (ℤ × Option CanFrame) × List CanFrame × List CanFrame
  read_spec rx tx = let (ret, out, q) = Fifo.read count failed rx in ((ret, out), q, tx)

  read_op-refines :
      (d : CanDev)
      → IsValid d
      → Ends (read_op d) (λ (a, d').
        ((a, rx_queue d', tx_queue d') ≡ read_spec (rx_queue d) (tx_queue d)) × IsValid d')
  unfolding read_op read_spec
  read_op-refines d v =
      Ends-bind (device_read count failed d) _ _ (device_read_refines count failed d v)
        (λ (ret, out, d') (e, t, w). (rw t (ap (λ r. ((r.0, r.1), r.2, tx_queue d)) e), w))

  pub read_device : Device → (ℤ × Option CanFrame) × Device
  read_device = lifted answers_set read_op read_spec read_op-refines

module _ {S : Type 0} (set : IsSet S) (bus : Bus S) (send : CanFrame → S → Option S) (count : ℕ)
    (slot : CanFrame) (failed : Bool) (s sent : S)
    (sends : send slot (bus.read8 s 2).1 ≡ some sent) where
  write_op : CanDev → Option ((ℤ × S) × CanDev)
  write_op d = do (ret, d', s') ← device_write bus send count slot failed d s; some ((ret, s'), d')

  write_spec : List CanFrame → List CanFrame → (ℤ × S) × List CanFrame × List CanFrame
  write_spec rx tx =
      let (ret, q, s') =
        Fifo.write count slot failed (bit_and (bus.read8 s 2).0 4 == 4) s (bus.read8 s 2).1 sent
          tx in
      ((ret, s'), rx, q)

  write_op-refines :
      (d : CanDev)
      → IsValid d
      → Ends (write_op d) (λ (a, d').
        ((a, rx_queue d', tx_queue d') ≡ write_spec (rx_queue d) (tx_queue d)) × IsValid d')
  unfolding write_op write_spec
  write_op-refines d v =
      Ends-bind (device_write bus send count slot failed d s) _ _
        (device_write_refines bus send count slot failed d s v sends)
        (λ (ret, d', s') (e, r, w). (rw r (ap (λ t. ((t.0, t.2), rx_queue d, t.1)) e), w))

  pub write_device : Device → (ℤ × S) × Device
  write_device = lifted (Σ_set (hlevel) (λ r. set)) write_op write_spec write_op-refines

-- Up to where the frames lie in their arrays, the well-formed rings of a device are exactly two queues of at
-- most six frames. device_read, and device_write where the frame can be sent and the states of the controller
-- form a set, are operations on that: their answers and the frames that then wait depend on the queues alone, and are those of a bounded queue's read and
-- write; the other queue stays.
pub device_queues :
    {S : Type 0} (set : IsSet S) (bus : Bus S) (send : CanFrame → S → Option S) (count : ℕ)
    (slot : CanFrame) (failed : Bool) (s sent : S) (sends : send slot (bus.read8 s 2).1 ≡ some sent)
    → IsEquiv queues
      × ((x : Rings)
          → Ends (device_read count failed x.0) (λ (ret, out, d).
            (v : IsValid d) × (read_device count failed (Quot.mk x)
              ≡ ((ret, out), Quot.mk (d, v)))))
      × ((q : Device)
          → let ((ret, out), q') = read_device count failed q in
            ((ret, out, (queues q').0.0) ≡ Fifo.read count failed (queues q).0.0)
            × ((queues q').1.0 ≡ (queues q).1.0))
      × ((x : Rings)
          → Ends (device_write bus send count slot failed x.0 s) (λ (ret, d, s').
            (v : IsValid d) × (write_device set bus send count slot failed s sent sends (Quot.mk x)
              ≡ ((ret, s'), Quot.mk (d, v)))))
      × ((q : Device)
          → let ((ret, s'), q') = write_device set bus send count slot failed s sent sends q in
            ((ret, (queues q').1.0, s')
              ≡ Fifo.write count slot failed
                  (bit_and (bus.read8 s 2).0 4 == 4)
                  s
                  (bus.read8 s 2).1
                  sent
                  (queues q).1.0)
            × ((queues q').0.0 ≡ (queues q).0.0))
unfolding read_device write_device read_spec write_spec read_op write_op
device_queues set bus send count slot failed s sent sends =
    let reads = read_op-refines count failed in
    let writes = write_op-refines set bus send count slot failed s sent sends in
    let reading = read_spec count failed in
    let writing = write_spec set bus send count slot failed s sent sends in
    let pair_set = Σ_set (hlevel) (λ r. set) in
    let read = read_op count failed in
    let write = write_op set bus send count slot failed s sent sends in
    (
      queues-IsEquiv,
      λ x.
          Ends-regroup (device_read count failed x.0) (λ (ret, out, d). ((ret, out), d)) _
            (lifted-mk answers_set read reading reads x),
      λ q.
          let e = lifted_lem answers_set read reading reads q in
          (ap (λ r. (r.0.0, r.0.1, r.1)) e, ap (λ r. r.2) e),
      λ x.
          Ends-regroup (device_write bus send count slot failed x.0 s)
            (λ (ret, d, s'). ((ret, s'), d)) _ (lifted-mk pair_set write writing writes x),
      λ q.
          let e = lifted_lem pair_set write writing writes q in
          (ap (λ r. (r.0.0, r.2, r.0.1)) e, ap (λ r. r.1) e),
    )
