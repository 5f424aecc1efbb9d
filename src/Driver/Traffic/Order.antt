-- ===== src/Driver/Traffic/Order.antt =====
-- What becomes of the frames handed to a driver of source/linux_driver, over any run.
use mathlib.Core.List.{Perm}
use mathlib.Core.List.Perm
use linux_qemu.Base.{
  List, ◌++◌, append-nil, append_assoc, Option, ◌≡◌, inl, inr, refl, ap, ◌∙◌, arith,
}
use linux_qemu.Frame.{CanFrame, Bus}
use linux_qemu.Driver.{CanDev}
use linux_qemu.Driver.Ring.{queue}
use linux_qemu.Driver.Invariant.{IsValid, tx_queue}
use linux_qemu.Driver.Traffic.{
  Logged, Step, Run, writes, reads, transmits, receives, drifts, done, next, Patient, IsPatient,
}
use linux_qemu.Driver.Traffic.Moves.{Step-moves, Move-perm, Move-in_order}

module _ {S : Type 0} (bus : Bus S) (send : CanFrame → S → Option S)
    (receive : S → Option (CanFrame × S)) where
  -- Over any run of a driver with well-formed rings, none of whose operations faults, no frame is
  -- lost and none is sent twice: the frames sent and those waiting at its end are, up to their
  -- order, those sent and waiting before it and those that the writes took over.
  pub run_conserves :
      {d d' : CanDev} {s s' : Logged S} {h : List CanFrame}
      → Run bus send receive d s h d' s'
      → IsValid d
      → Perm (s'.sent ++ tx_queue d') ((s.sent ++ tx_queue d) ++ h)
  run_conserves {d} {s = s} done v = rw append-nil (Perm.refl (s.sent ++ tx_queue d))
  run_conserves {d} {s = s} (next {h = h} {hs = hs} step run e) v =
      let (move, v1) = Step-moves bus send receive step v in
      rw (e, ← append_assoc (s.sent ++ tx_queue d) h hs)
        (Perm.trans (run_conserves run v1) (Perm.append_right hs (Move-perm move)))

  in_order-Step :
      {d d' : CanDev} {s s' : Logged S} {h : List CanFrame}
      (step : Step bus send receive d s h d' s')
      → IsValid d
      → Patient bus send receive step
      → s'.sent ++ tx_queue d' ≡ (s.sent ++ tx_queue d) ++ h
  unfolding queue
  in_order-Step {d} {s = s} (writes count slot failed e t) v (inl none_waits) =
      Move-in_order (Step-moves bus send receive {s = s} (writes count slot failed e t) v).0
        (inl (ground arith))
  in_order-Step {d} {s = s} (writes count slot failed e t) v (inr locked) =
      Move-in_order (Step-moves bus send receive {s = s} (writes count slot failed e t) v).0
        (inr (inl locked))
  in_order-Step {s = s} (reads count failed e) v p =
      Move-in_order (Step-moves bus send receive {s = s} (reads count failed e) v).0
        (inr (inr refl))
  in_order-Step {s = s} (transmits temp e) v p =
      Move-in_order (Step-moves bus send receive {s = s} (transmits temp e) v).0 (inr (inr refl))
  in_order-Step {s = s} (receives room e) v p =
      Move-in_order (Step-moves bus send receive {s = s} (receives room e) v).0 (inr (inr refl))
  in_order-Step {d} {s = s} (drifts e) v p = rw (e, append-nil)

  -- If no write of the run finds the controller's buffer free while frames wait, the frames are
  -- sent in the order in which they were handed over: those sent and those waiting at the end are,
  -- in this order, those sent and waiting before and those that the writes took over.
  pub run_in_order :
      {d d' : CanDev} {s s' : Logged S} {h : List CanFrame} (run : Run bus send receive d s h d' s')
      → IsValid d
      → IsPatient bus send receive run
      → s'.sent ++ tx_queue d' ≡ (s.sent ++ tx_queue d) ++ h
  run_in_order {d} {s = s} done v p = rw append-nil
  run_in_order {d} {s = s} (next {h = h} {hs = hs} step run e) v p =
      let (move, v1) = Step-moves bus send receive step v in
      rw (e, ← append_assoc (s.sent ++ tx_queue d) h hs)
        (run_in_order run v1 p.1 ∙ ap (λ q. q ++ hs) (in_order-Step step v p.0))
