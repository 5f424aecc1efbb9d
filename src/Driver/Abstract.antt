-- ===== src/Driver/Abstract.antt =====
-- The rings of struct can_dev in source/linux_driver/*/can_pci.h up to how they lie in their arrays: two
-- bounded queues.
pub mod Lift
pub mod Calls
use linux_qemu.Base.{
  ℕ, zero, suc, ◌+◌, ◌-◌, ◌%◌, ◌≤◌, ◌<◌, List, [], ◌∷◌, ◌++◌, append-nil, Option, none, some,
  Option-cases, inl, inr, Bool, ◌≡◌, refl, ap, ap₂, sym, ◌∙◌, arith, Ends, Ends-weaken, length,
  length-append, length-replicate, replicate, take, get_or,
}
use mathlib.Core.HLevel.{Σ_prop_path, Σ_set, prop→set}
use mathlib.Core.Quot
use native.Mathlib.Bridge.{le_prop}
use mathlib.Core.Quot.{Quot, Quot-set}
use mathlib.Core.Equiv.{IsEquiv, Iso, iso_to_equiv}
use linux_qemu.Base.Int.{ℤ}
use linux_qemu.Frame.{CanFrame, zero_frame}
use linux_qemu.Driver.{CanDev, device_read}
use linux_qemu.Driver.Fifo
use linux_qemu.Driver.Ring.{advance, queue, length-queue}
use linux_qemu.Driver.Invariant.{IsRing, IsValid, rx_queue, tx_queue, device_read_refines}

-- A queue of at most six frames.
abbrev pub Bounded : Type 0
Bounded = (q : List CanFrame) × (length q ≤ 6)

abbrev pub Rings : Type 0
Rings = (d : CanDev) × IsValid d

-- The same frames wait, in the same order.
abbrev pub SameFrames : Rings → Rings → Type 0
SameFrames x y = (rx_queue x.0 ≡ rx_queue y.0) × (tx_queue x.0 ≡ tx_queue y.0)

-- The device, without its indices and without what its free slots hold.
abbrev pub Device : Type 0
Device = Quot SameFrames

CanFrame-set : IsSet CanFrame
CanFrame-set = hlevel

pub Bounded-set : IsSet Bounded
Bounded-set = Σ_set (hlevel) (λ q. prop→set le_prop)

Bounded-ext : (a b : Bounded) → a.0 ≡ b.0 → a ≡ b
Bounded-ext a b h = Σ_prop_path (λ q. le_prop) h

-- A ring that holds the frames from its first slot on.
abbrev slots : List CanFrame → List CanFrame
slots q = q ++ replicate (6 - length q) zero_frame

queue-slots : (q : List CanFrame) → length q ≤ 6 → queue (slots q) 0 (length q) ≡ q
unfolding queue
queue-slots [] h = refl
queue-slots (a ∷ []) h = refl
queue-slots (a ∷ b ∷ []) h = refl
queue-slots (a ∷ b ∷ c ∷ []) h = refl
queue-slots (a ∷ b ∷ c ∷ d ∷ []) h = refl
queue-slots (a ∷ b ∷ c ∷ d ∷ e ∷ []) h = refl
queue-slots (a ∷ b ∷ c ∷ d ∷ e ∷ f ∷ []) h = refl
queue-slots (a ∷ b ∷ c ∷ d ∷ e ∷ f ∷ g ∷ q) h = absurd (omega arith)

slots-IsRing : (q : List CanFrame) → length q ≤ 6 → IsRing (slots q) (length q) (length q % 6) 0
slots-IsRing q h = record {
  six = omega (
    arith,
    length-append q (replicate (6 - length q) zero_frame),
    length-replicate (6 - length q) zero_frame,
  );
  out_in = omega arith;
  count_in = h;
  in_after = omega arith;
}

-- Rings in which given frames wait.
abbrev rings_of : Bounded × Bounded → Rings
rings_of (r, t) = (
  record {
    tx_buf = slots t.0;
    tx_count = length t.0;
    tx_in = length t.0 % 6;
    tx_out = 0;
    rx_buf = slots r.0;
    rx_count = length r.0;
    rx_in = length r.0 % 6;
    rx_out = 0;
  },
  record { tx = slots-IsRing t.0 t.1; rx = slots-IsRing r.0 r.1 },
)

pub queues_of : Rings → Bounded × Bounded
queues_of (d, v) = (
  (rx_queue d, omega (arith, length-queue d.rx_buf d.rx_out d.rx_count, v.rx.count_in)),
  (tx_queue d, omega (arith, length-queue d.tx_buf d.tx_out d.tx_count, v.tx.count_in)),
)

pub SameFrames-queues_of : (x y : Rings) → SameFrames x y → queues_of x ≡ queues_of y
unfolding queues_of
SameFrames-queues_of x y (rx, tx) =
    ap₂ (λ r t. (r, t)) (Bounded-ext (queues_of x).0 (queues_of y).0 rx)
      (Bounded-ext (queues_of x).1 (queues_of y).1 tx)

-- The two queues of an abstract device.
pub queues : Device → Bounded × Bounded
queues = Quot.lift (Σ_set Bounded-set (λ r. Bounded-set)) queues_of SameFrames-queues_of

queues-rings_of : (p : Bounded × Bounded) → queues_of (rings_of p) ≡ p
unfolding queues_of
queues-rings_of p =
    ap₂ (λ r t. (r, t)) (Bounded-ext (queues_of (rings_of p)).0 p.0 (queue-slots p.0.0 p.0.1))
      (Bounded-ext (queues_of (rings_of p)).1 p.1 (queue-slots p.1.0 p.1.1))

Device-Iso : Iso Device (Bounded × Bounded)
unfolding queues queues_of
Device-Iso = record {
  fun = queues;
  inv = λ p. Quot.mk (rings_of p);
  rinv = queues-rings_of;
  linv =
      Quot.ind (λ x. Quot-set _ _)
        (λ x. Quot.sound (queue-slots _ (queues_of x).0.1, queue-slots _ (queues_of x).1.1));
}

pub queues-IsEquiv : IsEquiv queues
unfolding queues queues_of Device-Iso
queues-IsEquiv = (iso_to_equiv Device-Iso).1
