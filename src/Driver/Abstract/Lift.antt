-- ===== src/Driver/Abstract/Lift.antt =====
-- An operation on the rings of struct can_dev that acts on the two queues of waiting frames is an operation on
-- the abstract device.
use linux_qemu.Base.{List, Option, none, some, ◌≡◌, refl, ◌∙◌, sym, ap, ap₂, Ends, Ends-weaken}
use mathlib.Core.HLevel.{Σ_set}
use mathlib.Core.Quot
use mathlib.Core.Quot.{Quot-set}
use linux_qemu.Frame.{CanFrame}
use linux_qemu.Driver.{CanDev}
use linux_qemu.Driver.Invariant.{IsValid, rx_queue, tx_queue}
use linux_qemu.Driver.Abstract.{Rings, SameFrames, Device, queues_of, queues}

-- The outcome of a call that ends in well-formed rings.
ended : {A : Type 0} (o : Option (A × CanDev)) → Ends o (λ (a, d). IsValid d) → A × Rings
ended none ends = elim ends [ ]
ended (some (a, d)) v = (a, (d, v))

ended-some :
    {A : Type 0} (o : Option (A × CanDev)) (v : Ends o (λ (a, d). IsValid d))
    → Ends o (λ (a, d). (w : IsValid d) × (ended o v ≡ (a, (d, w))))
unfolding ended
ended-some none ends = ends
ended-some (some (a, d)) v = (v, refl)

module _ {A : Type 0} (set : IsSet A) (op : CanDev → Option (A × CanDev))
    (spec : List CanFrame → List CanFrame → A × List CanFrame × List CanFrame)
    (refines : (d : CanDev)
      → IsValid d
      → Ends (op d) (λ (a, d').
        ((a, rx_queue d', tx_queue d') ≡ spec (rx_queue d) (tx_queue d)) × IsValid d')) where
  op-IsValid : (x : Rings) → Ends (op x.0) (λ (a, d). IsValid d)
  op-IsValid (d, v) = Ends-weaken (op d) (λ (a, d') (e, w). w) (refines d v)

  ended-refines :
      (x : Rings) (o : Option (A × CanDev)) (v : Ends o (λ (a, d). IsValid d))
      → Ends o (λ (a, d').
        ((a, rx_queue d', tx_queue d') ≡ spec (rx_queue x.0) (tx_queue x.0)) × IsValid d')
      → let (a, y) = ended o v in
        (a, rx_queue y.0, tx_queue y.0) ≡ spec (rx_queue x.0) (tx_queue x.0)
  unfolding ended
  ended-refines x none v ends = elim ends [ ]
  ended-refines x (some (a, d)) v (e, w) = e

  on_rings : Rings → A × Rings
  on_rings x = ended (op x.0) (op-IsValid x)

  on_rings_lem :
      (x : Rings)
      → let (a, y) = on_rings x in
        (a, rx_queue y.0, tx_queue y.0) ≡ spec (rx_queue x.0) (tx_queue x.0)
  unfolding on_rings
  on_rings_lem (d, v) = ended-refines (d, v) (op d) (op-IsValid (d, v)) (refines d v)

  on_class : Rings → A × Device
  on_class x = let (a, y) = on_rings x in (a, Quot.mk y)

  -- Rings with the same frames have the same outcome.
  on_class-SameFrames : (x y : Rings) → SameFrames x y → on_class x ≡ on_class y
  unfolding on_class
  on_class-SameFrames x y (rx, tx) =
      let same = on_rings_lem x ∙ ap₂ spec rx tx ∙ sym (on_rings_lem y) in
      λ i. (
        (same i).0,
        Quot.sound {r = SameFrames} {a = (on_rings x).1} {b = (on_rings y).1}
            (ap (λ t. t.1) same, ap (λ t. t.2) same) i,
      )

  pub lifted : Device → A × Device
  lifted = Quot.lift (Σ_set set (λ a. Quot-set)) on_class on_class-SameFrames

  results_set : IsSet (A × List CanFrame × List CanFrame)
  results_set = hlevel (set)

  -- The operation on the abstract device acts on its two queues.
  pub lifted_lem :
      (q : Device)
      → let (a, q') = lifted q in
        (a, (queues q').0.0, (queues q').1.0) ≡ spec (queues q).0.0 (queues q).1.0
  unfolding lifted on_class queues queues_of
  lifted_lem = Quot.ind (λ q. results_set _ _) (λ x. on_rings_lem x)

  -- On rings it is the operation itself.
  pub lifted-mk :
      (x : Rings)
      → Ends (op x.0) (λ (a, d). (w : IsValid d) × (lifted (Quot.mk x) ≡ (a, Quot.mk (d, w))))
  unfolding lifted on_class on_rings
  lifted-mk x =
      Ends-weaken (op x.0) (λ (a, d) (w, e). (w, ap (λ r. (r.0, Quot.mk r.1)) e))
        (ended-some (op x.0) (op-IsValid x))
