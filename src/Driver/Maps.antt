-- ===== src/Driver/Maps.antt =====
-- The parts of the drivers of source/linux_driver that both share do the same to two controllers between
-- which there is a map that the accesses respect.
use linux_qemu.Base.{
  ℕ, zero, suc, Option, Option-cases, inl, inr, Bool, Bool-cases, ltb, length, ◌≡◌, refl, arith,
  get_elem?, set,
}
use linux_qemu.Frame.{CanFrame, Bus}
use linux_qemu.Frame.Maps.{IsBusMap, mapped, mapped₂, mapped₃}
use linux_qemu.Driver.{CanDev, device_write, irq_transmit, irq_receive}
use linux_qemu.Driver.Mode.{in_reset, enter_reset, leave_reset}

module _ {S T : Type 0} {b : Bus S} {c : Bus T} {φ : S → T} (m : IsBusMap b c φ) where
  pub enter_reset-mapped :
      (n temp : ℕ) (s : S)
      → enter_reset c n temp (φ s) ≡ ((enter_reset b n temp s).0, φ (enter_reset b n temp s).1)
  unfolding enter_reset
  enter_reset-mapped zero temp s = refl
  enter_reset-mapped (suc n) temp s = elim (Bool-cases (in_reset temp)) [
    | inl e ↦ simp e
    | inr e ↦ simp (e, m.reads, m.writes, enter_reset-mapped n)
  ]

  pub leave_reset-mapped :
      (n temp : ℕ) (s : S)
      → leave_reset c n temp (φ s) ≡ ((leave_reset b n temp s).0, φ (leave_reset b n temp s).1)
  unfolding leave_reset
  leave_reset-mapped zero temp s = refl
  leave_reset-mapped (suc n) temp s = elim (Bool-cases (in_reset temp)) [
    | inl e ↦ simp (e, m.reads, m.writes, leave_reset-mapped n)
    | inr e ↦ simp e
  ]

module _ {S T : Type 0} (φ : S → T) where
  module _ (b : Bus S) (c : Bus T) (m : IsBusMap b c φ) (send : CanFrame → S → Option S)
      (send' : CanFrame → T → Option T)
      (sends : (f : CanFrame) (s : S) → send' f (φ s) ≡ mapped φ (send f s)) where
    pub device_write-mapped :
        (count : ℕ) (slot : CanFrame) (failed : Bool) (d : CanDev) (s : S)
        → device_write c send' count slot failed d (φ s)
          ≡ mapped₃ φ (device_write b send count slot failed d s)
    unfolding device_write
    device_write-mapped count slot failed d s =
        elim (Option-cases (get_elem? (set d.tx_buf d.tx_in slot) d.tx_in)) [
          | inl e ↦ ground (arith, e, m.reads s 2)
          | inr (f, e) ↦ elim (Option-cases (send f (b.read8 s 2).1)) [
            | inl g ↦ ground (arith, e, m.reads s 2, sends f (b.read8 s 2).1, g)
            | inr (t, g) ↦ ground (arith, e, m.reads s 2, sends f (b.read8 s 2).1, g)
          ]
        ]

    pub irq_transmit-mapped :
        (temp : ℕ) (d : CanDev) (s : S)
        → irq_transmit c send' temp d (φ s) ≡ mapped₂ φ (irq_transmit b send temp d s)
    unfolding irq_transmit
    irq_transmit-mapped temp d s = elim (Option-cases (get_elem? d.tx_buf d.tx_out)) [
      | inl e ↦ ground (arith, e)
      | inr (f, e) ↦ elim (Option-cases (send f s)) [
        | inl g ↦ ground (arith, e, sends f s, g)
        | inr (t, g) ↦ ground (arith, e, sends f s, g)
      ]
    ]

  pub irq_receive-mapped :
      (receive : S → Option (CanFrame × S)) (receive' : T → Option (CanFrame × T)) (d : CanDev)
      (s : S)
      → receive' (φ s) ≡ mapped₂ φ (receive s)
      → irq_receive receive' d (φ s) ≡ mapped₂ φ (irq_receive receive d s)
  unfolding irq_receive
  irq_receive-mapped receive receive' d s same = elim (Option-cases (receive s)) [
    | inl e ↦ simp (same, e)
    | inr (x, e) ↦ elim (Bool-cases (ltb d.rx_in (length d.rx_buf))) [
      | inl g ↦ simp (same, e, g)
      | inr g ↦ simp (same, e, g)
    ]
  ]
