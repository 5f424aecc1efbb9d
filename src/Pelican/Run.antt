-- ===== src/Pelican/Run.antt =====
-- Any sequence of operations of source/linux_driver/pelican_mode/can_pci.c, from device_open on,
-- with the controller changing on its own between them.
use linux_qemu.Base.{
  ℕ, ◌<◌, Option, Option-cases, inl, inr, some, Bool, ◌≡◌, arith, length-set, set, get_elem?,
}
use linux_qemu.Base.Int.{ℤ}
use linux_qemu.Frame.{CanFrame, Bus}
use linux_qemu.Driver
use linux_qemu.Driver.{CanDev, empty_rings, device_read, irq_transmit, irq_receive}
use linux_qemu.Driver.Invariant.{IsValid}
use linux_qemu.Pelican.{send_message, receive_message}
use linux_qemu.Pelican.Handlers.{irq_handler, device_open, device_release, device_write}

module _ {S : Type 0} (bus : Bus S) where
  pub data Step : CanDev → S → CanDev → S → Type 0 where
    opens :
        {d d' : CanDev} {s s' : S} {ret : ℤ} → device_open bus d s ≡ (ret, d', s') → Step d s d' s'
    releases : {d : CanDev} {s s' : S} {ret : ℤ} → device_release bus s ≡ (ret, s') → Step d s d s'
    reads :
        {d d' : CanDev} {s : S} {ret : ℤ} {out : Option CanFrame} (count : ℕ) (failed : Bool)
        → device_read count failed d ≡ some (ret, out, d')
        → Step d s d' s
    writes :
        {d d' : CanDev} {s s' : S} {ret : ℤ} (count : ℕ) (slot : CanFrame) (failed : Bool)
        → device_write bus count slot failed d s ≡ some (ret, d', s')
        → Step d s d' s'
    interrupted : {d d' : CanDev} {s s' : S} → irq_handler bus d s ≡ some (d', s') → Step d s d' s'
    drifts : {d : CanDev} {s s' : S} → Step d s d s'

  pub data Run : CanDev → S → CanDev → S → Type 0 where
    done : {d : CanDev} {s : S} → Run d s d s
    next : {d d1 d2 : CanDev} {s s1 s2 : S} → Step d s d1 s1 → Run d1 s1 d2 s2 → Run d s d2 s2

  read_keeps :
      {d d' : CanDev} {ret : ℤ} {out : Option CanFrame} (count : ℕ) (failed : Bool)
      → IsValid d
      → device_read count failed d ≡ some (ret, out, d')
      → IsValid d'
  unfolding device_read
  read_keeps {d} count failed v e = elim (Option-cases (get_elem? d.rx_buf d.rx_out)) [
    | inl n ↦ ground (arith, n)
    | inr (f, h) ↦ ground (arith, h)
  ]

  open_keeps :
      {d d' : CanDev} {s' : S} {ret : ℤ} (s : S)
      → IsValid d
      → device_open bus d s ≡ (ret, d', s')
      → IsValid d'
  unfolding device_open
  open_keeps s v e = ground arith

  write_keeps :
      {d d' : CanDev} (s : S) {s' : S} {ret : ℤ} (count : ℕ) (slot : CanFrame) (failed : Bool)
      → IsValid d
      → device_write bus count slot failed d s ≡ some (ret, d', s')
      → IsValid d'
  unfolding device_write Driver.device_write
  write_keeps {d} s count slot failed v e =
      elim (Option-cases (get_elem? (set d.tx_buf d.tx_in slot) d.tx_in)) [
        | inl n ↦ ground (arith, n, length-set d.tx_buf d.tx_in slot)
        | inr (f, h) ↦ elim (Option-cases (send_message bus f (bus.read8 s 2).1)) [
          | inl n ↦ ground (arith, h, n, length-set d.tx_buf d.tx_in slot)
          | inr (t, m) ↦ ground (arith, h, m, length-set d.tx_buf d.tx_in slot)
        ]
      ]

  pub transmit_keeps :
      {d d' : CanDev} (s : S) {s' : S} (temp : ℕ)
      → IsValid d
      → irq_transmit bus (send_message bus) temp d s ≡ some (d', s')
      → IsValid d'
  unfolding irq_transmit
  transmit_keeps {d} s temp v e = elim (Option-cases (get_elem? d.tx_buf d.tx_out)) [
    | inl n ↦ ground (arith, n)
    | inr (f, h) ↦ elim (Option-cases (send_message bus f s)) [
      | inl n ↦ ground (arith, h, n)
      | inr (t, m) ↦ ground (arith, h, m)
    ]
  ]

  receive_keeps :
      {d d' : CanDev} (s : S) {s' : S}
      → IsValid d
      → d.rx_count < 6
      → irq_receive (receive_message bus) d s ≡ some (d', s')
      → IsValid d'
  unfolding irq_receive
  receive_keeps {d} s v room e = elim (Option-cases (receive_message bus s)) [
    | inl n ↦ ground (arith, n)
    | inr ((f, t), h) ↦ ground (arith, h, length-set d.rx_buf d.rx_in f)
  ]

  pub interrupt_keeps :
      {d d' : CanDev} (s : S) {s' : S}
      → IsValid d
      → irq_handler bus d s ≡ some (d', s')
      → IsValid d'
  unfolding irq_handler
  interrupt_keeps {d} s v e =
      let (temp, s1) = bus.read8 s 3 in
      elim (Option-cases (irq_transmit bus (send_message bus) temp d s1)) [
        | inl n ↦ ground (arith, n)
        | inr ((d2, s2), h) ↦
            let v2 = transmit_keeps s1 temp v h in
            elim (Option-cases (irq_receive (receive_message bus) d2 s2)) [
              | inl n ↦ ground (arith, h, n, v2)
              | inr ((d3, s3), m) ↦
                  ground (arith, h, m, v2, λ (room : d2.rx_count < 6). receive_keeps s2 v2 room m)
            ]
      ]

  Step-IsValid : {d d' : CanDev} {s s' : S} → Step d s d' s' → IsValid d → IsValid d'
  Step-IsValid {s = s} (opens e) v = open_keeps s v e
  Step-IsValid (releases e) v = v
  Step-IsValid (reads count failed e) v = read_keeps count failed v e
  Step-IsValid {s = s} (writes count slot failed e) v = write_keeps s count slot failed v e
  Step-IsValid {s = s} (interrupted e) v = interrupt_keeps s v e
  Step-IsValid drifts v = v

  -- Through any run of the driver's operations that ends, in any order and on any controller, which
  -- may change on its own between them, the rings stay well formed: six slots each, indices inside
  -- them, at most six frames waiting, and the next free slot just behind these.
  pub Run-IsValid : {d d' : CanDev} {s s' : S} → Run d s d' s' → IsValid d → IsValid d'
  Run-IsValid done v = v
  Run-IsValid (next step run) v = Run-IsValid run (Step-IsValid step v)
