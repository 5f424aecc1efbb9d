-- ===== src/Pelican/Calls.antt =====
-- Any sequence of calls into the driver of source/linux_driver/pelican_mode/can_pci.c, by programs and by the
-- controller's interrupt, and that it does the same to two controllers with a map between them.
use linux_qemu.Base.{
  ℕ, List, [], ◌∷◌, ◌++◌, Option, none, some, ◌>>=◌, Option-cases, inl, inr, Bool, Bool-cases, ◌≡◌,
  refl, ◌==◌,
}
use linux_qemu.Base.Int.{ℤ}
use linux_qemu.Bits.{has}
use linux_qemu.Frame.{CanFrame, Bus}
use linux_qemu.Frame.Maps.{IsBusMap, mapped₂, mapped₃, write_all-mapped}
use linux_qemu.Driver
use linux_qemu.Driver.{CanDev, buffer_size, device_read, irq_transmit, irq_receive}
use linux_qemu.Driver.Maps.{
  enter_reset-mapped, leave_reset-mapped, device_write-mapped, irq_transmit-mapped,
  irq_receive-mapped,
}
use linux_qemu.Driver.Mode.{in_reset, enter_reset, leave_reset}
use linux_qemu.Pelican.{send_message, receive_message}
use linux_qemu.Pelican.Maps.{send_message-mapped, receive_message-mapped}
use linux_qemu.Pelican.Handlers.{
  irq_overrun, irq_handler, set_up, device_open, device_release, device_write,
}

-- The driver's entry points, with what the caller and the kernel put in.
pub data Call : Type 0 where
  opens : Call
  releases : Call
  reads : ℕ → Bool → Call
  writes : ℕ → CanFrame → Bool → Call
  interrupts : Call

-- What a program gets back: the return value, and the frame that a read has copied out.
abbrev pub Answer : Type 0
Answer = ℤ × Option CanFrame

module _ {S : Type 0} (bus : Bus S) where
  -- An interrupt gives no program an answer.
  pub call : Call → CanDev → S → Option (List Answer × CanDev × S)
  call opens d s = let (ret, d1, s1) = device_open bus d s in some ((ret, none) ∷ [], d1, s1)
  call releases d s = let (ret, s1) = device_release bus s in some ((ret, none) ∷ [], d, s1)
  call (reads count failed) d s = do
    (ret, out, d1) ← device_read count failed d
    some ((ret, out) ∷ [], d1, s)
  call (writes count slot failed) d s = do
    (ret, d1, s1) ← device_write bus count slot failed d s
    some ((ret, none) ∷ [], d1, s1)
  call interrupts d s = do (d1, s1) ← irq_handler bus d s; some ([], d1, s1)

  pub calls : List Call → CanDev → S → Option (List Answer × CanDev × S)
  calls [] d s = some ([], d, s)
  calls (c ∷ cs) d s = do
    (answers, d1, s1) ← call c d s
    (more, d2, s2) ← calls cs d1 s1
    some (answers ++ more, d2, s2)

module _ {S T : Type 0} {b : Bus S} {c : Bus T} {φ : S → T} (m : IsBusMap b c φ) where
  irq_overrun-mapped : (temp : ℕ) (s : S) → irq_overrun c temp (φ s) ≡ φ (irq_overrun b temp s)
  unfolding irq_overrun
  irq_overrun-mapped temp s = elim (Bool-cases (has temp 8)) [
    | inl e ↦ simp (e, m.writes)
    | inr e ↦ simp e
  ]

  set_up-mapped : (s : S) → set_up c (φ s) ≡ φ (set_up b s)
  unfolding set_up
  set_up-mapped s = simp (set_up, m.reads, m.writes, write_all-mapped m)

  pub device_open-mapped :
      (d : CanDev) (s : S)
      → device_open c d (φ s)
        ≡ ((device_open b d s).0, (device_open b d s).1, φ (device_open b d s).2)
  unfolding device_open
  device_open-mapped d s =
      let entered = enter_reset-mapped m 3 (b.read8 s 0).0 (b.read8 s 0).1 in
      let s1 = set_up b (enter_reset b 3 (b.read8 s 0).0 (b.read8 s 0).1).1 in
      let left = leave_reset-mapped m 3 (b.read8 s1 0).0 (b.read8 s1 0).1 in
      elim (Bool-cases (in_reset (enter_reset b 3 (b.read8 s 0).0 (b.read8 s 0).1).0)) [
        | inr e ↦ simp (m.reads, entered, e)
        | inl e ↦
            elim (Bool-cases (in_reset (leave_reset b 3 (b.read8 s1 0).0 (b.read8 s1 0).1).0)) [
              | inl g ↦ simp (m.reads, entered, set_up-mapped, left, e, g)
              | inr g ↦ simp (m.reads, entered, set_up-mapped, left, e, g)
            ]
      ]

  pub device_release-mapped :
      (s : S) → device_release c (φ s) ≡ ((device_release b s).0, φ (device_release b s).1)
  unfolding device_release
  device_release-mapped s = simp m.writes

  irq_handler-mapped : (d : CanDev) (s : S) → irq_handler c d (φ s) ≡ mapped₂ φ (irq_handler b d s)
  unfolding irq_handler
  irq_handler-mapped d s =
      let sends = send_message-mapped m in
      let (temp, s1) = b.read8 s 3 in
      let transmits =
        irq_transmit-mapped φ b c m (send_message b) (send_message c) sends temp d s1 in
      elim (Option-cases (irq_transmit b (send_message b) temp d s1)) [
        | inl e ↦ simp (m.reads, transmits, e)
        | inr ((d2, s2), e) ↦ elim (Bool-cases (has temp 1)) [
          | inr g ↦ simp (m.reads, transmits, e, g, irq_overrun-mapped)
          | inl g ↦ elim (Bool-cases (d2.rx_count == buffer_size)) [
            | inl full ↦ simp (m.reads, transmits, e, g, full)
            | inr room ↦
                let receives =
                  irq_receive-mapped φ (receive_message b) (receive_message c) d2 s2
                    (receive_message-mapped m s2) in
                elim (Option-cases (irq_receive (receive_message b) d2 s2)) [
                  | inl r ↦ simp (m.reads, transmits, e, g, room, receives, r)
                  | inr (x, r) ↦
                      simp (m.reads, transmits, e, g, room, receives, r, irq_overrun-mapped)
                ]
          ]
        ]
      ]

  call-mapped : (k : Call) (d : CanDev) (s : S) → call c k d (φ s) ≡ mapped₃ φ (call b k d s)
  unfolding call device_release device_write
  call-mapped opens d s = simp device_open-mapped
  call-mapped releases d s = simp m.writes
  call-mapped (reads count failed) d s = elim (Option-cases (device_read count failed d)) [
    | inl e ↦ simp e
    | inr (x, e) ↦ simp e
  ]
  call-mapped (writes count slot failed) d s =
      let same =
        device_write-mapped φ b c m (send_message b) (send_message c) (send_message-mapped m) count
          slot failed d s in
      elim (Option-cases (Driver.device_write b (send_message b) count slot failed d s)) [
        | inl e ↦ simp (same, e)
        | inr (x, e) ↦ simp (same, e)
      ]
  call-mapped interrupts d s = elim (Option-cases (irq_handler b d s)) [
    | inl e ↦ simp (irq_handler-mapped, e)
    | inr (x, e) ↦ simp (irq_handler-mapped, e)
  ]

  -- Whatever sequence of calls: the same answers, the same rings, and the state that belongs to the other.
  pub calls-mapped :
      (ks : List Call) (d : CanDev) (s : S) → calls c ks d (φ s) ≡ mapped₃ φ (calls b ks d s)
  unfolding calls
  calls-mapped [] d s = refl
  calls-mapped (k ∷ ks) d s = elim (Option-cases (call b k d s)) [
    | inl e ↦ simp (call-mapped, e)
    | inr ((answers, d1, s1), e) ↦ elim (Option-cases (calls b ks d1 s1)) [
      | inl g ↦ simp (call-mapped, e, calls-mapped ks, g)
      | inr (x, g) ↦ simp (call-mapped, e, calls-mapped ks, g)
    ]
  ]
