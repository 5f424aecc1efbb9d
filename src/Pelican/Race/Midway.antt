-- ===== src/Pelican/Race/Midway.antt =====
-- send_message of source/linux_driver/pelican_mode/can_pci.c with one interrupt anywhere inside it: the
-- code is as it is, and runs on a bus that lets the interrupt come before an access.
use linux_qemu.Base.{
  ℕ, zero, suc, ◌+◌, ◌%◌, ◌/◌, ◌≤◌, List, [], ◌∷◌, Option, none, some, true, ◌≡◌, ◌⊎◌, refl, arith,
  length, take, drop, ap,
}
use linux_qemu.Frame.{CanFrame, Bus, IsFrame, write_all}
use linux_qemu.Pelican.{send_message}
use linux_qemu.Pelican.Send.{is_extended, tx_image, send_message-tx_image}

module _ {S : Type 0} (interrupt : S → S) (bus : Bus S) where
  -- The accesses until the interrupt comes; `none` once it was there.
  abbrev pub before_access : S × Option ℕ → S × Option ℕ
  before_access (s, none) = (s, none)
  before_access (s, some zero) = (interrupt s, none)
  before_access (s, some (suc k)) = (s, some k)

  abbrev pub interrupting_bus : Bus (S × Option ℕ)
  interrupting_bus = record {
    read8 = λ p a. let (s, k) = before_access p in let (v, t) = bus.read8 s a in (v, (t, k));
    write8 = λ p a v. let (s, k) = before_access p in (bus.write8 s a v, k);
  }

  write_all-past :
      (a : ℕ) (xs : List ℕ) (s : S)
      → write_all interrupting_bus a xs (s, none) ≡ (write_all bus a xs s, none)
  write_all-past a [] s = refl
  write_all-past a (x ∷ xs) s = write_all-past (a + 1) xs (bus.write8 s a x)

  -- The command that follows the writes is one more access.
  write_all-interrupted :
      (a : ℕ) (xs : List ℕ) (k : ℕ) (s : S)
      → k ≤ length xs
      → interrupting_bus.write8 (write_all interrupting_bus a xs (s, some k)) 1 1 ≡ (
        bus.write8
            (write_all bus (a + k) (drop k xs) (interrupt (write_all bus a (take k xs) s)))
            1
            1,
        none,
      )
  write_all-interrupted a [] zero s h = refl
  write_all-interrupted a [] (suc k) s h = absurd (omega arith)
  write_all-interrupted a (x ∷ xs) zero s h =
      let e : a + 0 ≡ a = omega arith in
      rw (e, write_all-past (a + 1) xs (bus.write8 (interrupt s) a x)) refl
  write_all-interrupted a (x ∷ xs) (suc k) s h =
      let e : a + suc k ≡ a + 1 + k = omega arith in
      rw e (write_all-interrupted (a + 1) xs k (bus.write8 s a x) (omega arith))

  -- For a frame of at most eight bytes and any interrupt: where the interrupt comes before access `k`,
  -- the controller sees the first `k` bytes of the transmit layout, then what the interrupt does, then
  -- the other bytes of the layout and the request for transmission, which follow blindly. Of a standard
  -- identifier bit 2 has to be clear.
  pub send_message-interrupted :
      (f : CanFrame) (s : S) (k : ℕ)
      → IsFrame f
      → f.can_dlc ≤ 8
      → (is_extended f ≡ true) ⊎ (f.can_id / 4 % 2 ≡ 0)
      → k ≤ length (tx_image f)
      → send_message interrupting_bus f (s, some k)
        ≡ some (
          bus.write8
              (write_all bus
                (16 + k)
                (drop k (tx_image f))
                (interrupt (write_all bus 16 (take k (tx_image f)) s)))
              1
              1,
          none,
        )
  send_message-interrupted f s k v short id_ok inside =
      rw (send_message-tx_image interrupting_bus f (s, some k) v short id_ok)
        (ap some (write_all-interrupted 16 (tx_image f) k s inside))
