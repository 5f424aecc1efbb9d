-- ===== src/Driver/Repeat.antt =====
-- Interrupts that come one after the other to a driver of source/linux_driver, in the terms of what
-- its handler does on one of them.
use linux_qemu.Base.{
  ℕ, zero, suc, ◌+◌, ◌≤◌, ◌<◌, List, [], ◌∷◌, ◌++◌, append-nil, append_assoc, map, Option, some,
  ◌>>=◌, ◌≡◌, refl, sym, ap, arith, Ends, Ends-bind, length, length-append,
}
use linux_qemu.Frame.{CanFrame}
use linux_qemu.Driver.{CanDev}
use linux_qemu.Driver.Invariant.{IsValid, tx_queue, rx_queue}
use linux_qemu.Driver.Ring.{length-queue}

module _ {S : Type 0} where
  -- `n` interrupts.
  unfoldable pub interrupts :
      (CanDev → S → Option (CanDev × S)) → ℕ → CanDev → S → Option (CanDev × S)
  interrupts handler zero d s = some (d, s)
  interrupts handler (suc n) d s = do (d1, s1) ← handler d s; interrupts handler n d1 s1

  -- What a receive interrupt does to the queues when the frame `f` comes and there is room.
  abbrev pub Received : CanDev → CanFrame → S → CanDev × S → Type 0
  Received d f t (d', s') =
      (s' ≡ t) × (rx_queue d' ≡ rx_queue d ++ f ∷ []) × (tx_queue d' ≡ tx_queue d) × IsValid d'

-- What a controller comes to that releases as many frames as the list has.
abbrev pub released : {S : Type 0} → (S → S) → List CanFrame → S → S
released release [] s = s
released release (f ∷ fs) s = released release fs (release s)

-- The controller offers these frames, one after the other, each once the one before is released.
abbrev pub Offers : {S : Type 0} → (S → CanFrame → Type 0) → (S → S) → S → List CanFrame → Type 0
Offers Offered release s [] = Unit {0}
Offers Offered release s (f ∷ fs) = Offered s f × Offers Offered release (release s) fs

module _ {S : Type 0} (handler : CanDev → S → Option (CanDev × S)) (received : CanFrame → CanFrame)
    (Offered : S → CanFrame → Type 0) (release : S → S)
    (handler-Received : (f : CanFrame) (d : CanDev) (s : S)
      → IsValid d
      → d.rx_count < 6
      → Offered s f
      → Ends (handler d s) (Received d (received f) (release s))) where
  pub interrupts-fill :
      (fs : List CanFrame) (d : CanDev) (s : S)
      → IsValid d
      → d.rx_count + length fs ≤ 6
      → Offers Offered release s fs
      → Ends (interrupts handler (length fs) d s) (λ (d', s').
        (s' ≡ released release fs s)
        × (rx_queue d' ≡ rx_queue d ++ map received fs)
        × (tx_queue d' ≡ tx_queue d)
        × IsValid d')
  unfolding interrupts
  interrupts-fill [] d s v room offers = (refl, sym (append-nil (rx_queue d)), refl, v)
  interrupts-fill (f ∷ fs) d s v room (offered, offers) =
      Ends-bind (handler d s) _ _ (handler-Received f d s v (omega arith) offered)
        (λ (d1, s1) (at, rx, tx, v1).
          let more : d1.rx_count ≡ d.rx_count + 1 = omega (
            arith,
            length-queue d.rx_buf d.rx_out d.rx_count,
            length-queue d1.rx_buf d1.rx_out d1.rx_count,
            ap length rx,
            length-append (rx_queue d) (received f ∷ []),
          ) in
          let after = interrupts-fill fs d1 (release s) v1 (omega arith) offers in
          rw (at, ← append_assoc (rx_queue d) (received f ∷ []) (map received fs), ← rx, ← tx)
            after)
