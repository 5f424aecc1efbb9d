-- ===== src/Driver/Traffic.antt =====
-- The frames that pass through a driver of source/linux_driver: device_write, device_read and the
-- two branches of the interrupt handlers in any order, on any controller, with a log of the frames
-- that were given to send_message.
pub mod Moves
pub mod Logs
pub mod Order
use linux_qemu.Base.{
  ℕ, List, [], ◌∷◌, ◌++◌, Option, none, some, ◌>>=◌, Bool, true, false, not, ◌&&◌, ◌==◌, ◌≡◌, ◌⊎◌,
  bit_and, if◌then◌else◌,
}
use linux_qemu.Base.Int.{ℤ}
use linux_qemu.Frame.{CanFrame, Bus, frame_size}
use linux_qemu.Driver.{CanDev, buffer_size, device_read, device_write, irq_transmit, irq_receive}

-- The controller with the frames it was given, oldest first.
pub record Logged (S : Type 0) : Type 0 where
  pub controller : S
  pub sent : List CanFrame

module _ {S : Type 0} (bus : Bus S) (send : CanFrame → S → Option S) where
  abbrev pub logged_bus : Bus (Logged S)
  logged_bus = record {
    read8 = λ s a.
        let (v, t) = bus.read8 s.controller a in (v, record { controller = t; sent = s.sent });
    write8 = λ s a v. record { controller = bus.write8 s.controller a v; sent = s.sent };
  }

  abbrev pub logged_send : CanFrame → Logged S → Option (Logged S)
  logged_send f s = do
    t ← send f s.controller
    some (record { controller = t; sent = s.sent ++ f ∷ [] })

module _ {S : Type 0} (receive : S → Option (CanFrame × S)) where
  abbrev pub logged_receive : Logged S → Option (CanFrame × Logged S)
  logged_receive s = do
    (f, t) ← receive s.controller
    some (f, record { controller = t; sent = s.sent })

-- The frame that a write takes over from its caller: none if it is refused.
abbrev pub taken : ℕ → CanFrame → CanDev → List CanFrame
taken count slot d =
    if count == frame_size && not (d.tx_count == buffer_size) then slot ∷ [] else []

module _ {S : Type 0} (bus : Bus S) (send : CanFrame → S → Option S)
    (receive : S → Option (CanFrame × S)) where
  -- The list is what the step takes over. The controller may change at any time.
  pub data Step : CanDev → Logged S → List CanFrame → CanDev → Logged S → Type 0 where
    writes :
        {d d' : CanDev} {s s' : Logged S} {h : List CanFrame} {ret : ℤ} (count : ℕ)
        (slot : CanFrame) (failed : Bool)
        → device_write (logged_bus bus send) (logged_send bus send) count slot failed d s
          ≡ some (ret, d', s')
        → h ≡ taken count slot d
        → Step d s h d' s'
    reads :
        {d d' : CanDev} {s : Logged S} {ret : ℤ} {out : Option CanFrame} (count : ℕ) (failed : Bool)
        → device_read count failed d ≡ some (ret, out, d')
        → Step d s [] d' s
    transmits :
        {d d' : CanDev} {s s' : Logged S} (temp : ℕ)
        → irq_transmit (logged_bus bus send) (logged_send bus send) temp d s ≡ some (d', s')
        → Step d s [] d' s'
    receives :
        {d d' : CanDev} {s s' : Logged S}
        → (d.rx_count == buffer_size) ≡ false
        → irq_receive (logged_receive receive) d s ≡ some (d', s')
        → Step d s [] d' s'
    drifts : {d : CanDev} {s s' : Logged S} → s'.sent ≡ s.sent → Step d s [] d s'

  pub data Run : CanDev → Logged S → List CanFrame → CanDev → Logged S → Type 0 where
    done : {d : CanDev} {s : Logged S} → Run d s [] d s
    next :
        {d d1 d2 : CanDev} {s s1 s2 : Logged S} {h hs all : List CanFrame}
        → Step d s h d1 s1
        → Run d1 s1 hs d2 s2
        → all ≡ h ++ hs
        → Run d s all d2 s2

  -- A write in the run that finds the controller's buffer free finds no frame waiting.
  abbrev pub Patient :
      {d d' : CanDev} {s s' : Logged S} {h : List CanFrame} → Step d s h d' s' → Type 0
  Patient {d} {s = s} (writes count slot failed e t) =
      (d.tx_count ≡ 0) ⊎ ((bit_and (bus.read8 s.controller 2).0 4 == 4) ≡ false)
  Patient _ = Unit {0}

  abbrev pub IsPatient :
      {d d' : CanDev} {s s' : Logged S} {h : List CanFrame} → Run d s h d' s' → Type 0
  IsPatient done = Unit {0}
  IsPatient (next step run e) = Patient step × IsPatient run
