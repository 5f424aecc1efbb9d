-- ===== src/Backend/Sends.antt =====
-- source/examples/pelican_mode/send.c on the driver of source/linux_driver/pelican_mode/can_pci.c, the controller
-- of backup/qemu_linux4/can-pci.c and the CAN backend of backup/qemu_linux4/qemu-char.c, up to the bus.
use linux_qemu.Base.{
  ℕ, List, [], ◌∷◌, ◌++◌, Option, some, Option-cases, inl, inr, ◌≡◌, refl, length,
}
use linux_qemu.Base.Int.{ℤ}
use linux_qemu.Frame.{CanFrame}
use linux_qemu.Driver.{CanDev}
use linux_qemu.CanPci.{CanState}
use linux_qemu.CanPci.Registers.{IsValid}
use linux_qemu.Programs.{Syscalls, cansnd, send_main}
use linux_qemu.Programs.Serves.{Serves}
use linux_qemu.Programs.Send.{pelican_operations, send_main-delivers}
use linux_qemu.Programs.Maps.{Serves-mapped}
use linux_qemu.Backend.Held.{opened}
use linux_qemu.Backend.Wire.{
  wire, take-wire, accepted, IsCanSocket, deliver, deliver-ends, deliver-accepted,
}
use linux_qemu.Backend.Wired.{wired_bus, wired}
use linux_qemu.Backend.Guest.{opened-IsBusMap, none_wired}

module _ {W : Type 0} (write : ℕ → List ℕ → ℕ → W → ℤ × W) (pad : List ℕ) (socket : ℕ)
    (stack : CanFrame) where
  one_given :
      (u : CanState) (f : CanFrame) (w : W) (bus : W → List (List ℕ))
      → IsCanSocket write bus socket
      → length pad ≡ 3
      → length f.bytes ≡ 8
      → u.chr ≡ f ∷ []
      → (answers : List ℤ) × (w' : W) × (wired write pad (opened socket) w (some u)
          ≡ some (record u { chr = [] }, w'))
        × (deliver write pad (opened socket) (f ∷ []) w ≡ some (answers, w'))
        × (bus w' ≡ bus w ++ accepted answers (wire pad f ∷ []))
  unfolding wired
  one_given u f w bus sock three eight listed =
      elim (Option-cases (deliver write pad (opened socket) (f ∷ []) w)) [
        | inl e ↦ absurd (rw e at (deliver-ends write pad socket (f ∷ []) w))
        | inr ((answers, w'), e) ↦
            let put = (rw e at (deliver-accepted write bus socket pad (f ∷ []) w sock)).1 in
            (answers, w', rw (listed, e) refl, e, rw (take-wire pad f three eight) at put)
      ]

  module _ {K : Type 0} (sys : Syscalls K CanFrame) (state : CanDev → Option (CanState × W) → K)
      (fd : ℕ)
      (serves : Serves sys
        (pelican_operations (wired_bus write pad (opened socket) stack))
        state
        fd) where
    -- On a well-formed controller whose buffer is free and which has listed no frame, with an
    -- opened CAN backend on a raw CAN socket, the program, for the frame that it fills in, exits
    -- with 0, whatever the socket answers. The socket has been given the sixteen bytes of this
    -- frame, three of them padding, once; if the write succeeded they are the one thing new on the
    -- bus, and otherwise nothing is. The controller is left in reset mode. No interrupt comes
    -- between the program's system calls, and the variable that the device decodes into holds the
    -- identifier 0 and eight bytes.
    pub send_main-reaches :
        (d : CanDev) (s : CanState) (w : W) (bus : W → List (List ℕ))
        → IsCanSocket write bus socket
        → length pad ≡ 3
        → IsValid s
        → s.status ≡ 0x0c
        → s.chr ≡ []
        → stack.can_id ≡ 0
        → length stack.bytes ≡ 8
        → (d' : CanDev) × (u : CanState) × (w' : W) × (answers : List ℤ) × (send_main sys cansnd
              (state d (some (s, w)))
            ≡ (0, state d' (some (u, w'))))
          × (deliver write pad (opened socket) (cansnd ∷ []) w ≡ some (answers, w'))
          × (bus w' ≡ bus w ++ accepted answers (wire pad cansnd ∷ []))
          × (u.mode ≡ 1)
    send_main-reaches d s w bus sock three v free none_given clean eight =
        let map = opened-IsBusMap write pad socket stack w in
        let (d', u, run, listed, mode) =
          send_main-delivers sys (λ d t. state d (wired write pad (opened socket) w t)) fd stack
            (Serves-mapped map serves) d s v free clean eight in
        let (answers, w', after, given, put) =
          one_given u cansnd w bus sock three refl (rw none_given at listed) in
        (
          d',
          record u { chr = [] },
          w',
          answers,
          rw (none_wired write pad socket s w none_given, after) at run,
          given,
          put,
          mode,
        )
