-- ===== src/Backend/Guest.antt =====
-- The guest's PeliCAN driver (source/linux_driver/pelican_mode/can_pci.c) writes frames to the emulated
-- controller of backup/qemu_linux4/can-pci.c, whose CAN backend (backup/qemu_linux4/qemu-char.c) has a socket.
use linux_qemu.Base.{
  ℕ, ◌<◌, ◌%◌, List, [], ◌∷◌, ◌++◌, Option, none, some, Option-cases, map, ◌≡◌, inl, inr, refl, ap₂,
  Ends, take, false, length,
}
use linux_qemu.Base.Int.{ℤ, pos}
use linux_qemu.Frame.{Bus}
use linux_qemu.Frame.Maps.{IsBusMap, mapped₃}
use linux_qemu.Driver.Maps.{device_write-mapped}
use linux_qemu.Pelican.{send_message}
use linux_qemu.Pelican.Maps.{send_message-mapped}
use linux_qemu.Pelican.Calls.{Call, calls, calls-mapped}
use linux_qemu.CanPci.Stream.{write_frames-deliver}
use linux_qemu.Backend.Wire.{deliver-ends}
use linux_qemu.Backend.Wired.{wired-IsBusMap}
use linux_qemu.Frame.{CanFrame, frame_size}
use linux_qemu.Driver
use linux_qemu.Driver.{CanDev}
use linux_qemu.Driver.Invariant
use linux_qemu.Pelican.Receive.{received, received-eight}
use linux_qemu.Pelican.Handlers.{device_write}
use linux_qemu.CanPci.{CanState, guest_bus}
use linux_qemu.CanPci.Registers.{IsValid}
use linux_qemu.CanPci.Stream.{AllCarried, write_frames}
use linux_qemu.Backend.Held.{opened}
use linux_qemu.Backend.Wire.{wire, take-wire, accepted, IsCanSocket, deliver, deliver-accepted}
use linux_qemu.Backend.Wired.{wired_bus, wired}

-- What the socket is given of frames that are carried.
map-wire :
    (pad : List ℕ) (stack : CanFrame) (fs : List CanFrame)
    → length pad ≡ 3
    → AllCarried stack fs
    → map (λ f. take frame_size (wire pad f)) (map received fs)
      ≡ map (λ f. wire pad (received f)) fs
map-wire pad stack [] three carried = refl
map-wire pad stack (f ∷ fs) three (c, cs) =
    ap₂ (λ x xs. x ∷ xs) (take-wire pad (received f) three (received-eight f c.frame.eight c.short))
      (map-wire pad stack fs three cs)

-- The answers of the writes and the rings are the same on two controllers with a map between them.
write_frames-mapped :
    {S T : Type 0} {b : Bus S} {c : Bus T} {φ : S → T}
    → IsBusMap b c φ
    → (fs : List CanFrame) (d : CanDev) (s : S)
    → write_frames c fs d (φ s) ≡ mapped₃ φ (write_frames b fs d s)
unfolding write_frames device_write
write_frames-mapped m [] d s = refl
write_frames-mapped {b = b} {c = c} {φ = φ} m (f ∷ fs) d s =
    let same =
      device_write-mapped φ b c m (send_message b) (send_message c) (send_message-mapped m) 16 f
        false d s in
    elim (Option-cases (Driver.device_write b (send_message b) 16 f false d s)) [
      | inl e ↦ simp (same, e)
      | inr ((ret, d1, s1), e) ↦ elim (Option-cases (write_frames b fs d1 s1)) [
        | inl g ↦ simp (same, e, write_frames-mapped m fs, g)
        | inr (x, g) ↦ simp (same, e, write_frames-mapped m fs, g)
      ]
    ]

module _ {W : Type 0} (write : ℕ → List ℕ → ℕ → W → ℤ × W) (pad : List ℕ) (fd : ℕ) where
  pub opened-IsBusMap :
      (stack : CanFrame) (w : W)
      → IsBusMap
          (guest_bus stack)
          (wired_bus write pad (opened fd) stack)
          (wired write pad (opened fd) w)
  opened-IsBusMap stack w =
      wired-IsBusMap write pad (opened fd) stack w (λ fs. deliver-ends write pad fd fs w)

  pub none_wired :
      (s : CanState) (w : W) → s.chr ≡ [] → wired write pad (opened fd) w (some s) ≡ some (s, w)
  unfolding wired deliver
  none_wired s w none_given = rw none_given refl

  on_bus :
      (stack : CanFrame) (fs : List CanFrame) (w w1 : W) (answers : List ℤ)
      (bus : W → List (List ℕ))
      → IsCanSocket write bus fd
      → length pad ≡ 3
      → AllCarried stack fs
      → deliver write pad (opened fd) (map received fs) w ≡ some (answers, w1)
      → bus w1 ≡ bus w ++ accepted answers (map (λ f. wire pad (received f)) fs)
  on_bus stack fs w w1 answers bus sock three carried e =
      rw (map-wire pad stack fs three carried) at
        ((rw e at (deliver-accepted write bus fd pad (map received fs) w sock)).1)

  given_away :
      (u : CanState) (w : W) (bus : W → List (List ℕ))
      → IsCanSocket write bus fd
      → Ends (wired write pad (opened fd) w (some u)) (λ (v, w1).
        (v ≡ record u { chr = [] })
        × Ends (deliver write pad (opened fd) u.chr w) (λ (answers, w2).
          (w1 ≡ w2)
          × (bus w1 ≡ bus w ++ accepted answers (map (λ f. take frame_size (wire pad f)) u.chr))))
  unfolding wired
  given_away u w bus sock =
      let put = deliver-accepted write bus fd pad u.chr w sock in
      elim (Option-cases (deliver write pad (opened fd) u.chr w)) [
        | inl d ↦ absurd (rw d at put)
        | inr ((answers, w1), d) ↦ rw d (refl, (refl, (rw d at put).1))
      ]

  -- The outcome of a session, with the backend.
  reach_end :
      (stack : CanFrame) (fs : List CanFrame) (t : Option CanState) (w : W)
      (bus : W → List (List ℕ))
      → IsCanSocket write bus fd
      → length pad ≡ 3
      → AllCarried stack fs
      → Ends t (λ u. u.chr ≡ map received fs)
      → Ends (wired write pad (opened fd) w t) (λ (u, w').
        (answers : List ℤ) × (deliver write pad (opened fd) (map received fs) w
          ≡ some (answers, w'))
        × (bus w' ≡ bus w ++ accepted answers (map (λ f. wire pad (received f)) fs)))
  unfolding wired
  reach_end stack fs none w bus sock three carried listed = elim listed [ ]
  reach_end stack fs (some u) w bus sock three carried listed =
      elim (Option-cases (deliver write pad (opened fd) u.chr w)) [
        | inl d ↦ absurd (rw d at (deliver-ends write pad fd u.chr w))
        | inr ((answers, w1), d) ↦
            let e = rw listed at d in
            rw d (answers, e, on_bus stack fs w w1 answers bus sock three carried e)
      ]

  -- The controller that lists its frames, none at first, and the same controller on an opened CAN
  -- backend: whatever programs and interrupts call of the driver, all answers, the rings, the
  -- registers and the interrupt line are the same, also where a call is undefined. The backend has
  -- been given the frames of the list, in that order and once each; with a raw CAN socket the bus
  -- has got those that the socket took.
  pub calls-wired :
      (stack : CanFrame) (ks : List Call) (d : CanDev) (s : CanState) (w : W)
      (bus : W → List (List ℕ))
      → IsCanSocket write bus fd
      → s.chr ≡ []
      → (calls (wired_bus write pad (opened fd) stack) ks d (some (s, w))
          ≡ mapped₃ (wired write pad (opened fd) w) (calls (guest_bus stack) ks d (some s)))
        × ((u : CanState)
            → Ends (wired write pad (opened fd) w (some u)) (λ (v, w1).
              (v ≡ record u { chr = [] })
              × Ends (deliver write pad (opened fd) u.chr w) (λ (answers, w2).
                (w1 ≡ w2)
                × (bus w1
                    ≡ bus w ++ accepted answers (map (λ f. take frame_size (wire pad f)) u.chr)))))
  calls-wired stack ks d s w bus sock none_given = (
    rw (none_wired s w none_given) at (calls-mapped (opened-IsBusMap stack w) ks d (some s)),
    λ u. given_away u w bus sock,
  )

  module _ (stack : CanFrame) (eight : length stack.bytes ≡ 8) where
    -- The frames of a session that has opened the device.
    pub write_frames-reach :
        (fs : List CanFrame) (d : CanDev) (s : CanState) (w : W) (bus : W → List (List ℕ))
        → IsCanSocket write bus fd
        → length pad ≡ 3
        → Invariant.IsValid d
        → d.tx_count < 6
        → IsValid s
        → s.mode % 2 ≡ 0
        → s.status ≡ 0x0c
        → s.chr ≡ []
        → AllCarried stack fs
        → Ends
            (write_frames (wired_bus write pad (opened fd) stack) fs d (some (s, w)))
            (λ (rets, d', t).
              (rets ≡ map (λ f. pos 16) fs)
              × (d'.tx_count ≡ d.tx_count)
              × Ends t (λ (u, w').
                (answers : List ℤ) × (deliver write pad (opened fd) (map received fs) w
                  ≡ some (answers, w'))
                × (bus w' ≡ bus w ++ accepted answers (map (λ f. wire pad (received f)) fs))))
    write_frames-reach fs d s w bus sock three r room v operating free none_given carried =
        let there = write_frames-mapped (opened-IsBusMap stack w) fs d (some s) in
        let here = write_frames-deliver stack eight fs d s r room v operating free carried in
        elim (Option-cases (write_frames (guest_bus stack) fs d (some s))) [
          | inl e ↦ absurd (rw e at here)
          | inr ((rets, d1, t), e) ↦
              let (answered, count, listed) = rw (e, none_given) at here in
              rw (rw (none_wired s w none_given, e) at there)
                (answered, count, reach_end stack fs t w bus sock three carried listed)
        ]
