-- ===== src/CanPci/Midway.antt =====
-- The PeliCAN driver (source/linux_driver/pelican_mode/can_pci.c) sends a frame to the emulated
-- controller of backup/qemu_linux4/can-pci.c, and its interrupt handler sends another in between.
use linux_qemu.Base.{
  ℕ, ◌%◌, ◌≤◌, List, [], ◌∷◌, ◌++◌, append_assoc, some, none, ◌≡◌, refl, ap, ◌∙◌, arith, Ends,
  length, length-take, take, drop, take-length, ◌<◌, ◌+◌,
}
use linux_qemu.Frame.{CanFrame, write_all, AllBelow-take}
use linux_qemu.Driver.{CanDev}
use linux_qemu.Pelican.{send_message}
use linux_qemu.Pelican.Send.{tx_image}
use linux_qemu.Pelican.Receive.{received}
use linux_qemu.Pelican.Race.Midway.{interrupting_bus, send_message-interrupted}
use linux_qemu.CanPci.{CanState, guest_bus}
use linux_qemu.CanPci.Registers.{IsValid}
use linux_qemu.CanPci.Link.{transmit-delivers, tx_image-AllBelow, length-tx_image}
use linux_qemu.CanPci.Stream.{Carried, given, given-IsValid}
use linux_qemu.CanPci.Interrupt.{
  interrupt, Waits, loaded, loaded-IsValid, interrupt-given, interrupt-faults, command-given, loads,
}

drop-length : (xs : List ℕ) → drop (length xs) xs ≡ []
drop-length [] = refl
drop-length (x ∷ xs) = drop-length xs

module _ (stack : CanFrame) (eight : length stack.bytes ≡ 8) where
  module _ (f g : CanFrame) (cf : Carried stack f) (cg : Carried stack g) (s : CanState)
      (v : IsValid s) (operating : s.mode % 2 ≡ 0) (d : CanDev) (w : Waits d g)
      (full : d.rx_count ≡ 6) where
    first_access :
        send_message (interrupting_bus (interrupt stack d) (guest_bus stack)) f (some s, some 0)
        ≡ some (some (given f (given g s)), none)
    first_access =
        send_message-interrupted (interrupt stack d) (guest_bus stack) f (some s) 0 cf.frame
          cf.short cf.id_ok (omega arith)
        ∙ ap
            (λ t.
              some (
                (guest_bus stack).write8 (write_all (guest_bus stack) 16 (tx_image f) t) 1 1,
                none,
              ))
            (interrupt-given stack eight g cg s v operating d w full)
        ∙ ap (λ t. some (t, none))
            (command-given stack eight f cf (given g s) (given-IsValid g s cg.frame cg.short v)
              operating)

    request_again :
        (guest_bus stack).write8 (some (given g (loaded (tx_image f) s))) 1 1
        ≡ some
            (record (given g (loaded (tx_image f) s)) { chr = (given g s).chr ++ received g ∷ [] })
    unfolding guest_bus
    request_again =
        transmit-delivers stack g (given g (loaded (tx_image f) s))
          (drop (length (tx_image g)) (loaded (tx_image f) s).trx_buff) v.region cg.frame cg.short
          cg.clean eight

    last_access :
        send_message
          (interrupting_bus (interrupt stack d) (guest_bus stack))
          f
          (some s, some (length (tx_image f)))
        ≡ some (
          some (record (given g (loaded (tx_image f) s)) {
            chr = (given g s).chr ++ received g ∷ [];
          }),
          none,
        )
    last_access =
        let n = length (tx_image f) in
        let fits : length (tx_image f) ≤ 13 = omega (arith, length-tx_image f cf.frame cf.short) in
        let w1 = loaded-IsValid (tx_image f) s fits v in
        let below = tx_image-AllBelow f cf.frame cf.short in
        send_message-interrupted (interrupt stack d) (guest_bus stack) f (some s) n cf.frame
          cf.short cf.id_ok (omega arith)
        ∙ rw
            (
              take-length (tx_image f),
              drop-length (tx_image f),
              loads stack eight f cf s v operating (tx_image f) fits below,
              interrupt-given stack eight g cg (loaded (tx_image f) s) w1 operating d w full,
            )
            (ap (λ t. some (t, none)) request_again)

  -- A controller whose handler has faulted.
  write_all-none : (a : ℕ) (xs : List ℕ) → write_all (guest_bus stack) a xs none ≡ none
  unfolding guest_bus
  write_all-none a [] = refl
  write_all-none a (x ∷ xs) = write_all-none (a + 1) xs

  write8-none : (a x : ℕ) → (guest_bus stack).write8 none a x ≡ none
  unfolding guest_bus
  write8-none a x = refl

  any_access :
      (f g : CanFrame) (s : CanState) (d : CanDev) (k : ℕ)
      → Carried stack f
      → Carried stack g
      → IsValid s
      → s.mode % 2 ≡ 0
      → Waits d g
      → d.rx_count < 6
      → k ≤ length (tx_image f)
      → send_message (interrupting_bus (interrupt stack d) (guest_bus stack)) f (some s, some k)
        ≡ some (none, none)
  any_access f g s d k cf cg v operating w room inside =
      let bytes = take k (tx_image f) in
      let image = length-tx_image f cf.frame cf.short in
      let fits : length bytes ≤ 13 = omega (arith, image, length-take k (tx_image f)) in
      let below = AllBelow-take 256 k (tx_image f) (tx_image-AllBelow f cf.frame cf.short) in
      let faulted =
        interrupt-faults stack eight g cg (loaded bytes s) (loaded-IsValid bytes s fits v) operating
          d w room in
      send_message-interrupted (interrupt stack d) (guest_bus stack) f (some s) k cf.frame cf.short
        cf.id_ok inside
      ∙ rw
          (
            loads stack eight f cf s v operating bytes fits below,
            faulted,
            write_all-none (16 + k) (drop k (tx_image f)),
          )
          (ap (λ t. some (t, none)) (write8-none 1 1))

  -- The controller is well formed and in operation mode, a frame `g` waits in the driver's well-formed
  -- rings, and driver and device carry `g` and the frame `f` that is written. The handler comes while `f` is
  -- written. With the receive ring full: before the first access, the backend gets `g` and then `f`; before
  -- the last access, the request for transmission, the driver's request sends what the handler has put into
  -- the buffer, the backend gets `g` twice, and `f` is lost. With room in the receive ring the handler takes
  -- a frame that the controller does not have, and leaves its array, before whichever access it comes.
  pub send_message-interrupt :
      (f g : CanFrame) (s : CanState) (d : CanDev)
      → Carried stack f
      → Carried stack g
      → IsValid s
      → s.mode % 2 ≡ 0
      → Waits d g
      → let bus = interrupting_bus (interrupt stack d) (guest_bus stack) in
        (d.rx_count ≡ 6
          → Ends
              (send_message bus f (some s, some 0))
              (λ (t, k). (k ≡ none) × Ends t (λ u. u.chr ≡ s.chr ++ (received g ∷ received f ∷ [])))
            × Ends (send_message bus f (some s, some (length (tx_image f)))) (λ (t, k).
              (k ≡ none) × Ends t (λ u. u.chr ≡ s.chr ++ (received g ∷ received g ∷ []))))
        × ((k : ℕ)
            → d.rx_count < 6
            → k ≤ length (tx_image f)
            → send_message bus f (some s, some k) ≡ some (none, none))
  send_message-interrupt f g s d cf cg v operating w =
      let one = append_assoc s.chr (received g ∷ []) (received f ∷ []) in
      let two = append_assoc s.chr (received g ∷ []) (received g ∷ []) in
      (
        λ full. (
          rw (first_access f g cf cg s v operating d w full) (refl, one),
          rw (last_access f g cf cg s v operating d w full) (refl, two),
        ),
        λ k room inside. any_access f g s d k cf cg v operating w room inside,
      )
