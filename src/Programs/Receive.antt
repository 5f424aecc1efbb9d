-- ===== src/Programs/Receive.antt =====
-- The loop of source/examples/pelican_mode/receive.c on the driver of
-- source/linux_driver/pelican_mode/can_pci.c.
use linux_qemu.Base.{
  ℕ, zero, suc, ◌-◌, ◌≤◌, ◌<◌, List, [], ◌∷◌, none, some, ◌≡◌, refl, inl, inr, ap, Bool-cases,
  false, arith, ◌==◌, map, length, length-map, Ends, Option-cases, get_elem?-eq-get_or, get_or,
}
use linux_qemu.Base.Int.{ℤ, pos}
use linux_qemu.Frame.{CanFrame, Bus, zero_frame, frame_size}
use linux_qemu.Driver.{CanDev, device_read, empty_rings}
use linux_qemu.Driver.Ring.{advance, queue, queue-pop, length-queue}
use linux_qemu.Driver.Invariant.{IsValid, rx_queue, tx_queue, empty_rings-IsValid}
use linux_qemu.Driver.Repeat.{interrupts, Offers, released}
use linux_qemu.Pelican.Receive.{received}
use linux_qemu.Pelican.Handlers.{irq_handler}
use linux_qemu.Pelican.Fill.{Offered, release, interrupts_fill}
use linux_qemu.Programs.{Syscalls, shown_if_read, receive_rounds, receive_main}
use linux_qemu.Programs.Serves.{Serves}
use linux_qemu.Programs.Send.{pelican_operations}

-- One round of the loop.
rounds_zero :
    {K : Type 0} (sys : Syscalls K CanFrame) (fp : ℤ) (stale : CanFrame) (k : K)
    → receive_rounds sys 0 fp stale k ≡ ([], k)
unfolding receive_rounds
rounds_zero sys fp stale k = refl

rounds_show :
    {K : Type 0} (sys : Syscalls K CanFrame) (n : ℕ) (fp : ℤ) (stale f : CanFrame) (k : K) {k1 : K}
    → sys.read fp stale frame_size k ≡ (pos 16, f, k1)
    → receive_rounds sys (suc n) fp stale k
      ≡ (f ∷ (receive_rounds sys n fp f k1).0, (receive_rounds sys n fp f k1).1)
unfolding receive_rounds
rounds_show sys n fp stale f k e =
    ap
      (λ (r : ℤ × CanFrame × _). (
        shown_if_read r.0 r.1 (receive_rounds sys n fp r.1 r.2).0,
        (receive_rounds sys n fp r.1 r.2).1,
      ))
      e

rounds_skip :
    {K : Type 0} (sys : Syscalls K CanFrame) (n : ℕ) (fp : ℤ) (stale : CanFrame) (k : K) {k1 : K}
    → sys.read fp stale frame_size k ≡ (pos 0, stale, k1)
    → receive_rounds sys (suc n) fp stale k ≡ receive_rounds sys n fp stale k1
unfolding receive_rounds
rounds_skip sys n fp stale k e =
    ap
      (λ (r : ℤ × CanFrame × _). (
        shown_if_read r.0 r.1 (receive_rounds sys n fp r.1 r.2).0,
        (receive_rounds sys n fp r.1 r.2).1,
      ))
      e

read_oldest :
    (d : CanDev)
    → IsValid d
    → 0 < d.rx_count
    → device_read 16 false d
      ≡ some (
        pos 16,
        some (get_or d.rx_buf d.rx_out zero_frame),
        record d { rx_out = advance d.rx_out; rx_count = d.rx_count - 1 },
      )
unfolding device_read
read_oldest d v some_wait = ground (arith, get_elem?-eq-get_or d.rx_buf d.rx_out zero_frame)

read_none : (d : CanDev) → d.rx_count ≡ 0 → device_read 16 false d ≡ some (pos 0, none, d)
unfolding device_read
read_none d empty = ground arith

module _ {K S : Type 0} (bus : Bus S) (sys : Syscalls K CanFrame) (state : CanDev → S → K) (fd : ℕ)
    (serves : Serves sys (pelican_operations bus) state fd) where
  -- Where no interrupt comes between them, as many rounds of the loop as frames wait, or more, show
  -- exactly the waiting frames, the oldest first, and leave none; the controller and the transmit
  -- ring stay as they were.
  pub receive_rounds-show :
      (n : ℕ) (stale : CanFrame) (d : CanDev) (s : S)
      → IsValid d
      → d.rx_count ≤ n
      → (d' : CanDev) × (receive_rounds sys n (pos fd) stale (state d s) ≡ (rx_queue d, state d' s))
        × (d'.rx_count ≡ 0)
        × (tx_queue d' ≡ tx_queue d)
  unfolding queue
  receive_rounds-show zero stale d s v enough =
      (d, ground (arith, rounds_zero sys (pos fd) stale (state d s)), omega arith, refl)
  receive_rounds-show (suc n) stale d s v enough = elim (Bool-cases (d.rx_count == 0)) [
    | inl none_wait ↦
        let empty : d.rx_count ≡ 0 = ground arith in
        let nothing = serves.finds_nothing stale d d s (read_none d empty) in
        let (d', shows, emptied, kept) = receive_rounds-show n stale d s v (omega arith) in
        (
          d',
          ground (arith, rounds_skip sys n (pos fd) stale (state d s) nothing, shows),
          emptied,
          kept,
        )
    | inr some_wait ↦
        let wait : 0 < d.rx_count = ground arith in
        let f : CanFrame = get_or d.rx_buf d.rx_out zero_frame in
        let d1 : CanDev = record d { rx_out = advance d.rx_out; rx_count = d.rx_count - 1 } in
        let v1 : IsValid d1 = ground arith in
        let got = serves.reads stale f d d1 s 16 (read_oldest d v wait) in
        let (d', shows, emptied, kept) = receive_rounds-show n f d1 s v1 (omega arith) in
        let pop = queue-pop d.rx_buf d.rx_out d.rx_count (omega arith) in
        (
          d',
          ground (arith, rounds_show sys n (pos fd) stale f (state d s) got, shows, pop),
          emptied,
          kept,
        )
  ]

  -- From empty rings and without other interrupts: as many receive interrupts as the controller has
  -- frames to offer, up to six, and then as many rounds of the loop or more, show exactly these
  -- frames as the format carries them, in the order in which they came, and leave none.
  pub receive_rounds-all_shown :
      (fs : List CanFrame) (n : ℕ) (stale : CanFrame) (s : S)
      → length fs ≤ 6
      → length fs ≤ n
      → Offers (Offered bus) (release bus) s fs
      → Ends (interrupts (irq_handler bus) (length fs) empty_rings s) (λ (d1, s1).
        (d' : CanDev) × (receive_rounds sys n (pos fd) stale (state d1 s1)
          ≡ (map received fs, state d' (released (release bus) fs s)))
        × (d'.rx_count ≡ 0))
  unfolding queue
  receive_rounds-all_shown fs n stale s six enough offers =
      let filled = interrupts_fill bus fs empty_rings s empty_rings-IsValid (omega arith) offers in
      elim (Option-cases (interrupts (irq_handler bus) (length fs) empty_rings s)) [
        | inl e ↦ absurd (rw e at filled)
        | inr ((d1, s1), e) ↦
            let (at, rx, tx, v1) = rw e at filled in
            let few : d1.rx_count ≤ n = omega (
              arith,
              length-queue d1.rx_buf d1.rx_out d1.rx_count,
              ap length rx,
              length-map received fs,
            ) in
            let (d', shows, emptied, kept) = receive_rounds-show n stale d1 s1 v1 few in
            rw e (d', ground (arith, at, rx, shows), emptied)
      ]

  rounds_empty :
      (n : ℕ) (stale : CanFrame) (s : S)
      → receive_rounds sys n (pos fd) stale (state empty_rings s) ≡ ([], state empty_rings s)
  rounds_empty zero stale s = rounds_zero sys (pos fd) stale (state empty_rings s)
  rounds_empty (suc n) stale s =
      let nothing =
        serves.finds_nothing stale empty_rings empty_rings s (read_none empty_rings refl) in
      ground (
        arith,
        rounds_skip sys n (pos fd) stale (state empty_rings s) nothing,
        rounds_empty n stale s,
      )

  -- Opening the device drops the frames that wait: until an interrupt comes, the program shows
  -- nothing, however many rounds it makes.
  pub receive_main-drops :
      (n : ℕ) (stale : CanFrame) (d : CanDev) (s s1 : S)
      → (pelican_operations bus).device_open d s ≡ (pos 0, empty_rings, s1)
      → receive_main sys n stale (state d s) ≡ (some [], state empty_rings s1)
  unfolding receive_main
  receive_main-drops n stale d s s1 opens =
      let opened = serves.opens d empty_rings s s1 opens in
      ground (arith, opened, rounds_empty n stale s1)
