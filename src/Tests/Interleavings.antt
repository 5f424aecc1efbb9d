-- ===== src/Tests/Interleavings.antt =====
-- The theorems on interrupts that come between the driver's operations, at concrete inputs.
use linux_qemu.Base.{
  ℕ, List, [], ◌∷◌, some, none, ◌≡◌, refl, arith, replicate, Ends, false, ◌≤◌, ◌⊎◌, ◌++◌, inl, inr,
  Bool, true, if◌then◌else◌, ◌==◌,
}
use linux_qemu.Base.Int.{pos, efault}
use linux_qemu.Bits.{has}
use linux_qemu.Frame.{Bus, zero_frame}
use linux_qemu.Driver
use linux_qemu.Driver.{CanDev, empty_rings, irq_transmit, irq_receive}
use linux_qemu.Driver.Invariant.{IsValid, rx_queue, tx_queue, empty_rings-IsValid}
use linux_qemu.Driver.Ring.{queue}
use linux_qemu.Driver.Traffic.{Logged, Run, done, next, writes, transmits}
use linux_qemu.Pelican.{send_message, send_data, receive_message}
use linux_qemu.Pelican.Drain.{IsSendable, handled, drained, interrupts_drain}
use linux_qemu.Pelican.Storm.{stormed, irq_handler-storms}
use linux_qemu.Driver.Repeat.{interrupts}
use linux_qemu.Driver.Mode.Accesses.{counted_bus}
use linux_qemu.Pelican.Send.{tx_image}
use linux_qemu.Pelican.Opens.{device_open-accesses}
use linux_qemu.Pelican.Race.{device_write_interrupted}
use linux_qemu.Pelican.Race.Lost.{after_status, device_write-strands}
use linux_qemu.Pelican.Handlers.{irq_handler, device_open}
use linux_qemu.CanPci.{guest_bus}
use linux_qemu.CanPci.Mismatch.{irq_handler-faults}
use linux_qemu.Tests.Frames.{
  sample, remote_extended, sample-IsFrame, log, one_waiting, reset_state, remote_extended-IsFrame,
}

-- A controller that is busy, with no frame given to it, and once it has been given one.
abbrev quiet : Logged (List (ℕ × ℕ))
quiet = record { controller = []; sent = [] }

abbrev given_one : Logged (List (ℕ × ℕ))
given_one = record {
  controller =
      (16, 3) ∷ (17, 0x24) ∷ (18, 0x60) ∷ (19, 0x12) ∷ (20, 0x34) ∷ (21, 0x56) ∷ (1, 1) ∷ [];
  sent = sample ∷ [];
}

abbrev queued_two : CanDev
queued_two = record empty_rings {
  tx_buf = sample ∷ remote_extended ∷ replicate 4 zero_frame;
  tx_count = 2;
  tx_in = 2;
}

abbrev one_left : CanDev
one_left = record queued_two { tx_count = 1; tx_out = 1 }

abbrev queued_one : CanDev
queued_one = record empty_rings {
  tx_buf = sample ∷ replicate 5 zero_frame;
  tx_count = 1;
  tx_in = 1;
}

-- Two frames are written while the controller is busy, and one interrupt comes.
abbrev two_then_one :
    Run
      (log 2)
      (send_message (log 2))
      (receive_message (log 2))
      empty_rings
      quiet
      (sample ∷ remote_extended ∷ [])
      one_left
      given_one
unfolding Driver.device_write irq_transmit send_message send_data has
two_then_one =
    next {d1 = queued_one} {s1 = quiet} (writes {ret = pos 16} 16 sample false refl refl)
      (next {d1 = queued_two} {s1 = quiet}
        (writes {ret = pos 16} 16 remote_extended false refl refl)
        (next {d1 = one_left} {s1 = given_one} (transmits 2 refl) done refl) refl)
      refl

sample-IsSendable : IsSendable sample
sample-IsSendable = record { frame = sample-IsFrame; short = omega arith; id_ok = inr refl }

remote_extended-IsSendable : IsSendable remote_extended
remote_extended-IsSendable = record {
  frame = remote_extended-IsFrame;
  short = omega arith;
  id_ok = inl refl;
}

-- A controller that shows its transmit interrupt until the register is read, and has sent what it was given
-- by the next interrupt. It lists the writes.
abbrev clearing : Bus (Bool × List (ℕ × ℕ))
clearing = record {
  read8 = λ (pending, w) a.
      if a == 3 then (if pending then 2 else 0, (false, w)) else (0, (pending, w));
  write8 = λ (pending, w) a v. (pending, w ++ (a, v) ∷ []);
}

abbrev completes : Bool × List (ℕ × ℕ) → Bool × List (ℕ × ℕ)
completes (pending, w) = (true, w)

interrupts_drain_example :
    Ends (interrupts (handled clearing completes) 2 queued_two (true, [])) (λ (d', t).
      (t ≡ drained clearing completes (sample ∷ remote_extended ∷ []) (true, []))
      × (tx_queue d' ≡ [])
      × (rx_queue d' ≡ rx_queue queued_two)
      × IsValid d')
unfolding queue has
interrupts_drain_example =
    interrupts_drain clearing completes (sample ∷ remote_extended ∷ []) queued_two (true, [])
      (omega arith) refl (sample-IsSendable, (remote_extended-IsSendable, tt))
      (refl, refl, (refl, refl, tt))

-- The second status differs from the first: the list holds the answers still to come.
abbrev script : Bus (List ℕ)
script = record { read8 = λ s a. elim s [ [] ↦ (0, []) | x ∷ xs ↦ (x, xs) ]; write8 = λ s a v. s }

device_write-strands_example :
    Ends
      (device_write_interrupted script after_status 16 sample false empty_rings (0 ∷ 2 ∷ []))
      (λ (ret, d', s'). (ret ≡ pos 16) × (tx_queue d' ≡ sample ∷ []) × (s' ≡ []))
device_write-strands_example =
    device_write-strands script sample empty_rings (0 ∷ 2 ∷ []) empty_rings-IsValid refl refl refl

irq_handler-faults_example :
    irq_handler (guest_bus zero_frame) empty_rings (some reset_state) ≡ none
irq_handler-faults_example =
    irq_handler-faults zero_frame empty_rings reset_state refl refl (omega arith)

-- Six frames wait for a reader and one to be sent. All the controller's registers read
-- as 0xff.
abbrev full : CanDev
full = record empty_rings {
  tx_buf = sample ∷ replicate 5 zero_frame;
  tx_count = 1;
  tx_in = 1;
  rx_count = 6;
}

irq_handler-storms_example : Ends (interrupts (handled (log 0xff) (λ t. t)) 3 full []) (λ (d', t).
    ((tx_queue d', t) ≡ stormed (log 0xff) (λ t. t) 3 (tx_queue full) [])
    × (rx_queue d' ≡ rx_queue full)
    × IsValid d')
unfolding queue has tx_image
irq_handler-storms_example =
    irq_handler-storms (log 0xff) (λ t. t) 3 full [] (omega arith) refl (sample-IsSendable, tt)
      (refl, (refl, (refl, tt)))

device_open-accesses_example :
    let (ret, d', t) = device_open (counted_bus (log 0)) one_waiting ([], 0) in
    (((ret ≡ pos 0) × (d' ≡ empty_rings)) ⊎ ((ret ≡ efault) × (d' ≡ one_waiting))) × (t.1 ≤ 24)
device_open-accesses_example = device_open-accesses (log 0) one_waiting [] 0
