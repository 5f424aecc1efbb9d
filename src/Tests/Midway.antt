-- ===== src/Tests/Midway.antt =====
-- An interrupt inside send_message, and a second card, at concrete inputs.
use linux_qemu.Base.{
  [], ◌∷◌, none, some, true, false, ◌≡◌, ◌↔◌, inl, inr, refl, arith, Ends, replicate, ℕ, ◌<◌, ◌≤◌,
}
use linux_qemu.Base.Int.{negsuc, pos}
use linux_qemu.Frame.{zero_frame}
use linux_qemu.Driver.{CanDev, empty_rings}
use linux_qemu.Driver.Probe.{Answers, pcisimple_probe}
use linux_qemu.Driver.Probe.Cards.{Heap, probe_card, IsLive, probe_card-probe_card}
use linux_qemu.Pelican.{send_message}
use linux_qemu.Pelican.Send.{tx_image}
use linux_qemu.Pelican.Receive.{received}
use linux_qemu.Pelican.Race.Midway.{interrupting_bus}
use linux_qemu.CanPci.{guest_bus}
use linux_qemu.CanPci.Stream.{Carried}
use linux_qemu.CanPci.Interrupt.{interrupt}
use linux_qemu.CanPci.Midway.{send_message-interrupt}
use linux_qemu.Tests.Frames.{
  sample, remote_extended, sample-IsFrame, remote_extended-IsFrame, operating,
}

pub sample-Carried : Carried zero_frame sample
sample-Carried = record {
  frame = sample-IsFrame;
  short = omega arith;
  id_ok = inr refl;
  clean = inr refl;
}

pub remote_extended-Carried : Carried zero_frame remote_extended
remote_extended-Carried = record {
  frame = remote_extended-IsFrame;
  short = omega arith;
  id_ok = inl refl;
  clean = inl refl;
}

-- A frame waits to be sent, and six to be read.
abbrev unread : CanDev
unread = record empty_rings {
  tx_buf = remote_extended ∷ replicate 5 zero_frame;
  tx_count = 1;
  tx_in = 1;
  rx_count = 6;
}

send_message-interrupt_example :
    let bus = interrupting_bus (interrupt zero_frame unread) (guest_bus zero_frame) in
    (unread.rx_count ≡ 6
      → Ends (send_message bus sample (some operating, some 0)) (λ (t, k).
        (k ≡ none) × Ends t (λ u. u.chr ≡ received remote_extended ∷ received sample ∷ []))
        × Ends (send_message bus sample (some operating, some 6)) (λ (t, k).
          (k ≡ none)
          × Ends t (λ u. u.chr ≡ received remote_extended ∷ received remote_extended ∷ [])))
    × ((k : ℕ)
        → unread.rx_count < 6
        → k ≤ 6
        → send_message bus sample (some operating, some k) ≡ some (none, none))
unfolding tx_image
send_message-interrupt_example =
    send_message-interrupt zero_frame refl sample remote_extended operating unread sample-Carried
      remote_extended-Carried (omega arith) refl
      (record { valid = omega arith; some_wait = omega arith; oldest = refl })

-- The first card is set up; the second finds the device number taken.
abbrev all_well : Answers
all_well = record {
  allocated = true;
  revision = 0x73;
  enable = pos 0;
  regions = pos 0;
  mapped = true;
  irq_refused = false;
  chrdev = pos 0;
  cdev = pos 0;
}

abbrev number_taken : Answers
number_taken = record all_well { chrdev = negsuc 15 }

abbrev empty_heap : Heap
empty_heap = record { device = none; blocks = []; fresh = 7 }

abbrev two_probed : Heap
two_probed = record { device = some 8; blocks = 7 ∷ []; fresh = 9 }

probe_card-probe_card_example :
    (true ≡ true → IsLive (record { device = some 7; blocks = 7 ∷ []; fresh = 8 }))
    × ((false ≡ true) ↔ IsLive two_probed)
unfolding probe_card pcisimple_probe
probe_card-probe_card_example = probe_card-probe_card all_well number_taken empty_heap tt
