-- ===== src/Tests/Programs.antt =====
-- The theorems on whole programs and on the earlier devices, at concrete inputs.
use linux_qemu.Base.{
  ◌^◌, ◌%◌, [], ◌∷◌, some, none, ◌≡◌, refl, inr, arith, replicate, Ends, true, false, length,
  get_or, ◌<◌, ◌≤◌, take, drop,
}
use linux_qemu.Base.Int.{pos}
use linux_qemu.Frame.{zero_frame}
use linux_qemu.Pelican.Handlers
use linux_qemu.Pelican.Receive.{received}
use linux_qemu.CanPci.{can_pci_init, guest_bus}
use linux_qemu.CanPci.Session
use linux_qemu.Memory.{bytes_of}
use linux_qemu.Testdev.{mem_pci_write, mem_pci_read}
use linux_qemu.Testdev.Laws.{mem_pci_read-write, mem_pci_write-outcomes}
use linux_qemu.CanPci2
use linux_qemu.Tests.Frames.{sample, sample-IsFrame, one_waiting, reset_state}

session_delivers_example : Ends (can_pci_init true reset_state) (λ s1.
    let (opened, d2, t) = Handlers.device_open (guest_bus zero_frame) one_waiting (some s1) in
    (opened ≡ pos 0)
    × Ends (Handlers.device_write (guest_bus zero_frame) 16 sample false d2 t) (λ (written, d3, t3).
      (written ≡ pos 16)
      × (d3.tx_count ≡ 0)
      × Ends t3 (λ u. (u.chr ≡ received sample ∷ []) × (u.irq ≡ true))))
session_delivers_example =
    Session.session_delivers zero_frame sample reset_state one_waiting
      (record { trx_size = refl; mask_size = refl; tx_size = refl }) sample-IsFrame (omega arith)
      (inr refl) (inr refl) refl

-- Two bytes in the middle.
mem_pci_read-write_example : Ends (mem_pci_write 4 0x1_2345 2 (replicate 16 7)) (λ mem.
    Ends (mem_pci_read 4 2 (1 ∷ 2 ∷ 3 ∷ 4 ∷ []) mem) (λ v. v % 256 ^ 2 ≡ 0x1_2345 % 256 ^ 2)
    × (length mem ≡ 16)
    × (get_or mem 6 0 ≡ get_or (replicate 16 7) 6 0))
mem_pci_read-write_example =
    mem_pci_read-write 4 0x1_2345 2 1 2 3 4 6 (replicate 16 7) refl (omega arith) (omega arith)
      (inr (omega arith))

mem_pci_write-outcomes_example :
    (16 < 12 → mem_pci_write 12 5 1 (replicate 16 0) ≡ some (replicate 16 0))
    × (12 ≤ 8
        → Ends (mem_pci_write 12 5 1 (replicate 16 0)) (λ mem. take 1 (drop 12 mem) ≡ bytes_of 1 5))
    × (8 < 12 → 12 ≤ 16 → mem_pci_write 12 5 1 (replicate 16 0) ≡ none)
mem_pci_write-outcomes_example = mem_pci_write-outcomes 12 5 1 (replicate 16 0) refl (omega arith)

abbrev first_device : CanPci2.CanState
first_device = record { mem = replicate 16 0; irq = false; chr = [] }
