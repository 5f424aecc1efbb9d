-- ===== src/TestDriver1/Echo.antt =====
-- The driver of backup/qemu_linux1 on the device of backup/qemu_linux1/pci_testdev2.c.
use linux_qemu.Base.{ℕ, inl, inr, List, [], ◌∷◌, ◌≡◌, arith, Ends, Ends-bind, length}
use linux_qemu.Base.Int.{pos}
use linux_qemu.Testdev.{mem_pci_write, mem_pci_read}
use linux_qemu.Testdev.Laws.{mem_pci_read-write}
use linux_qemu.TestDriver1.{pcisimple_probe}

-- With the expected revision, the word and the byte that the probe writes to the device's sixteen
-- bytes are read back as they were written, whatever the device's variable held, and the probe
-- reports success.
pub pcisimple_probe-echo :
    (mem : List ℕ) (s0 s1 s2 s3 : ℕ)
    → length mem ≡ 16
    → Ends
        (pcisimple_probe mem_pci_write
          (λ addr size m. mem_pci_read addr size (s0 ∷ s1 ∷ s2 ∷ s3 ∷ []) m)
          0x73
          mem)
        (λ (ret, shown, m). (ret ≡ pos 0) × (shown ≡ 0x12345678 ∷ 0x89 ∷ []) × (length m ≡ 16))
unfolding pcisimple_probe
pcisimple_probe-echo mem s0 s1 s2 s3 size =
    let first =
      mem_pci_read-write 0 0x12345678 4 s0 s1 s2 s3 8 mem size (omega arith) (omega arith)
        (inr (omega arith)) in
    Ends-bind (mem_pci_write 0 0x12345678 4 mem) _ _ first (λ m1 (reads, long, _).
      let second =
        mem_pci_read-write 8 0x89 1 s0 s1 s2 s3 0 m1 long (omega arith) (omega arith)
          (inl (omega arith)) in
      Ends-bind (mem_pci_read 0 4 (s0 ∷ s1 ∷ s2 ∷ s3 ∷ []) m1) _ _ reads (λ v1 shown1.
        Ends-bind (mem_pci_write 8 0x89 1 m1) _ _ second (λ m2 (reads2, long2, _).
          Ends-bind (mem_pci_read 8 1 (s0 ∷ s1 ∷ s2 ∷ s3 ∷ []) m2) _ _ reads2
            (λ v2 shown2. ground (arith, shown1, shown2, long2)))))
