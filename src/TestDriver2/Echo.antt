-- ===== src/TestDriver2/Echo.antt =====
-- The driver of backup/qemu_linux2/qemu_test on the device of backup/qemu_linux2/can-pci.c.
use linux_qemu.Base.{
  ℕ, ◌+◌, ◌^◌, ◌%◌, ◌≤◌, inr, [], ◌∷◌, ◌++◌, true, false, ◌≡◌, refl, arith, Ends, Ends-bind, length,
}
use linux_qemu.Base.Int.{pos}
use linux_qemu.Memory
use linux_qemu.Memory.Laws.{read-write}
use linux_qemu.CanPci2.{
  CanState, can_mem_write, can_mem_read, can_ioport_write, can_ioport_read, whatever,
}
use linux_qemu.TestDriver2.{Held, pcisimple_probe}

-- With eight bytes of the region left a write is read back, and the backend is given nothing.
can_mem_read-write :
    (addr val size s0 s1 s2 s3 : ℕ) (s : CanState)
    → length s.mem ≡ 16
    → addr ≤ 8
    → size ≤ 4
    → Ends (can_mem_write addr val size s) (λ t.
      Ends
        (can_mem_read addr size (s0 ∷ s1 ∷ s2 ∷ s3 ∷ []) t)
        (λ v. v % 256 ^ size ≡ val % 256 ^ size)
      × (length t.mem ≡ 16)
      × (t.chr ≡ s.chr))
unfolding can_mem_write can_mem_read
can_mem_read-write addr val size s0 s1 s2 s3 s long inside short =
    Ends-bind (Memory.write 16 addr val size s.mem) _ _
      (read-write 16 addr val size s0 s1 s2 s3 (addr + size) s.mem long (omega arith) short
        (inr (omega arith)))
      (λ m (reads, long2, _). (reads, long2, refl))

-- With the expected revision, and when nothing is refused, the probe reports success, the backend
-- has been given the fixed text once, and what the probe reads back is 0 from the port, and the
-- word and the byte it wrote to the memory, whatever the device's variable held.
pub pcisimple_probe-whatever :
    (s : CanState) (h : Held) (s0 s1 s2 s3 : ℕ)
    → length s.mem ≡ 16
    → Ends
        (pcisimple_probe can_ioport_write can_ioport_read can_mem_write
          (λ addr size t. can_mem_read addr size (s0 ∷ s1 ∷ s2 ∷ s3 ∷ []) t)
          0x73
          (pos 0)
          false
          h
          s)
        (λ (ret, shown, h2, t).
          (ret ≡ pos 0)
          × (shown ≡ 0 ∷ 0x12345678 ∷ 0x89 ∷ [])
          × (t.chr ≡ s.chr ++ whatever ∷ [])
          × (h2 ≡ record { device = true; irq = true }))
unfolding pcisimple_probe can_ioport_write can_ioport_read
pcisimple_probe-whatever s h s0 s1 s2 s3 size =
    let start = can_ioport_write 0 0x89 s in
    let first =
      can_mem_read-write 0 0x12345678 4 s0 s1 s2 s3 start size (omega arith) (omega arith) in
    Ends-bind (can_mem_write 0 0x12345678 4 start) _ _ first (λ t1 (reads, long, chr1).
      let second = can_mem_read-write 8 0x89 1 s0 s1 s2 s3 t1 long (omega arith) (omega arith) in
      Ends-bind (can_mem_read 0 4 (s0 ∷ s1 ∷ s2 ∷ s3 ∷ []) t1) _ _ reads (λ v1 shown1.
        Ends-bind (can_mem_write 8 0x89 1 t1) _ _ second (λ t2 (reads2, long2, chr2).
          Ends-bind (can_mem_read 8 1 (s0 ∷ s1 ∷ s2 ∷ s3 ∷ []) t2) _ _ reads2
            (λ v2 shown2. ground (arith, shown1, shown2, chr1, chr2)))))
