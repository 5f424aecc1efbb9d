-- ===== src/Driver/Threads/Keeps.antt =====
-- Each statement of Driver.Threads keeps both rings well formed, and what it does to their frames.
use linux_qemu.Base.{
  ℕ, ◌+◌, ◌-◌, ◌%◌, ◌<◌, bit_and, List, [], ◌∷◌, ◌++◌, Option, Option-cases, some, Bool, Bool-cases,
  true, false, ◌&&◌, ltb, ◌==◌, ◌≡◌, refl, inl, inr, arith, Ends, length-set, get_elem?-eq-get_or,
  get_or, get_or-set_self, get_or-set_ne,
}
use linux_qemu.Base.Words.{sub_word, add_word}
use linux_qemu.Bits.{has}
use linux_qemu.Frame.{CanFrame, Bus, zero_frame}
use linux_qemu.Driver.{CanDev, buffer_size, irq_transmit, irq_receive}
use linux_qemu.Driver.Ring.{advance, queue-pop, queue-snoc, queue-set, queue-set_same}
use linux_qemu.Driver.Invariant.{tx_queue}
use linux_qemu.Driver.Traffic.{Logged, logged_bus, logged_send}
use linux_qemu.Driver.Traffic.Moves.{Move, idles, queues, passes, sends}
use linux_qemu.Driver.Threads.{
  ReadPc, resting, found, copied, stepped, moved, WritePc, outside, admitted, filled, asked,
  counted, stored, read_step, write_step,
}
use linux_qemu.Driver.Threads.Rings.{wrapped, RxInv, rx_view, TxInv, SameRx, SameTx}

-- The reader never leaves its array, and what it takes is the oldest frame.
pub read_step-keeps :
    (word : ℕ) (failed : Bool) (d : CanDev) (pc : ReadPc)
    → 6 < word
    → RxInv pc d
    → Ends
        (read_step word failed d pc)
        (λ (d', pc', h). RxInv pc' d' × (rx_view pc d ≡ h ++ rx_view pc' d') × SameTx d d')
unfolding read_step
read_step-keeps word failed d resting big v = ground arith
read_step-keeps word failed d found big v =
    ground (arith, get_elem?-eq-get_or d.rx_buf d.rx_out zero_frame)
read_step-keeps word failed d (copied f) big v =
    ground (arith, queue-pop d.rx_buf d.rx_out d.rx_count)
read_step-keeps word failed d stepped big v = ground arith
read_step-keeps word failed d moved big v =
    let wraps : (d.rx_count + word - 1) % word ≡ d.rx_count - 1 =
      sub_word word d.rx_count 1 (omega arith) (omega arith) in
    ground (arith, wraps)

-- Taking the oldest frame leaves the writer what it relies on.
sent_keeps :
    (pc : WritePc) (d : CanDev)
    → TxInv pc d
    → 0 < d.tx_count
    → TxInv pc (record d { tx_out = advance d.tx_out; tx_count = d.tx_count - 1 })
sent_keeps outside d v some_wait = ground arith
sent_keeps admitted d v some_wait = ground arith
sent_keeps (filled f) d v some_wait = ground arith
sent_keeps (asked f temp) d v some_wait = ground arith
sent_keeps counted d v some_wait = ground arith
sent_keeps stored d v some_wait = ground arith

module _ {S : Type 0} (bus : Bus S) (send : CanFrame → S → Option S) where
  -- A statement of the writer that ends.
  pub write_step-keeps :
      (word : ℕ) (slot : CanFrame) (d d' : CanDev) (s s' : Logged S) (pc pc' : WritePc)
      (h : List CanFrame)
      → 6 < word
      → TxInv pc d
      → write_step (logged_bus bus send) (logged_send bus send) word slot d s pc
        ≡ some (d', s', pc', h)
      → TxInv pc' d' × Move true h (tx_queue d) s.sent (tx_queue d') s'.sent × SameRx d d'
  unfolding write_step
  write_step-keeps word slot d d' s s' outside pc' h big v e =
      (ground arith, idles (ground arith) (ground arith) (ground arith), ground arith)
  write_step-keeps word slot d d' s s' admitted pc' h big v e =
      let size = length-set d.tx_buf d.tx_in slot in
      let put = get_or-set_self d.tx_buf d.tx_in slot zero_frame in
      let kept = queue-set_same d.tx_buf slot d.tx_count d.tx_out d.tx_in in
      (
        ground (arith, size, put),
        idles (ground arith) (ground (arith, kept)) (ground arith),
        ground arith,
      )
  write_step-keeps word slot d d' s s' (filled f) pc' h big v e =
      (ground arith, idles (ground arith) (ground arith) (ground arith), ground arith)
  write_step-keeps word slot d d' s s' (asked f temp) pc' h big v e =
      elim (Bool-cases (bit_and temp 4 == 4)) [
        | inl free ↦
            let found = get_elem?-eq-get_or d.tx_buf d.tx_in zero_frame in
            elim (Option-cases (send f s.controller)) [
              | inl n ↦ absurd (ground (arith, free, found, n))
              | inr (t, m) ↦ (
                ground (arith, free, found, m),
                passes refl (ground (arith, free, found, m)) (ground (arith, free, found, m)),
                ground (arith, free, found, m),
              )
            ]
        | inr locked ↦
            let added = queue-snoc d.tx_buf d.tx_count d.tx_out d.tx_in in
            let fits : (d.tx_count + 1) % word ≡ d.tx_count + 1 =
              add_word word d.tx_count 1 (omega arith) in
            (
              ground (arith, locked, fits),
              queues (ground (arith, locked)) (ground (arith, locked, fits, added))
                  (ground (arith, locked)),
              ground (arith, locked),
            )
      ]
  write_step-keeps word slot d d' s s' counted pc' h big v e =
      (ground arith, idles (ground arith) (ground arith) (ground arith), ground arith)
  write_step-keeps word slot d d' s s' stored pc' h big v e =
      (ground arith, idles (ground arith) (ground arith) (ground arith), ground arith)

  pub transmit_keeps :
      (temp : ℕ) (d d' : CanDev) (s s' : Logged S) (pc : WritePc)
      → TxInv pc d
      → irq_transmit (logged_bus bus send) (logged_send bus send) temp d s ≡ some (d', s')
      → TxInv pc d' × Move true [] (tx_queue d) s.sent (tx_queue d') s'.sent × SameRx d d'
  unfolding irq_transmit
  transmit_keeps temp d d' s s' pc v e =
      let oldest = get_elem?-eq-get_or d.tx_buf d.tx_out zero_frame in
      let f : CanFrame = get_or d.tx_buf d.tx_out zero_frame in
      elim (Bool-cases (has temp 2 && ltb 0 d.tx_count)) [
        | inl b ↦ elim (Option-cases (send f s.controller)) [
          | inl n ↦ absurd (ground (arith, oldest, n, b))
          | inr (t, m) ↦
              let pop = queue-pop d.tx_buf d.tx_out d.tx_count in
              let left : d' ≡ record d { tx_out = advance d.tx_out; tx_count = d.tx_count - 1 } =
                ground (arith, oldest, m, b) in
              (
                rw left (sent_keeps pc d v (ground (arith, b))),
                sends f refl (ground (arith, oldest, m, b, pop)) (ground (arith, oldest, m, b)),
                ground (arith, oldest, m, b),
              )
        ]
        | inr b ↦
            let left : d' ≡ d = ground (arith, b) in
            (rw left v, idles refl (ground (arith, b)) (ground (arith, b)), ground (arith, b))
      ]

pub receive_keeps :
    {S : Type 0} (receive : S → Option (CanFrame × S)) (d d' : CanDev) (s t : S) (f : CanFrame)
    (pc : ReadPc)
    → RxInv pc d
    → (d.rx_count == buffer_size) ≡ false
    → receive s ≡ some (f, t)
    → irq_receive receive d s ≡ some (d', t)
    → RxInv pc d' × (rx_view pc d' ≡ rx_view pc d ++ f ∷ []) × SameTx d d'
unfolding irq_receive
receive_keeps receive d d' s t f resting v room took e =
    ground
      (arith, took, length-set d.rx_buf d.rx_in f, queue-set d.rx_buf f d.rx_count d.rx_out d.rx_in)
receive_keeps receive d d' s t f found v room took e =
    ground
      (arith, took, length-set d.rx_buf d.rx_in f, queue-set d.rx_buf f d.rx_count d.rx_out d.rx_in)
receive_keeps receive d d' s t f (copied g) v room took e = ground (
  arith,
  took,
  length-set d.rx_buf d.rx_in f,
  queue-set d.rx_buf f d.rx_count d.rx_out d.rx_in,
  get_or-set_ne d.rx_buf d.rx_in d.rx_out f zero_frame,
)
receive_keeps receive d d' s t f stepped v room took e = ground (
  arith,
  took,
  length-set d.rx_buf d.rx_in f,
  queue-set d.rx_buf f (d.rx_count - 1) (wrapped d.rx_out) d.rx_in,
)
receive_keeps receive d d' s t f moved v room took e = ground (
  arith,
  took,
  length-set d.rx_buf d.rx_in f,
  queue-set d.rx_buf f (d.rx_count - 1) d.rx_out d.rx_in,
)
