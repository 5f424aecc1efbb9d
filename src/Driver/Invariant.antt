-- ===== src/Driver/Invariant.antt =====
-- The rings of both drivers keep their shape and act as bounded queues: what each operation of
-- source/linux_driver/*/can_pci.c does to the frames that wait.
use linux_qemu.Base.{
  Ends, ℕ, ◌+◌, ◌%◌, ◌≤◌, ◌<◌, bit_and, List, [], ◌∷◌, ◌++◌, Option, some, ◌≡◌, Bool, arith, ◌==◌,
  length, length-set, get_or, set, get_elem?-eq-get_or, get_or-set_self,
}
use linux_qemu.Bits.{has}
use linux_qemu.Frame.{CanFrame, zero_frame, Bus}
use linux_qemu.Driver.{CanDev, empty_rings, device_read, device_write, irq_transmit, irq_receive}
use linux_qemu.Driver.Fifo
use linux_qemu.Driver.Ring.{queue, length-queue, queue-set, queue-set_same, queue-pop}

-- Six slots, indices inside them, and the next free slot just past the frames that wait.
pub record IsRing (buf : List CanFrame) (count next_in next_out : ℕ) : Type 0 where
  pub six : length buf ≡ 6
  pub out_in : next_out < 6
  pub count_in : count ≤ 6
  pub in_after : next_in ≡ (next_out + count) % 6

pub record IsValid (d : CanDev) : Type 0 where
  pub tx : IsRing d.tx_buf d.tx_count d.tx_in d.tx_out
  pub rx : IsRing d.rx_buf d.rx_count d.rx_in d.rx_out

-- The frames that wait for the controller, and for the reader.
abbrev pub tx_queue : CanDev → List CanFrame
tx_queue d = queue d.tx_buf d.tx_out d.tx_count

abbrev pub rx_queue : CanDev → List CanFrame
rx_queue d = queue d.rx_buf d.rx_out d.rx_count

pub empty_rings-IsValid : IsValid empty_rings
empty_rings-IsValid = omega arith

-- What device_read leaves of well-formed rings: the answer and the receive queue are those of the
-- queue's `read`, the transmit queue stays, and the rings stay well formed. It never fails to end.
pub device_read_refines :
    (count : ℕ) (failed : Bool) (d : CanDev)
    → IsValid d
    → Ends (device_read count failed d) (λ (ret, out, d').
      ((ret, out, rx_queue d') ≡ Fifo.read count failed (rx_queue d))
      × (tx_queue d' ≡ tx_queue d)
      × IsValid d')
unfolding device_read Fifo.read
device_read_refines count failed d v = ground (
  arith,
  get_elem?-eq-get_or d.rx_buf d.rx_out zero_frame,
  queue-pop d.rx_buf d.rx_out d.rx_count,
  length-queue d.rx_buf d.rx_out d.rx_count,
)

module _ {S : Type 0} (bus : Bus S) (send : CanFrame → S → Option S) where
  -- device_write on well-formed rings, where the frame can be sent: it ends; answer, transmit queue
  -- and controller are those of the queue's `write`, the receive queue stays, and the rings stay
  -- well formed.
  pub device_write_refines :
      (count : ℕ) (slot : CanFrame) (failed : Bool) (d : CanDev) (s : S) {sent : S}
      → IsValid d
      → send slot (bus.read8 s 2).1 ≡ some sent
      → Ends (device_write bus send count slot failed d s) (λ (ret, d', s').
        ((ret, tx_queue d', s')
          ≡ Fifo.write count slot failed
              (bit_and (bus.read8 s 2).0 4 == 4)
              s
              (bus.read8 s 2).1
              sent
              (tx_queue d))
        × (rx_queue d' ≡ rx_queue d)
        × IsValid d')
  unfolding device_write Fifo.write
  device_write_refines count slot failed d s v e = ground (
    arith,
    length-queue d.tx_buf d.tx_out d.tx_count,
    length-set d.tx_buf d.tx_in slot,
    get_elem?-eq-get_or (set d.tx_buf d.tx_in slot) d.tx_in zero_frame,
    get_or-set_self d.tx_buf d.tx_in slot zero_frame,
    queue-set d.tx_buf slot d.tx_count d.tx_out d.tx_in,
    queue-set_same d.tx_buf slot d.tx_count d.tx_out d.tx_in,
  )

  -- On well-formed rings whose oldest frame can be sent: on a transmit interrupt the oldest waiting
  -- frame is sent and leaves the queue; with none waiting, or no such interrupt, nothing happens.
  -- The receive queue stays, and the rings stay well formed.
  pub irq_transmit_refines :
      (temp : ℕ) (d : CanDev) (s : S) {sent : S}
      → IsValid d
      → send (get_or d.tx_buf d.tx_out zero_frame) s ≡ some sent
      → Ends (irq_transmit bus send temp d s) (λ (d', s').
        ((tx_queue d', s') ≡ Fifo.send_oldest (has temp 2) s sent (tx_queue d))
        × (rx_queue d' ≡ rx_queue d)
        × IsValid d')
  unfolding irq_transmit Fifo.send_oldest
  irq_transmit_refines temp d s v e = ground (
    arith,
    get_elem?-eq-get_or d.tx_buf d.tx_out zero_frame,
    queue-pop d.tx_buf d.tx_out d.tx_count,
    length-queue d.tx_buf d.tx_out d.tx_count,
  )

-- On well-formed rings with fewer than six frames waiting for the reader, the frame that the
-- controller gives goes behind them; the transmit queue stays, and the rings stay well formed.
pub irq_receive_refines :
    {S : Type 0} (receive : S → Option (CanFrame × S)) (d : CanDev) (s : S) {f : CanFrame} {s' : S}
    → IsValid d
    → d.rx_count < 6
    → receive s ≡ some (f, s')
    → Ends (irq_receive receive d s) (λ (d', t).
      (t ≡ s') × (rx_queue d' ≡ rx_queue d ++ f ∷ []) × (tx_queue d' ≡ tx_queue d) × IsValid d')
unfolding irq_receive
irq_receive_refines receive d s {f} v room e =
    ground (arith, length-set d.rx_buf d.rx_in f, queue-set d.rx_buf f d.rx_count d.rx_out d.rx_in)
