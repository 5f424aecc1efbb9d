-- ===== src/Tests/Queues.antt =====
-- The theorems on the rings of the drivers, at concrete rings.
use linux_qemu.Base.{
  ℕ, List, [], ◌∷◌, ◌++◌, some, none, ◌≡◌, refl, inr, true, false, arith, replicate, Ends,
}
use linux_qemu.Base.Int.{pos}
use linux_qemu.Bits.{has}
use linux_qemu.Frame.{CanFrame, write_all}
use linux_qemu.Driver
use linux_qemu.Driver.{CanDev, device_read, irq_transmit, irq_receive}
use linux_qemu.Driver.Fifo
use mathlib.Core.Equiv.{IsEquiv}
use mathlib.Core.Quot
use linux_qemu.Driver.Abstract.{Rings, Device, queues}
use linux_qemu.Driver.Abstract.Calls.{read_device, write_device, device_queues}
use linux_qemu.Driver.Invariant
use linux_qemu.Driver.Invariant.{IsValid, tx_queue, rx_queue}
use linux_qemu.Driver.Probe.{Answers, nothing_held, pcisimple_probe, pcisimple_remove}
use linux_qemu.Driver.Probe.Outcomes
use linux_qemu.Pelican
use linux_qemu.Pelican.Send
use linux_qemu.Driver.Ring.{queue}
use linux_qemu.Pelican.Handlers
use linux_qemu.Pelican.Interrupt
use linux_qemu.Basic
use linux_qemu.Basic.Transfer
use linux_qemu.Basic.Interrupt as BasicInterrupt
use linux_qemu.Tests.Frames.{sample, sample-IsFrame, log, one_waiting}

one_waiting-IsValid : IsValid one_waiting
one_waiting-IsValid = omega arith

device_read_refines_example : Ends (device_read 16 false one_waiting) (λ (ret, out, d').
    ((ret, out, rx_queue d') ≡ Fifo.read 16 false (rx_queue one_waiting))
    × (tx_queue d' ≡ tx_queue one_waiting)
    × IsValid d')
device_read_refines_example = Invariant.device_read_refines 16 false one_waiting one_waiting-IsValid

-- What the controller `log status` has seen once the sample frame is sent after the writes `s`.
abbrev sent : ℕ → List (ℕ × ℕ) → List (ℕ × ℕ)
sent status s = (log status).write8 (write_all (log status) 16 (Send.tx_image sample) s) 1 1

abbrev sample_can_be_sent :
    (status : ℕ) → Pelican.send_message (log status) sample [] ≡ some (sent status [])
sample_can_be_sent status =
    Send.send_message-tx_image (log status) sample [] sample-IsFrame (omega arith) (inr refl)

-- The status 4 is a free transmit buffer.
device_write_refines_example :
    Ends
      (Driver.device_write (log 4) (Pelican.send_message (log 4)) 16 sample false one_waiting [])
      (λ (ret, d', s').
        ((ret, tx_queue d', s')
          ≡ Fifo.write 16 sample false true [] [] (sent 4 []) (tx_queue one_waiting))
        × (rx_queue d' ≡ rx_queue one_waiting)
        × IsValid d')
device_write_refines_example =
    Invariant.device_write_refines (log 4) (Pelican.send_message (log 4)) 16 sample false
      one_waiting [] {sent = sent 4 []} one_waiting-IsValid (sample_can_be_sent 4)

-- Every read of `log 3` is 3: both interrupts, and a standard frame of three bytes.
abbrev after_receive : CanFrame × List (ℕ × ℕ)
after_receive = (
  record { can_id = 24; can_dlc = 3; bytes = 3 ∷ 3 ∷ 3 ∷ replicate 5 0 },
  sent 3 [] ++ (1, 4) ∷ [],
)

irq_handler_refines_example : Ends (Handlers.irq_handler (log 3) one_waiting []) (λ (d', s').
    ((tx_queue d', rx_queue d', s')
      ≡ Fifo.interrupt
          (has 3 2)
          (has 3 1)
          (Handlers.irq_overrun (log 3) 3)
          (λ t. t)
          []
          (sent 3 [])
          after_receive
          (tx_queue one_waiting)
          (rx_queue one_waiting))
    × IsValid d')
unfolding Fifo.send_oldest Pelican.receive_message Pelican.receive_data has Pelican.standard_id
    Send.tx_image queue
irq_handler_refines_example =
    Interrupt.irq_handler_refines (log 3) one_waiting [] {sent = sent 3 []}
      {received = after_receive} one_waiting-IsValid (sample_can_be_sent 3) refl

abbrev sent_basic : List (ℕ × ℕ)
sent_basic = (log 3).write8 (write_all (log 3) 10 (Transfer.tx_image sample) []) 1 1

irq_handler-releases_example : Ends (Basic.irq_handler (log 3) one_waiting []) (λ (d', s').
    ((tx_queue d', rx_queue d', s')
      ≡ Fifo.interrupt
          (has 3 2)
          (has 3 1)
          (Basic.irq_overrun (log 3) 3)
          (λ t. (log 3).write8 t 1 4)
          []
          sent_basic
          (after_receive.0, sent_basic ++ (1, 4) ∷ [])
          (tx_queue one_waiting)
          (rx_queue one_waiting))
    × IsValid d')
unfolding Fifo.send_oldest Basic.receive_message Pelican.receive_data has Transfer.tx_image queue
irq_handler-releases_example =
    BasicInterrupt.irq_handler-releases (log 3) one_waiting [] {sent = sent_basic}
      {received = (after_receive.0, sent_basic ++ (1, 4) ∷ [])} one_waiting-IsValid
      (Transfer.send_message-basic_image (log 3) sample [] sample-IsFrame (omega arith)) refl

-- Every call succeeds, but for the one of each name.
abbrev all_succeed : Answers
all_succeed = record {
  allocated = true;
  revision = 0x73;
  enable = pos 0;
  regions = pos 0;
  mapped = true;
  irq_refused = false;
  chrdev = pos 0;
  cdev = pos 0;
}

abbrev mapping_fails : Answers
mapping_fails = record all_succeed { mapped = false }

pcisimple_remove-probe_example :
    pcisimple_remove (pcisimple_probe mapping_fails nothing_held).1 ≡ none
unfolding pcisimple_probe
pcisimple_remove-probe_example = Outcomes.pcisimple_remove-probe mapping_fails refl

states_set : IsSet (List (ℕ × ℕ))
states_set = hlevel

device_queues_example :
    IsEquiv queues
    × ((x : Rings)
        → Ends (Driver.device_read 16 false x.0) (λ (ret, out, d).
          (v : IsValid d) × (read_device 16 false (Quot.mk x) ≡ ((ret, out), Quot.mk (d, v)))))
    × ((q : Device)
        → let ((ret, out), q') = read_device 16 false q in
          ((ret, out, (queues q').0.0) ≡ Fifo.read 16 false (queues q).0.0)
          × ((queues q').1.0 ≡ (queues q).1.0))
    × ((x : Rings)
        → Ends
            (Driver.device_write (log 4) (Pelican.send_message (log 4)) 16 sample false x.0 [])
            (λ (ret, d, s').
              (v : IsValid d) × (write_device states_set
                  (log 4)
                  (Pelican.send_message (log 4))
                  16
                  sample
                  false
                  []
                  (sent 4 [])
                  (sample_can_be_sent 4)
                  (Quot.mk x)
                ≡ ((ret, s'), Quot.mk (d, v)))))
    × ((q : Device)
        → let ((ret, s'), q') =
            write_device states_set
              (log 4)
              (Pelican.send_message (log 4))
              16
              sample
              false
              []
              (sent 4 [])
              (sample_can_be_sent 4)
              q in
          ((ret, (queues q').1.0, s')
            ≡ Fifo.write 16 sample false true [] [] (sent 4 []) (queues q).1.0)
          × ((queues q').0.0 ≡ (queues q).0.0))
device_queues_example =
    device_queues states_set (log 4) (Pelican.send_message (log 4)) 16 sample false [] (sent 4 [])
      (sample_can_be_sent 4)
