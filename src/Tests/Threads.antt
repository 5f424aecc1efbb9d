-- ===== src/Tests/Threads.antt =====
-- A reader and a writer of the PeliCAN driver, interleaved with its interrupt handler, and two readers
-- and two writers that collide.
use linux_qemu.Base.{
  replicate, true, ℕ, List, [], ◌∷◌, ◌++◌, ◌≡◌, refl, arith, false, Ends, set, ◌-◌, ◌<◌, some,
}
use mathlib.Core.List.{Perm}
use linux_qemu.Bits.{has}
use linux_qemu.Frame.{CanFrame, zero_frame}
use linux_qemu.Driver.{irq_receive, empty_rings}
use linux_qemu.Driver.Ring.{queue}
use linux_qemu.Driver.Invariant.{rx_queue, tx_queue}
use linux_qemu.Driver.Threads.{
  resting, copied, stepped, outside, filled, read_step, write_step, System, reads, writes, receives,
  Reach, here, later,
}
use linux_qemu.Driver.Threads.Rings.{rx_view}
use linux_qemu.Pelican.Handlers.{device_open, set_up}
use linux_qemu.Driver.Threads.Order.{IsQuiet, threads_in_order, threads_conserve}
use linux_qemu.Pelican.Reopens.{read_frames, read_reopened, read_reopened-ghosts}
use linux_qemu.Driver.Mode.{enter_reset, leave_reset}
use linux_qemu.Driver.Threads.Collide.{
  run_readers, five_each, readers_collide, run_writers, writers_collide,
}
use linux_qemu.Pelican.{send_message, receive_message, receive_data, standard_id}
use linux_qemu.Pelican.Send.{tx_image}
use linux_qemu.Pelican.Receive.{received}
use linux_qemu.Tests.Frames.{sample, remote_extended, one_waiting, receiving, memory}

abbrev pub size_t : ℕ
size_t = 18_446_744_073_709_551_616

-- One frame waits for each side, and the controller has a third.
abbrev pub before : System (List CanFrame)
before = record {
  dev = one_waiting;
  controller = record { controller = sample ∷ []; sent = [] };
  reader = resting;
  writer = outside;
  got = [];
  came = [];
  given = [];
}

pub before-IsQuiet : IsQuiet before
before-IsQuiet = record {
  valid = omega arith;
  no_reader = refl;
  no_writer = refl;
  none_got = refl;
  none_came = refl;
  none_given = refl;
}

-- The third frame is received while the reader is at work, which has incremented rx_out, and the writer
-- has filled a slot.
abbrev pub between : System (List CanFrame)
between = record before {
  dev = record one_waiting {
    rx_buf = set one_waiting.rx_buf one_waiting.rx_in (received sample);
    rx_count = 2;
    rx_in = 2;
    rx_out = 1;
    tx_buf = set one_waiting.tx_buf one_waiting.tx_in sample;
  };
  controller = record { controller = []; sent = [] };
  reader = stepped;
  writer = filled sample;
  got = rx_queue one_waiting;
  came = received sample ∷ [];
}

abbrev pub run :
    Reach size_t receiving (send_message receiving) (receive_message receiving) before between
unfolding read_step write_step irq_receive receive_message receive_data standard_id tx_image
    received has queue
run =
    later
      (later
        (later
          (later (later (later here (reads false refl refl)) (writes sample refl refl))
            (receives refl refl refl refl))
          (reads false refl refl))
        (writes sample refl refl))
      (reads false refl refl)

threads_in_order_example :
    (between.got ++ rx_view between.reader between.dev ≡ rx_queue before.dev ++ between.came)
    × ((f : CanFrame)
        → between.reader ≡ copied f
        → (rest : List CanFrame) × (rx_view between.reader between.dev ≡ f ∷ rest))
threads_in_order_example =
    threads_in_order size_t receiving (send_message receiving) (receive_message receiving)
      (omega arith) before-IsQuiet run

threads_conserve_example :
    Perm
      (between.controller.sent ++ tx_queue between.dev)
      ((before.controller.sent ++ tx_queue before.dev) ++ between.given)
threads_conserve_example =
    threads_conserve size_t receiving (send_message receiving) (receive_message receiving)
      (omega arith) before-IsQuiet run

readers_collide_example :
    Ends (run_readers size_t five_each one_waiting resting resting) (λ (d, p, q, g1, g2).
      (p ≡ resting)
      × (q ≡ resting)
      × (g1 ≡ remote_extended ∷ [])
      × (g2 ≡ remote_extended ∷ [])
      × (d.rx_count ≡ size_t - 1))
unfolding queue
readers_collide_example = readers_collide size_t one_waiting (omega arith) (omega arith) refl

writers_collide_example :
    Ends
      (run_writers receiving
        (send_message receiving)
        size_t
        sample
        remote_extended
        (true ∷ false ∷ five_each)
        empty_rings
        []
        outside
        outside)
      (λ (d, s, p, q, g1, g2).
        (p ≡ outside)
        × (q ≡ outside)
        × (g1 ≡ sample ∷ [])
        × (g2 ≡ remote_extended ∷ [])
        × (tx_queue d ≡ remote_extended ∷ zero_frame ∷ []))
unfolding queue
writers_collide_example =
    writers_collide receiving (send_message receiving) size_t sample remote_extended empty_rings []
      (omega arith) (omega arith) (omega arith) refl refl

read_reopened-ghosts_example :
    Ends (read_reopened memory size_t one_waiting (λ a. 0)) (λ (ret, d', p, h).
      (p ≡ resting)
      × (d'.rx_count ≡ size_t - 1)
      × ((n : ℕ)
          → n < size_t
          → Ends (read_frames n d') (λ (outs, e). outs ≡ replicate n (some zero_frame))))
unfolding device_open set_up enter_reset leave_reset
read_reopened-ghosts_example =
    read_reopened-ghosts memory size_t one_waiting (λ a. 0) (omega arith) (omega arith)
      (omega arith) refl
