-- ===== src/Tests/Atomic.antt =====
-- What a reader, a writer and the interrupt handler keep, on the run of Tests.Threads.
use linux_qemu.Base.{Bool, none, get_or, ◌⊎◌, ℕ, [], ◌≡◌, arith, Ends}
use linux_qemu.Frame.{CanFrame, zero_frame}
use linux_qemu.Driver.{irq_transmit, irq_receive}
use linux_qemu.Driver.Invariant.{rx_queue}
use linux_qemu.Driver.Threads.{resting, read_step, write_step}
use linux_qemu.Driver.Threads.Bounds.{InBounds, Reach-InBounds}
use linux_qemu.Driver.Traffic.{logged_bus, logged_send}
use linux_qemu.Driver.Threads.Queues.{Acts}
use linux_qemu.Driver.Threads.Atomic.{view, Reach-atomic}
use linux_qemu.Pelican.{send_message, receive_message}
use linux_qemu.Tests.Frames.{receiving}
use linux_qemu.Tests.Threads.{size_t, before, before-IsQuiet, between, run}

Reach-atomic_example :
    Acts (view before) (view between)
    × ((view before).rx ≡ rx_queue before.dev)
    × (between.reader ≡ resting → (view between).rx ≡ rx_queue between.dev)
Reach-atomic_example =
    Reach-atomic size_t receiving (send_message receiving) (receive_message receiving) (omega arith)
      before-IsQuiet run

Reach-InBounds_example :
    InBounds between.reader between.writer between.dev
    × ((failed : Bool) → Ends (read_step size_t failed between.dev between.reader) (λ t. Unit {0}))
    × ((slot : CanFrame)
        → (send_message receiving (get_or between.dev.tx_buf between.dev.tx_in zero_frame) []
            ≡ none)
          ⊎ Ends
              (write_step
                (logged_bus receiving (send_message receiving))
                (logged_send receiving (send_message receiving))
                size_t
                slot
                between.dev
                between.controller
                between.writer)
              (λ t. Unit {0}))
    × ((temp : ℕ)
        → (send_message receiving (get_or between.dev.tx_buf between.dev.tx_out zero_frame) []
            ≡ none)
          ⊎ Ends
              (irq_transmit
                (logged_bus receiving (send_message receiving))
                (logged_send receiving (send_message receiving))
                temp
                between.dev
                between.controller)
              (λ t. Unit {0}))
    × ((receive_message receiving [] ≡ none)
        ⊎ Ends (irq_receive (receive_message receiving) between.dev []) (λ t. Unit {0}))
Reach-InBounds_example =
    Reach-InBounds size_t receiving (send_message receiving) (receive_message receiving)
      (omega arith) before-IsQuiet run
