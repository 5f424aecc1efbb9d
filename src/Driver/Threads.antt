-- ===== src/Driver/Threads.antt =====
-- device_read and device_write of source/linux_driver/*/can_pci.c statement by statement, so that a
-- reader, a writer and the interrupt handler can interleave: nothing in the drivers keeps them apart.
-- A statement of the two is one step, the call of send_message included, and so is each branch of the
-- handler: a handler that has begun runs to its end before a reader or a writer goes on, as on a kernel
-- for one processor, and it does not begin inside the send_message of device_write
-- (Pelican.Race.Midway has that).
-- size_t holds the numbers below `word`.
pub mod Rings
pub mod Keeps
pub mod Order
pub mod Collide
pub mod Alone
pub mod Handler
pub mod Atomic
pub mod Bounds
pub mod Queues
use linux_qemu.Base.{
  ℕ, ◌+◌, ◌-◌, ◌%◌, bit_and, List, [], ◌∷◌, ◌++◌, Option, none, some, ◌>>=◌, Bool, true, false, not,
  ltb, ◌==◌, ◌≡◌, if◌then◌else◌, length, get_elem?, set,
}
use linux_qemu.Frame.{CanFrame, Bus}
use linux_qemu.Driver.{CanDev, buffer_size, irq_transmit, irq_receive}
use linux_qemu.Driver.Traffic.{Logged, logged_bus, logged_send}

-- Where a reader is: outside; past the test for an empty ring; past copy_to_user, with the frame that
-- the caller now has; past rx_out++; and past the reset of rx_out.
pub data ReadPc : Type 0 where
  resting : ReadPc
  found : ReadPc
  copied : CanFrame → ReadPc
  stepped : ReadPc
  moved : ReadPc

-- Where a writer is: outside; past the test for a full ring; past copy_from_user, with the frame that
-- it has put into its slot; past the reading of the status; past tx_count++; and past tx_in++.
pub data WritePc : Type 0 where
  outside : WritePc
  admitted : WritePc
  filled : CanFrame → WritePc
  asked : CanFrame → ℕ → WritePc
  counted : WritePc
  stored : WritePc

-- The next statement of a reader; with it comes the frame that it takes from the ring. `failed` is
-- what copy_to_user answers.
unfoldable pub read_step : ℕ → Bool → CanDev → ReadPc → Option (CanDev × ReadPc × List CanFrame)
read_step word failed d resting = some (d, if d.rx_count == 0 then resting else found, [])
read_step word failed d found = do
  f ← get_elem? d.rx_buf d.rx_out
  some (d, if failed then resting else copied f, [])
read_step word failed d (copied f) = some (record d { rx_out = d.rx_out + 1 }, stepped, f ∷ [])
read_step word failed d stepped =
    some (record d { rx_out = if d.rx_out == buffer_size then 0 else d.rx_out }, moved, [])
read_step word failed d moved =
    some (record d { rx_count = (d.rx_count + word - 1) % word }, resting, [])

module _ {S : Type 0} (bus : Bus S) (send : CanFrame → S → Option S) where
  -- The next statement of a writer whose caller has the frame `slot`; with it comes the frame that it
  -- takes over, none before it is queued or sent.
  unfoldable pub write_step :
      ℕ → CanFrame → CanDev → S → WritePc → Option (CanDev × S × WritePc × List CanFrame)
  write_step word slot d s outside =
      some (d, s, if d.tx_count == buffer_size then outside else admitted, [])
  write_step word slot d s admitted =
      if ltb d.tx_in (length d.tx_buf)
      then some (record d { tx_buf = set d.tx_buf d.tx_in slot }, s, filled slot, [])
      else none
  write_step word slot d s (filled f) =
      let (temp, t) = bus.read8 s 2 in some (d, t, asked f temp, [])
  write_step word slot d s (asked f temp) =
      if not (bit_and temp 4 == 4)
      then some (record d { tx_count = (d.tx_count + 1) % word }, s, counted, f ∷ [])
      else do g ← get_elem? d.tx_buf d.tx_in; t ← send g s; some (d, t, outside, f ∷ [])
  write_step word slot d s counted = some (record d { tx_in = d.tx_in + 1 }, s, stored, [])
  write_step word slot d s stored =
      some (record d { tx_in = if d.tx_in == buffer_size then 0 else d.tx_in }, s, outside, [])

-- The device that one reader, one writer and the interrupt handler share. `got` lists the frames that
-- the reader has taken from the ring, `came` those that the controller has given to the handler,
-- `given` those that the writer has taken over.
pub record System (S : Type 0) : Type 0 where
  pub dev : CanDev
  pub controller : Logged S
  pub reader : ReadPc
  pub writer : WritePc
  pub got : List CanFrame
  pub came : List CanFrame
  pub given : List CanFrame

module _ {S : Type 0} (word : ℕ) (bus : Bus S) (send : CanFrame → S → Option S)
    (receive : S → Option (CanFrame × S)) where
  -- The controller may change at any time.
  pub data Step : System S → System S → Type 0 where
    reads :
        {x y : System S} {d : CanDev} {pc : ReadPc} {h : List CanFrame} (failed : Bool)
        → read_step word failed x.dev x.reader ≡ some (d, pc, h)
        → y ≡ record x { dev = d; reader = pc; got = x.got ++ h }
        → Step x y
    writes :
        {x y : System S} {d : CanDev} {s : Logged S} {pc : WritePc} {h : List CanFrame}
        (slot : CanFrame)
        → write_step
            (logged_bus bus send)
            (logged_send bus send)
            word
            slot
            x.dev
            x.controller
            x.writer
          ≡ some (d, s, pc, h)
        → y ≡ record x { dev = d; controller = s; writer = pc; given = x.given ++ h }
        → Step x y
    transmits :
        {x y : System S} {d : CanDev} {s : Logged S} (temp : ℕ)
        → irq_transmit (logged_bus bus send) (logged_send bus send) temp x.dev x.controller
          ≡ some (d, s)
        → y ≡ record x { dev = d; controller = s }
        → Step x y
    receives :
        {x y : System S} {f : CanFrame} {t : S} {d : CanDev}
        → (x.dev.rx_count == buffer_size) ≡ false
        → receive x.controller.controller ≡ some (f, t)
        → irq_receive receive x.dev x.controller.controller ≡ some (d, t)
        → y ≡ record x {
          dev = d;
          controller = record { controller = t; sent = x.controller.sent };
          came = x.came ++ f ∷ [];
        }
        → Step x y
    drifts :
        {x y : System S} {s : Logged S}
        → s.sent ≡ x.controller.sent
        → y ≡ record x { controller = s }
        → Step x y

  pub data Reach (x : System S) : System S → Type 0 where
    here : Reach x x
    later : {y z : System S} → Reach x y → Step y z → Reach x z
