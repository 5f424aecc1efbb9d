-- ===== src/CanPci/Interrupt.antt =====
-- The interrupt handler of source/linux_driver/pelican_mode/can_pci.c on the emulated controller of
-- backup/qemu_linux4/can-pci.c, while a frame waits to be sent. On this controller, whose registers 3 and 16
-- read as 0xff, the handler ends only where the receive ring is full.
use linux_qemu.Base.{
  ℕ, ◌%◌, ◌≤◌, List, [], ◌++◌, Option, some, none, ◌>>=◌, ◌≡◌, ap, ◌∙◌, sym, arith, length,
  length-append, length-drop, length-take, take, drop, take-append-drop, ◌<◌, get_or, get_elem?,
  get_elem?-eq-get_or,
}
use linux_qemu.Bits.{has}
use linux_qemu.Frame.{CanFrame, write_all, zero_frame, AllBelow}
use linux_qemu.Driver.{CanDev, irq_transmit, irq_receive}
use linux_qemu.Driver.Invariant as Driver
use linux_qemu.Pelican.Handlers.{irq_handler}
use linux_qemu.Pelican.{send_message}
use linux_qemu.Pelican.Send.{tx_image, send_message-tx_image}
use linux_qemu.CanPci.{CanState, guest_bus, can_mem_read}
use linux_qemu.CanPci.Mismatch.{receive_message-fault}
use linux_qemu.CanPci.Registers.{IsValid}
use linux_qemu.CanPci.Link.{send_message-delivers, write_all-stores}
use linux_qemu.CanPci.Stream.{Carried, given}

-- The interrupt handler on the rings `d`, and what it makes of the controller.
abbrev pub interrupt : CanFrame → CanDev → Option CanState → Option CanState
interrupt stack d t = irq_handler (guest_bus stack) d t >>= λ (d', u). u

-- A frame waits to be sent, and `g` is the oldest.
pub record Waits (d : CanDev) (g : CanFrame) : Type 0 where
  pub valid : Driver.IsValid d
  pub some_wait : 0 < d.tx_count
  pub oldest : get_or d.tx_buf d.tx_out zero_frame ≡ g

-- The controller with bytes at the start of its buffer, before the request for transmission.
abbrev pub loaded : List ℕ → CanState → CanState
loaded bytes s = record s { trx_buff = bytes ++ drop (length bytes) s.trx_buff }

pub loaded-IsValid :
    (bytes : List ℕ) (s : CanState) → length bytes ≤ 13 → IsValid s → IsValid (loaded bytes s)
loaded-IsValid bytes s fits v =
    let rest = drop (length bytes) s.trx_buff in
    let size : length (bytes ++ rest) ≡ 13 =
      omega (arith, length-append bytes rest, length-drop (length bytes) s.trx_buff, v.trx_size) in
    ground (arith, size)

module _ (stack : CanFrame) (eight : length stack.bytes ≡ 8) where
  module _ (f : CanFrame) (c : Carried stack f) (s : CanState) (v : IsValid s)
      (operating : s.mode % 2 ≡ 0) where
    delivers : send_message (guest_bus stack) f (some s) ≡ some (some (given f s))
    delivers = send_message-delivers stack f s v operating c.frame c.short c.id_ok c.clean eight

    oldest-own : (d : CanDev) → Waits d f → get_elem? d.tx_buf d.tx_out ≡ some f
    oldest-own d w =
        get_elem?-eq-get_or d.tx_buf d.tx_out zero_frame (ground (arith, w.valid.tx))
        ∙ ap some w.oldest

    pub interrupt-given :
        (d : CanDev) → Waits d f → d.rx_count ≡ 6 → interrupt stack d (some s) ≡ some (given f s)
    unfolding irq_handler guest_bus can_mem_read irq_transmit has
    interrupt-given d w full = ground (arith, oldest-own d w, delivers, v.region, w)

    -- With room the handler also takes a frame that the controller does not have.
    pub interrupt-faults :
        (d : CanDev) → Waits d f → d.rx_count < 6 → interrupt stack d (some s) ≡ none
    unfolding irq_handler guest_bus can_mem_read irq_transmit irq_receive has
    interrupt-faults d w room = ground (
      arith,
      oldest-own d w,
      delivers,
      v.region,
      w,
      receive_message-fault (guest_bus stack) (some (given f s)),
    )

    pub command-given :
        (guest_bus stack).write8 (write_all (guest_bus stack) 16 (tx_image f) (some s)) 1 1
        ≡ some (given f s)
    command-given =
        cc (send_message-tx_image (guest_bus stack) f (some s) c.frame c.short c.id_ok, delivers)

    pub loads :
        (bytes : List ℕ)
        → length bytes ≤ 13
        → AllBelow 256 bytes
        → write_all (guest_bus stack) 16 bytes (some s) ≡ some (loaded bytes s)
    loads bytes fits below =
        let n = length bytes in
        write_all-stores stack s bytes [] (take n s.trx_buff) (drop n s.trx_buff) v.region operating
          (omega arith) (length-take n s.trx_buff (omega (arith, v.trx_size))) below
          (sym (take-append-drop n s.trx_buff))
