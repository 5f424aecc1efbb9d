-- ===== src/Driver/Threads/Rings.antt =====
-- The two rings while a reader and a writer of source/linux_driver/*/can_pci.c are under way.
use linux_qemu.Base.{ℕ, ◌==◌, if◌then◌else◌, ◌-◌, ◌≤◌, ◌<◌, List, ◌≡◌, get_or}
use linux_qemu.Frame.{CanFrame, zero_frame}
use linux_qemu.Driver.{CanDev}
use linux_qemu.Driver.Ring.{advance, queue}
use linux_qemu.Driver.Invariant.{IsRing}
use linux_qemu.Driver.Threads.{
  ReadPc, resting, found, copied, stepped, moved, WritePc, outside, admitted, filled, asked,
  counted, stored,
}

-- An index between its increment and its reset, set back.
abbrev pub wrapped : ℕ → ℕ
wrapped i = if i == 6 then 0 else i

-- Between rx_out++ and rx_count-- the ring holds one frame less than rx_count says.
abbrev pub rx_left : ReadPc → CanDev → ℕ
rx_left resting d = d.rx_count
rx_left found d = d.rx_count
rx_left (copied f) d = d.rx_count
rx_left stepped d = d.rx_count - 1
rx_left moved d = d.rx_count - 1

-- The slot that the reader reads next.
abbrev pub rx_next : ReadPc → CanDev → ℕ
rx_next resting d = d.rx_out
rx_next found d = d.rx_out
rx_next (copied f) d = d.rx_out
rx_next stepped d = wrapped d.rx_out
rx_next moved d = d.rx_out

-- The frames that the reader has not taken.
abbrev pub rx_view : ReadPc → CanDev → List CanFrame
rx_view pc d = queue d.rx_buf (rx_next pc d) (rx_left pc d)

-- What the reader relies on.
abbrev pub Reading : ReadPc → CanDev → Type 0
Reading resting d = d.rx_count ≤ 6
Reading found d = (0 < d.rx_count) × (d.rx_count ≤ 6)
Reading (copied f) d =
    (0 < d.rx_count) × (d.rx_count ≤ 6) × (f ≡ get_or d.rx_buf d.rx_out zero_frame)
Reading stepped d = (0 < d.rx_count) × (d.rx_count ≤ 6) × (d.rx_out ≤ 6)
Reading moved d = (0 < d.rx_count) × (d.rx_count ≤ 6)

pub record RxInv (pc : ReadPc) (d : CanDev) : Type 0 where
  pub ring : IsRing d.rx_buf (rx_left pc d) d.rx_in (rx_next pc d)
  pub reading : Reading pc d

-- From tx_count++ to the reset of tx_in the next free slot is another than tx_in says.
abbrev pub tx_next : WritePc → CanDev → ℕ
tx_next outside d = d.tx_in
tx_next admitted d = d.tx_in
tx_next (filled f) d = d.tx_in
tx_next (asked f temp) d = d.tx_in
tx_next counted d = advance d.tx_in
tx_next stored d = wrapped d.tx_in

-- What the writer relies on.
abbrev pub Writing : WritePc → CanDev → Type 0
Writing outside d = Unit {0}
Writing admitted d = d.tx_count < 6
Writing (filled f) d = (d.tx_count < 6) × (get_or d.tx_buf d.tx_in zero_frame ≡ f)
Writing (asked f temp) d = (d.tx_count < 6) × (get_or d.tx_buf d.tx_in zero_frame ≡ f)
Writing counted d = d.tx_in < 6
Writing stored d = d.tx_in ≤ 6

pub record TxInv (pc : WritePc) (d : CanDev) : Type 0 where
  pub ring : IsRing d.tx_buf d.tx_count (tx_next pc d) d.tx_out
  pub writing : Writing pc d

pub record SameRx (d d' : CanDev) : Type 0 where
  pub buf : d'.rx_buf ≡ d.rx_buf
  pub count : d'.rx_count ≡ d.rx_count
  pub next_in : d'.rx_in ≡ d.rx_in
  pub next_out : d'.rx_out ≡ d.rx_out

pub record SameTx (d d' : CanDev) : Type 0 where
  pub buf : d'.tx_buf ≡ d.tx_buf
  pub count : d'.tx_count ≡ d.tx_count
  pub next_in : d'.tx_in ≡ d.tx_in
  pub next_out : d'.tx_out ≡ d.tx_out
