-- ===== src/TestDriver4/Queue.antt =====
-- The transmit queue of backup/qemu_linux4/qemu_test/qemu_test_pci.c, which is filled and never
-- emptied.
use linux_qemu.Base.{
  ℕ, zero, suc, Ends, ◌⊎◌, ◌+◌, ◌-◌, ◌*◌, ◌%◌, ◌≤◌, ◌<◌, bit_and, some, none, ◌≡◌, ◌>>=◌, Option,
  Option-cases, inl, inr, List, ltb, arith, ◌==◌, length, length-set, set, Bool, not, if◌then◌else◌,
  get_elem?-eq-get_or, get_or-set_self,
}
use linux_qemu.Base.Words.{sub_word, add_word}
use linux_qemu.Base.Int.{ℤ, pos, efault, efbig, einval}
use linux_qemu.Frame.{CanFrame, zero_frame, Bus}
use linux_qemu.Pelican.{send_message}
use linux_qemu.TestDriver4.{CanDev, device_write}

-- `n` frames have been queued.
pub record Queued (dev_size n : ℕ) (d : CanDev) : Type 0 where
  pub six : length d.tx_buf ≡ 6
  pub at_most : n ≤ 6
  pub counted : d.tx_count ≡ n * dev_size
  pub next : d.tx_in ≡ n % 6

-- What `n` of six structures of `dev_size` bytes leave of them.
pub used :
    (dev_size n : ℕ)
    → n ≤ 6
    → (n * dev_size ≤ 6 * dev_size)
      × ((n ≡ 6) ⊎ (n * dev_size + dev_size ≤ 6 * dev_size))
      × ((n + 1) * dev_size ≡ n * dev_size + dev_size)
used dev_size zero h = ground arith
used dev_size (suc zero) h = ground arith
used dev_size (suc (suc zero)) h = ground arith
used dev_size (suc (suc (suc zero))) h = ground arith
used dev_size (suc (suc (suc (suc zero)))) h = ground arith
used dev_size (suc (suc (suc (suc (suc zero))))) h = ground arith
used dev_size (suc (suc (suc (suc (suc (suc zero)))))) h = ground arith
used dev_size (suc (suc (suc (suc (suc (suc (suc n))))))) h = absurd (omega arith)

-- What `n` frames leave of the room for six.
left_room : (dev_size n : ℕ) → n ≤ 6 → 6 * dev_size - n * dev_size ≡ (6 - n) * dev_size
left_room dev_size zero h = ground arith
left_room dev_size (suc zero) h = ground arith
left_room dev_size (suc (suc zero)) h = ground arith
left_room dev_size (suc (suc (suc zero))) h = ground arith
left_room dev_size (suc (suc (suc (suc zero)))) h = ground arith
left_room dev_size (suc (suc (suc (suc (suc zero))))) h = ground arith
left_room dev_size (suc (suc (suc (suc (suc (suc zero)))))) h = ground arith
left_room dev_size (suc (suc (suc (suc (suc (suc (suc n))))))) h = absurd (omega arith)

-- The answer of a write, the controller, the number of queued frames and their slots.
pub record Outcome (S : Type 0) : Type 0 where
  pub ret : ℤ
  pub controller : S
  pub queued : ℕ
  pub slots : List CanFrame

-- A result is as promised.
abbrev pub Kept : {S : Type 0} → ℕ → Option (Outcome S) → Option (ℤ × CanDev × S) → Type 0
Kept dev_size none result = result ≡ none
Kept dev_size (some o) result = Ends result (λ (ret, d, t).
    (ret ≡ o.ret) × (t ≡ o.controller) × (d.tx_buf ≡ o.slots) × Queued dev_size o.queued d)

module _ {S : Type 0} (bus : Bus S) (word dev_size n : ℕ) (d : CanDev) (s : S) where
  -- What the driver promises of a write of `count` bytes with `n` queued frames. More bytes than the
  -- room that is left are refused, and then any number but 16. The frame is put into the next slot. With
  -- the controller's buffer locked it is counted; else it is sent, if it can be, and the answer is 0 or the
  -- fault of the copy.
  abbrev pub promised : ℕ → CanFrame → Bool → Option (Outcome S)
  promised count slot failed =
      let (temp, t) = bus.read8 s 2 in
      let slots = set d.tx_buf (n % 6) slot in
      if ltb ((6 - n) * dev_size) count
      then some (record { ret = efbig; controller = s; queued = n; slots = d.tx_buf })
      else if not (count == 16)
      then some (record { ret = einval; controller = s; queued = n; slots = d.tx_buf })
      else if not (bit_and temp 4 == 4)
      then some (record { ret = pos 16; controller = t; queued = n + 1; slots = slots })
      else do
        u ← send_message bus slot t
        let ret = if failed then efault else pos 0
        some (record { ret = ret; controller = u; queued = n; slots = slots })

  -- A write of any number of bytes by the driver with `n` queued frames does what is promised of it: the
  -- answer, the controller, the slots and the number of queued frames, which never falls. It ends unless
  -- the frame is to be sent and cannot be. The size of struct can_dev is at least 16, and six of them fit
  -- size_t.
  pub device_write-counts :
      (count : ℕ) (slot : CanFrame) (failed : Bool)
      → 6 * dev_size < word
      → 16 ≤ dev_size
      → Queued dev_size n d
      → Kept dev_size
          (promised count slot failed)
          (device_write bus word dev_size count slot failed d s)
  unfolding device_write
  device_write-counts count slot failed small big q =
      let uses = used dev_size n q.at_most in
      let room = sub_word word (6 * dev_size) d.tx_count (omega (arith, uses, q.counted)) small in
      let left = left_room dev_size n q.at_most in
      let added : (d.tx_count + dev_size < word)
          → (d.tx_count + dev_size) % word ≡ d.tx_count + dev_size =
        add_word word d.tx_count dev_size in
      let own = get_elem?-eq-get_or (set d.tx_buf d.tx_in slot) d.tx_in zero_frame in
      let put = get_or-set_self d.tx_buf d.tx_in slot zero_frame in
      let size = length-set d.tx_buf d.tx_in slot in
      elim (Option-cases (send_message bus slot (bus.read8 s 2).1)) [
        | inl e ↦ ground (arith, e, room, left, added, uses, size, own, put)
        | inr (u, e) ↦ ground (arith, e, room, left, added, uses, size, own, put)
      ]
