-- ===== src/Driver/Fifo.antt =====
-- What the rings of struct can_dev promise: two first-in first-out queues of at most six frames.
use linux_qemu.Base.{
  ℕ, List, [], ◌∷◌, ◌++◌, Option, none, some, Bool, not, ◌==◌, if◌then◌else◌, length,
}
use linux_qemu.Base.Int.{ℤ, pos, efault, einval, efbig}
use linux_qemu.Frame.{CanFrame, frame_size}

unfoldable pub read : ℕ → Bool → List CanFrame → ℤ × Option CanFrame × List CanFrame
read count failed q = if not (count == frame_size) then (einval, none, q) else elim q [
  | [] ↦ (pos 0, none, [])
  | f ∷ rest ↦ if failed then (efault, none, f ∷ rest) else (pos count, some f, rest)
]

-- `free` is whether the controller's transmit buffer is: then the frame does not wait. The last
-- component is the controller's state: `refused` if it was not asked, `asked` if only its status
-- was read, `sent` if it was given the frame.
unfoldable pub write {ℓ} :
    {S : Type ℓ} → ℕ → CanFrame → Bool → Bool → S → S → S → List CanFrame → ℤ × List CanFrame × S
write count slot failed free refused asked sent q =
    if not (count == frame_size)
    then (einval, q, refused)
    else if length q == 6
    then (efbig, q, refused)
    else if free
    then (if failed then efault else pos count, q, sent)
    else (pos count, q ++ slot ∷ [], asked)

-- A transmit interrupt, if `asked`: the controller is `idle` before it and `sent` once it has the
-- oldest frame.
unfoldable pub send_oldest {ℓ} : {S : Type ℓ} → Bool → S → S → List CanFrame → List CanFrame × S
send_oldest asked idle sent q =
    if not asked then (q, idle) else elim q [ [] ↦ ([], idle) | f ∷ rest ↦ (rest, sent) ]

-- An interrupt, whose register asks for `transmit`, `receive` and perhaps an overrun that `clear`
-- acknowledges. `sent` is the controller once it has the oldest frame, `received` the frame that
-- it then holds and the controller once that is read; `refuse` is done when six frames wait
-- already, and the handler returns after it.
unfoldable pub interrupt {ℓ} :
    {S : Type ℓ}
    → Bool
    → Bool
    → (S → S)
    → (S → S)
    → S
    → S
    → CanFrame × S
    → List CanFrame
    → List CanFrame
    → List CanFrame × List CanFrame × S
interrupt transmit receive clear refuse idle sent received tx rx =
    let (tx', s) = send_oldest transmit idle sent tx in
    if not receive
    then (tx', rx, clear s)
    else if length rx == 6
    then (tx', rx, refuse s)
    else (tx', rx ++ received.0 ∷ [], clear received.1)
