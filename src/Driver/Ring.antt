-- ===== src/Driver/Ring.antt =====
-- The rings of struct can_dev: six slots, an index that goes back to 0 at BUFFERSIZE, and the
-- frames that a ring holds, oldest first.
use linux_qemu.Base.{
  ℕ, zero, suc, ◌+◌, ◌-◌, ◌%◌, ◌<◌, List, [], ◌∷◌, ◌++◌, ◌≡◌, ◌≢◌, refl, ap, ap₂, arith, ◌==◌,
  if◌then◌else◌, length, get_or, set, get_or-set_self, get_or-set_ne,
}
use linux_qemu.Frame.{CanFrame, zero_frame}

-- index++; if (index == BUFFERSIZE) index = 0;
abbrev pub advance : ℕ → ℕ
advance i = if i + 1 == 6 then 0 else i + 1

-- The `n` frames from slot `out` on.
unfoldable pub queue : List CanFrame → ℕ → ℕ → List CanFrame
queue buf out zero = []
queue buf out (suc n) = get_or buf out zero_frame ∷ queue buf (advance out) n

pub length-queue : (buf : List CanFrame) (out n : ℕ) → length (queue buf out n) ≡ n
unfolding queue
length-queue buf out zero = refl
length-queue buf out (suc n) = ap suc (length-queue buf (advance out) n)

pub advance-mod : (i : ℕ) → i < 6 → advance i ≡ (i + 1) % 6
advance-mod i h = ground arith

-- The newest frame lies just before the slot that comes next.
pub queue-snoc :
    (buf : List CanFrame) (n out i : ℕ)
    → out < 6
    → i ≡ (out + n) % 6
    → queue buf out (suc n) ≡ queue buf out n ++ get_or buf i zero_frame ∷ []
unfolding queue
queue-snoc buf zero out i o_in at_end = let e : i ≡ out = omega arith in rw e
queue-snoc buf (suc n) out i o_in at_end =
    ap (λ q. get_or buf out zero_frame ∷ q)
      (queue-snoc buf n (advance out) i (ground arith) (omega (arith, advance-mod out o_in)))

-- A write `j` slots past the frames, and not round to them, leaves them alone.
queue-set_beyond :
    (buf : List CanFrame) (x : CanFrame) (n j out i : ℕ)
    → out < 6
    → n + j < 6
    → i ≡ (out + (n + j)) % 6
    → queue (set buf i x) out n ≡ queue buf out n
unfolding queue
queue-set_beyond buf x zero j out i o_in room at_end = refl
queue-set_beyond buf x (suc n) j out i o_in room at_end =
    ap₂ ◌∷◌ (get_or-set_ne buf i out x zero_frame (omega arith)) (
      queue-set_beyond buf x n j (advance out) i (ground arith) (omega arith)
        (omega (arith, advance-mod out o_in)))

-- A write to the slot just past the frames leaves them alone.
pub queue-set_same :
    (buf : List CanFrame) (x : CanFrame) (n out i : ℕ)
    → out < 6
    → n < 6
    → i ≡ (out + n) % 6
    → queue (set buf i x) out n ≡ queue buf out n
queue-set_same buf x n out i o_in room at_end =
    queue-set_beyond buf x n 0 out i o_in (omega arith) (omega arith)

-- In a ring that is not full it adds a frame at the end.
pub queue-set :
    (buf : List CanFrame) (x : CanFrame) (n out i : ℕ)
    → length buf ≡ 6
    → out < 6
    → n < 6
    → i ≡ (out + n) % 6
    → queue (set buf i x) out (suc n) ≡ queue buf out n ++ x ∷ []
queue-set buf x n out i six o_in room at_end = rw (
  queue-snoc (set buf i x) n out i o_in at_end,
  queue-set_same buf x n out i o_in room at_end,
  get_or-set_self buf i x zero_frame (omega arith),
)

-- The oldest frame of a ring that holds some.
pub queue-pop :
    (buf : List CanFrame) (out n : ℕ)
    → n ≢ 0
    → queue buf out n ≡ get_or buf out zero_frame ∷ queue buf (advance out) (n - 1)
unfolding queue
queue-pop buf out zero h = absurd (h refl)
queue-pop buf out (suc n) h = ap (λ k. queue buf out (suc k)) {y = suc n - 1} (omega arith)
