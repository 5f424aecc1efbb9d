-- ===== src/Display.antt =====
-- What is printed of a frame: display of source/examples/*/receive.c, and display of
-- backup/qemu_linux3/qemu_test/main.c and backup/qemu_linux4/qemu_test/main.c, which is also display_msg
-- of backup/qemu_linux4/can-pci.c. A text is the list of its character codes; `none` is a read behind
-- the bytes of the frame.
pub mod Digits
pub mod Reads
pub mod Lines
use Prim.Native.Char.{code}
use Prim.Native.String.{String}
use linux_qemu.Base.{
  ℕ, zero, suc, ◌+◌, ◌-◌, ◌/◌, ◌%◌, ◌^◌, bit_and, List, [], ◌∷◌, ◌++◌, Option, some, ◌>>=◌, ltb,
  ◌==◌, if◌then◌else◌, length, get_elem?, replicate,
}
use linux_qemu.Bits.{has}
use linux_qemu.Frame.{CanFrame}

-- The codes of a literal. `String` has its own `[]` and `∷`.
abbrev pub codes : String → List ℕ
codes String.[] = []
codes (String.◌∷◌ c s) = code c ∷ codes s

-- One digit; those above nine begin at `letter`, the code of A or of a.
abbrev pub digit : ℕ → ℕ → ℕ
digit letter n = if ltb n 10 then n + 48 else n - 10 + letter

-- The digits of a number below base ^ k, the first not zero; none for zero.
unfoldable pub digits : ℕ → ℕ → ℕ → ℕ → List ℕ
digits letter base zero n = []
digits letter base (suc k) n =
    let before = digits letter base k (n / base) in
    if n == 0 then [] else before ++ digit letter (n % base) ∷ []

-- The conversions %0wX, %0wx and %0wd of printf, on an unsigned int: at least `width` digits.
-- Ten digits hold it.
unfoldable pub number : ℕ → ℕ → ℕ → ℕ → List ℕ
number letter base width n =
    let ds = digits letter base 10 n in replicate (width - length ds) 48 ++ ds

abbrev pub upper : ℕ
upper = 65

abbrev pub lower : ℕ
lower = 97

abbrev pub text : List (List ℕ) → List ℕ
text [] = []
text (piece ∷ pieces) = piece ++ text pieces

module _ (item : ℕ → List ℕ) where
  -- for(i = 0; i < msg->can_dlc; i++), with `n` rounds to go.
  unfoldable pub items : ℕ → ℕ → List ℕ → Option (List ℕ)
  items zero i bytes = some []
  items (suc n) i bytes = do
    x ← get_elem? bytes i
    rest ← items n (i + 1) bytes
    some (item x ++ rest)

-- printf("  %02X", msg->data[i]);
abbrev pub wide_item : ℕ → List ℕ
wide_item x = text (codes "  " ∷ number upper 16 2 x ∷ [])

-- printf("0x%02x ", msg->data[i]);
abbrev pub short_item : ℕ → List ℕ
short_item x = text (codes "0x" ∷ number lower 16 2 x ∷ codes " " ∷ [])

-- The line of display, with the bytes `shown`.
abbrev pub line : CanFrame → List ℕ → List ℕ
line msg shown = text (
    number upper 16 3 (bit_and msg.can_id 0x1fff_ffff)
    ∷ codes " ["
    ∷ number upper 10 1 msg.can_dlc
    ∷ codes "] -"
    ∷ (if has msg.can_id (2 ^ 31) then codes "EFF " else codes "SFF ")
    ∷ (if has msg.can_id (2 ^ 30) then codes "RTR-" else codes "DAT-")
    ∷ shown
    ∷ codes "\n"
    ∷ [])

-- display of source/examples.
unfoldable pub display : CanFrame → Option (List ℕ)
display msg = do shown ← items wide_item msg.can_dlc 0 msg.bytes; some (line msg shown)

-- The lines of display of both main.c, with the bytes `shown`.
abbrev pub message_lines : CanFrame → List ℕ → List ℕ
message_lines msg shown = text (
    codes "id 0x"
    ∷ number lower 16 1 (bit_and msg.can_id 0x1fff_ffff)
    ∷ codes ", data("
    ∷ number lower 10 1 msg.can_dlc
    ∷ codes "):\n"
    ∷ shown
    ∷ codes "\n"
    ∷ [])

-- display of both main.c, and display_msg.
unfoldable pub display_msg : CanFrame → Option (List ℕ)
display_msg msg = do
  shown ← items short_item msg.can_dlc 0 msg.bytes
  some (message_lines msg shown)
