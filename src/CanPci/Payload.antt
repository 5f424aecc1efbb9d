-- ===== src/CanPci/Payload.antt =====
-- The two payload loops of buff2frame in backup/qemu_linux4/can-pci.c.
use linux_qemu.Base.{
  Ends, ◌∙◌, ℕ, zero, suc, ◌+◌, ◌-◌, ◌≤◌, ◌<◌, List, [], ◌∷◌, ◌++◌, none, some, ◌≡◌, refl, arith,
  u8, length, get_or, get_or-append, length-set, set, set-append, length-append, append_assoc,
  replicate, take, drop, length-take, length-drop, take-append-drop,
}
use linux_qemu.CanPci.{copy_payload, clear_payload}

-- The array holds `xs` from index `i` on.
abbrev pub Holds : List ℕ → ℕ → List ℕ → Type 0
Holds buff i [] = Unit {0}
Holds buff i (x ∷ xs) = (i < length buff) × (get_or buff i 0 ≡ x) × Holds buff (i + 1) xs

pub Holds-append : (pre xs post : List ℕ) → Holds (pre ++ (xs ++ post)) (length pre) xs
Holds-append pre [] post = tt
Holds-append pre (x ∷ xs) post =
    let at_end : length (pre ++ x ∷ []) ≡ length pre + 1 = length-append pre (x ∷ []) in
    let rest = rw (at_end, append_assoc) at (Holds-append (pre ++ x ∷ []) xs post) in
    (omega (arith, length-append pre (x ∷ (xs ++ post))), get_or-append pre x 0 (xs ++ post), rest)

copy_payload-fills :
    (buff : List ℕ) (offset : ℕ) (xs pre old tail : List ℕ)
    → length old ≡ length xs
    → length pre + length xs + length tail ≡ 8
    → Holds buff (offset + length pre) xs
    → copy_payload buff offset (length xs) (length pre) (pre ++ (old ++ tail))
      ≡ some (pre ++ (xs ++ tail))
unfolding copy_payload
copy_payload-fills buff offset [] pre [] tail same eight holds = refl
copy_payload-fills buff offset [] pre (o ∷ old) tail same eight holds = absurd (omega arith)
copy_payload-fills buff offset (x ∷ xs) pre [] tail same eight holds = absurd (omega arith)
copy_payload-fills buff offset (x ∷ xs) pre (o ∷ old) tail same eight holds =
    let at_end : length (pre ++ x ∷ []) ≡ length pre + 1 = length-append pre (x ∷ []) in
    ground (
      arith,
      at_end,
      holds.0,
      holds.1,
      set-append pre o x (old ++ tail),
      length-append pre (o ∷ (old ++ tail)),
      length-append old tail,
      append_assoc pre (x ∷ []) (old ++ tail),
      append_assoc pre (x ∷ []) (xs ++ tail),
      copy_payload-fills buff offset xs (pre ++ x ∷ []) old tail,
    )

clear_payload-clears :
    (pre tail : List ℕ)
    → length pre + length tail ≡ 8
    → clear_payload (length tail) (length pre) (pre ++ tail) ≡ pre ++ replicate (length tail) 0
unfolding clear_payload
clear_payload-clears pre [] eight = refl
clear_payload-clears pre (x ∷ tail) eight =
    let at_end : length (pre ++ 0 ∷ []) ≡ length pre + 1 = length-append pre (0 ∷ []) in
    ground (
      arith,
      at_end,
      set-append pre x 0 tail,
      append_assoc pre (0 ∷ []) tail,
      append_assoc pre (0 ∷ []) (replicate (length tail) 0),
      clear_payload-clears (pre ++ 0 ∷ []) tail,
    )

-- Together they leave the `xs` that the array holds, at most eight of them, and zeros.
pub payload_lem :
    (buff : List ℕ) (offset : ℕ) (xs bytes : List ℕ)
    → length bytes ≡ 8
    → length xs ≤ 8
    → Holds buff offset xs
    → (mid : List ℕ) × (copy_payload buff offset (length xs) 0 bytes ≡ some mid)
      × (clear_payload (8 - length xs) (length xs) mid ≡ xs ++ replicate (8 - length xs) 0)
payload_lem buff offset xs bytes eight short holds =
    let d = length xs in
    let left : length (drop d bytes) ≡ 8 - d = omega (arith, length-drop d bytes) in
    let taken = length-take d bytes (omega arith) in
    let start : offset + 0 ≡ offset = omega arith in
    let copied =
      copy_payload-fills buff offset xs [] (take d bytes) (drop d bytes) taken (omega arith)
        (rw start holds) in
    let cleared = clear_payload-clears xs (drop d bytes) (omega arith) in
    (xs ++ drop d bytes, rw take-append-drop at copied, rw left at cleared)

-- A length code above the eight bytes of the payload takes the copy outside it.
pub copy_payload-fault :
    (buff : List ℕ) (offset n i : ℕ) (bytes : List ℕ)
    → i ≤ length bytes
    → length bytes < i + n
    → length bytes ≤ 8
    → copy_payload buff offset n i bytes ≡ none
unfolding copy_payload
copy_payload-fault buff offset zero i bytes i_in past eight = absurd (omega arith)
copy_payload-fault buff offset (suc n) i bytes i_in past eight = ground (
  arith,
  length-set bytes i (get_or buff (offset + i) 0),
  copy_payload-fault buff offset n (i + 1) (set bytes i (get_or buff (offset + i) 0)),
)

-- Inside both arrays the copy ends, and keeps the length of the payload.
pub copy_payload-ends :
    (buff : List ℕ) (offset n i : ℕ) (bytes : List ℕ)
    → i + n ≤ length bytes
    → length bytes ≤ 8
    → offset + i + n ≤ length buff
    → Ends (copy_payload buff offset n i bytes) (λ out. length out ≡ length bytes)
unfolding copy_payload
copy_payload-ends buff offset zero i bytes inside eight room = refl
copy_payload-ends buff offset (suc n) i bytes inside eight room =
    let next = set bytes i (get_or buff (offset + i) 0) in
    let same : length next ≡ length bytes = length-set bytes i (get_or buff (offset + i) 0) in
    let rest =
      copy_payload-ends buff offset n (i + 1) next (omega arith) (omega arith) (omega arith) in
    ground (arith, same, rest)

pub length-clear_payload :
    (n i : ℕ) (bytes : List ℕ) → length (clear_payload n i bytes) ≡ length bytes
unfolding clear_payload
length-clear_payload zero i bytes = refl
length-clear_payload (suc n) i bytes =
    length-clear_payload n (u8 (i + 1)) (set bytes i 0) ∙ length-set bytes i 0
