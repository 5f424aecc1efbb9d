-- ===== src/Display/Reads.antt =====
-- The bytes that display prints, read back.
use linux_qemu.Base.{
  ℕ, zero, suc, ◌+◌, ◌≤◌, ◌<◌, List, [], ◌∷◌, ◌++◌, append_assoc, none, ◌≡◌, refl, arith, inl, inr,
  Bool-cases, ltb, length, get_or, get_elem?-eq-get_or, get_elem?-out, drop, drop-step, take, Ends,
  Option-cases,
}
use linux_qemu.Frame.{AllBelow}
use linux_qemu.Display.{items}
use linux_qemu.Display.Digits.{read_number}

-- `n` numbers in base 16, each with so many characters before it and after it.
pub read_items : ℕ → ℕ → ℕ → ℕ → List ℕ → List ℕ × List ℕ
read_items letter before after zero t = ([], t)
read_items letter before after (suc n) t =
    let (x, t1) = read_number letter 16 0 (drop before t) in
    let (xs, t2) = read_items letter before after n (drop after t1) in (x ∷ xs, t2)

-- No number goes on into this text.
abbrev pub Stops : ℕ → List ℕ → Type 0
Stops letter t = (n : ℕ) → read_number letter 16 n t ≡ (n, t)

AllBelow-get_or : (k : ℕ) (xs : List ℕ) (i : ℕ) → AllBelow k xs → 0 < k → get_or xs i 0 < k
AllBelow-get_or k [] i h some_k = some_k
AllBelow-get_or k (x ∷ xs) zero h some_k = h.0
AllBelow-get_or k (x ∷ xs) (suc i) h some_k = AllBelow-get_or k xs i h.1 some_k

-- An item is read back in front of what may come `Next`, and may come there itself.
pub record Reads (item : ℕ → List ℕ) (letter before after : ℕ) (Next : List ℕ → Type 0)
    : Type 0 where
  pub reads :
      (x : ℕ) (rest : List ℕ)
      → x < 256
      → Next rest
      → let (y, r) = read_number letter 16 0 (drop before (item x ++ rest)) in
        (y ≡ x) × (drop after r ≡ rest)
  pub stops : (x : ℕ) (rest : List ℕ) → Next (item x ++ rest)

module _ (item : ℕ → List ℕ) (letter before after : ℕ) (Next : List ℕ → Type 0)
    (back : Reads item letter before after Next) where
  pub read_items-items :
      (n i : ℕ) (bytes tail : List ℕ)
      → AllBelow 256 bytes
      → i + n ≤ length bytes
      → Next tail
      → Ends (items item n i bytes) (λ shown.
        (read_items letter before after n (shown ++ tail) ≡ (take n (drop i bytes), tail))
        × Next (shown ++ tail))
  unfolding items read_items
  read_items-items zero i bytes tail small inside ends = (refl, ends)
  read_items-items (suc n) i bytes tail small inside ends =
      elim (Option-cases (items item n (i + 1) bytes)) [
        | inl e ↦ absurd (rw e at (read_items-items n (i + 1) bytes tail small (omega arith) ends))
        | inr (shown, e) ↦
            let (rest, stops) =
              rw e at (read_items-items n (i + 1) bytes tail small (omega arith) ends) in
            let x = get_or bytes i 0 in
            let (value, left) =
              back.reads x (shown ++ tail) (AllBelow-get_or 256 bytes i small (omega arith))
                stops in
            let first = get_elem?-eq-get_or bytes i 0 (omega arith) in
            let split = append_assoc (item x) shown tail in
            let back_all : read_items letter before after (suc n) (item x ++ (shown ++ tail))
                ≡ (take (suc n) (drop i bytes), tail) =
              rw (drop-step bytes i 0 (omega arith)) (ground (arith, value, left, rest)) in
            rw (first, e) (rw split (back_all, back.stops x (shown ++ tail)))
      ]

module _ (item : ℕ → List ℕ) where
  pub items-out :
      (n i : ℕ) (bytes : List ℕ)
      → i ≤ length bytes
      → length bytes < i + n
      → items item n i bytes ≡ none
  unfolding items
  items-out zero i bytes inside long = absurd (omega arith)
  items-out (suc n) i bytes inside long = elim (Bool-cases (ltb i (length bytes))) [
    | inl e ↦ ground (arith, items-out n (i + 1) bytes, get_elem?-eq-get_or bytes i 0)
    | inr e ↦ ground (arith, get_elem?-out bytes i)
  ]
