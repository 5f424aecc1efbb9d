-- ===== src/Display/Digits.antt =====
-- The numbers that printf writes, read back.
use native.Mathlib.Nat.{mod-lt, pow-zero, pow-suc, div-add-mod', div-lt_iff_lt-mul}
use linux_qemu.Base.{
  ℕ, zero, suc, ◌+◌, ◌-◌, ◌*◌, ◌/◌, ◌%◌, ◌^◌, ◌≤◌, ◌<◌, List, [], ◌∷◌, ◌++◌, append_assoc, Option,
  none, some, ◌≡◌, refl, ◌∙◌, ap, arith, ltb, ◌==◌, ◌&&◌, if◌then◌else◌, Bool-cases, inl, inr,
  length, replicate,
}
use linux_qemu.Display.{digit, digits, number}

-- What a character stands for, if it is a digit; those above nine begin at `letter`.
abbrev pub digit_value : ℕ → ℕ → Option ℕ
digit_value letter c =
    if ltb 47 c && ltb c 58
    then some (c - 48)
    else if ltb c letter
    then none
    else if ltb c (letter + 6)
    then some (c - letter + 10)
    else none

-- A number in front of a text, as far as there are digits, and what follows it.
unfoldable pub read_number : ℕ → ℕ → ℕ → List ℕ → ℕ × List ℕ
read_number letter base n [] = (n, [])
read_number letter base n (c ∷ cs) = elim (digit_value letter c) [
  | none ↦ (n, c ∷ cs)
  | some v ↦ read_number letter base (n * base + v) cs
]

module _ (letter base : ℕ) (above : 58 ≤ letter) (two : 2 ≤ base) (sixteen : base ≤ 16) where
  digit_value-digit : (v : ℕ) → v < 16 → digit_value letter (digit letter v) ≡ some v
  digit_value-digit v h = ground arith

  div-below : (n m : ℕ) → n < m * base → n / base < m
  div-below n m h = (div-lt_iff_lt-mul (omega arith)).1 h

  read_number-last :
      (n : ℕ) (rest : List ℕ)
      → read_number letter base (n / base) (digit letter (n % base) ∷ rest)
        ≡ read_number letter base n rest
  unfolding read_number
  read_number-last n rest =
      let small : n % base < base = mod-lt n (omega arith) in
      let c = digit letter (n % base) in
      ap
        (λ (o : Option ℕ). elim o [
          | none ↦ (n / base, c ∷ rest)
          | some v ↦ read_number letter base (n / base * base + v) rest
        ])
        (digit_value-digit (n % base) (omega arith))
      ∙ ap (λ m. read_number letter base m rest) (div-add-mod' n base)

  read_number-digits :
      (k n : ℕ) (rest : List ℕ)
      → n < base ^ k
      → read_number letter base 0 (digits letter base k n ++ rest) ≡ read_number letter base n rest
  unfolding digits read_number
  read_number-digits zero n rest h = let e : n ≡ 0 = omega (arith, pow-zero base) in rw e refl
  read_number-digits (suc k) n rest h = elim (Bool-cases (n == 0)) [
    | inl e ↦ ground arith
    | inr e ↦
        let split =
          append_assoc (digits letter base k (n / base)) (digit letter (n % base) ∷ []) rest in
        let before =
          read_number-digits k (n / base) (digit letter (n % base) ∷ rest)
            (div-below n (base ^ k) (rw pow-suc at h)) in
        ground (arith, split, before, read_number-last n rest)
  ]

  read_number-zeros :
      (k : ℕ) (rest : List ℕ)
      → read_number letter base 0 (replicate k 48 ++ rest) ≡ read_number letter base 0 rest
  unfolding read_number
  read_number-zeros zero rest = refl
  read_number-zeros (suc k) rest =
      let z : 0 * base + 0 ≡ 0 = omega arith in rw z (read_number-zeros k rest)

  -- A printed number is read back.
  pub read_number-number :
      (width n : ℕ) (rest : List ℕ)
      → n < base ^ 10
      → read_number letter base 0 (number letter base width n ++ rest)
        ≡ read_number letter base n rest
  unfolding number
  read_number-number width n rest h =
      let ds = digits letter base 10 n in
      ap (read_number letter base 0) (append_assoc (replicate (width - length ds) 48) ds rest)
      ∙ read_number-zeros (width - length ds) (ds ++ rest)
      ∙ read_number-digits 10 n rest h
