-- ===== src/Base/Words.antt =====
-- size_t arithmetic: numbers below `word`.
use Prim.Native.Nat.{ℕ, ◌+◌, ◌-◌, ◌%◌, ◌≤◌, ◌<◌}
use mathlib.Core.Path.{◌≡◌, ◌∙◌}
use native.Mathlib.Nat.{add-mod_right, mod-eq_of_lt}
use native.Mathlib.Omega.{arith}

-- A subtraction that does not wrap.
pub sub_word :
    (word total taken : ℕ)
    → taken ≤ total
    → total < word
    → (total + word - taken) % word ≡ total - taken
sub_word word total taken at_most small =
    let e : total + word - taken ≡ total - taken + word = omega arith in
    rw e (add-mod_right (total - taken) word ∙ mod-eq_of_lt (omega arith))

-- An addition that does not wrap.
pub add_word : (word a b : ℕ) → a + b < word → (a + b) % word ≡ a + b
add_word word a b small = mod-eq_of_lt small
