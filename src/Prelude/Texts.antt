-- ===== src/Prelude/Texts.antt =====
-- Text as a list of code points, and numbers printed in decimal.
use Prim.Native.Nat.{ℕ, zero, suc, ◌+◌, ◌-◌, ◌*◌, ◌<◌, ◌≤◌, ◌/◌, ◌%◌}
use mathlib.Core.Logic.{◌≢◌, inl, inr}
use roomler.Prelude.Lists.{All}
use Prim.Native.Char.{code}
use Prim.Native.String.{String}
use mathlib.Core.List.{List, [], ◌∷◌, ◌++◌}
use mathlib.Core.Bool.{Bool, true, false, ◌&&◌}
use mathlib.Core.Path.{◌≡◌, refl}
use mathlib.Core.Option.{Option, none, some}
use native.Mathlib.Omega.{arith}
use roomler.Prelude.Tests.{Bool-cases, if◌then◌else◌, ltb, ◌==◌}

abbrev pub Text : Type 0
Text = List ℕ

-- A literal of the source.
abbrev pub text : String → Text
text String.[] = []
text (String.◌∷◌ c s) = code c ∷ text s

abbrev pub same_text : Text → Text → Bool
same_text [] [] = true
same_text [] (d ∷ t) = false
same_text (c ∷ s) [] = false
same_text (c ∷ s) (d ∷ t) = c == d && same_text s t

-- Each round writes the last digit; the number of rounds never passes the number plus one.
decimal_from : ℕ → ℕ → Text
decimal_from zero n = []
decimal_from (suc rounds) n = elim (ltb n 10) [
  | true ↦ (b'0' + n) ∷ []
  | false ↦ decimal_from rounds (n / 10) ++ (b'0' + n % 10) ∷ []
]

-- `format!("{n}")`.
unfoldable pub decimal : ℕ → Text
unfolding decimal_from
decimal n = decimal_from (suc n) n

-- `trim_end_matches`.
unfoldable pub trim_end : (ℕ → Bool) → Text → Text
trim_end p [] = []
trim_end p (c ∷ s) = elim (trim_end p s) [ [] ↦ if p c then [] else c ∷ [] | d ∷ t ↦ c ∷ d ∷ t ]

-- `trim_start_matches`.
unfoldable pub trim_start : (ℕ → Bool) → Text → Text
trim_start p [] = []
trim_start p (c ∷ s) = if p c then trim_start p s else c ∷ s

unfoldable pub strip_prefix : Text → Text → Option Text
strip_prefix [] s = some s
strip_prefix (c ∷ p) [] = none
strip_prefix (c ∷ p) (d ∷ s) = if c == d then strip_prefix p s else none

pub same_text-≡ : (s t : Text) → same_text s t ≡ true → s ≡ t
same_text-≡ [] [] h = refl
same_text-≡ [] (d ∷ t) h = cc
same_text-≡ (c ∷ s) [] h = cc
same_text-≡ (c ∷ s) (d ∷ t) h = ground (arith, same_text-≡ s t)

pub same_text_refl : (s : Text) → same_text s s ≡ true
same_text_refl [] = refl
same_text_refl (c ∷ s) = ground (arith, same_text_refl s)

pub trim_end-append :
    (p : ℕ → Bool) (s : Text) (c : ℕ) → p c ≡ true → trim_end p (s ++ c ∷ []) ≡ trim_end p s
unfolding trim_end
trim_end-append p [] c h = ground arith
trim_end-append p (d ∷ s) c h = ground (arith, trim_end-append p s c h)

-- The number that a text of digits stands for, from the digits read so far.
abbrev pub read_decimal : ℕ → Text → ℕ
read_decimal n [] = n
read_decimal n (c ∷ s) = read_decimal (10 * n + (c - b'0')) s

read_decimal-append :
    (n : ℕ) (s : Text) (c : ℕ) → read_decimal n (s ++ c ∷ []) ≡ 10 * read_decimal n s + (c - b'0')
read_decimal-append n [] c = refl
read_decimal-append n (d ∷ s) c = read_decimal-append (10 * n + (d - b'0')) s c

read_decimal-decimal_from : (rounds n : ℕ) → n < rounds → read_decimal 0 (decimal_from rounds n) ≡ n
unfolding decimal_from
read_decimal-decimal_from zero n h = absurd (omega (arith, h))
read_decimal-decimal_from (suc rounds) n h = elim (Bool-cases (ltb n 10)) [
  | inl small ↦ rw (small, decimal_from) (omega arith)
  | inr large ↦
      rw (large, decimal_from)
        (rw
          (
            read_decimal-append 0 (decimal_from rounds (n / 10)) (b'0' + n % 10),
            read_decimal-decimal_from rounds (n / 10) (ground (arith, large, h)),
          )
          (omega arith))
]

-- Reading back what was printed gives the number.
pub read_decimal-decimal : (n : ℕ) → read_decimal 0 (decimal n) ≡ n
unfolding decimal
read_decimal-decimal n = read_decimal-decimal_from (suc n) n (omega arith)

abbrev pub IsDigit : ℕ → Type 0
IsDigit c = (b'0' ≤ c) × (c ≤ b'9')

All-append {ℓ} : (P : ℕ → Type ℓ) (s t : Text) → All P s → All P t → All P (s ++ t)
All-append P [] t h k = k
All-append P (c ∷ s) t h k = (h.0, All-append P s t h.1 k)

decimal_from-IsDigit : (rounds n : ℕ) → All IsDigit (decimal_from rounds n)
unfolding decimal_from
decimal_from-IsDigit zero n = tt
decimal_from-IsDigit (suc rounds) n = elim (Bool-cases (ltb n 10)) [
  | inl small ↦ rw (small, decimal_from) ((omega arith, ground (arith, small)), tt)
  | inr large ↦
      rw (large, decimal_from)
        (All-append IsDigit (decimal_from rounds (n / 10)) _ (decimal_from-IsDigit rounds (n / 10))
          ((omega arith, omega arith), tt))
]

pub decimal-IsDigit : (n : ℕ) → All IsDigit (decimal n)
unfolding decimal
decimal-IsDigit n = decimal_from-IsDigit (suc n) n

append-nonempty : (s : Text) (c : ℕ) → s ++ c ∷ [] ≢ []
append-nonempty [] c e = cc
append-nonempty (d ∷ s) c e = cc

decimal_from-nonempty : (rounds n : ℕ) → decimal_from (suc rounds) n ≢ []
unfolding decimal_from
decimal_from-nonempty rounds n = elim (Bool-cases (ltb n 10)) [
  | inl small ↦ rw (small, decimal_from) (λ e. cc)
  | inr large ↦
      rw (large, decimal_from) (append-nonempty (decimal_from rounds (n / 10)) (b'0' + n % 10))
]

pub decimal-nonempty : (n : ℕ) → decimal n ≢ []
unfolding decimal
decimal-nonempty n = decimal_from-nonempty n n
