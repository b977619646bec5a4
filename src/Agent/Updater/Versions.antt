-- ===== src/Agent/Updater/Versions.antt =====
-- Versions: their order, and reading a tag.
use roomler.Prelude.{
  ℕ, ◌+◌, ◌-◌, ◌*◌, ◌≤◌, ◌≡◌, refl, true, false, Option, none, some, [], ◌∷◌, ◌++◌, Text, text,
  arith, Option-cases, inl, inr, ◌==◌, leb, All, IsDigit, decimal, decimal-IsDigit, read_decimal,
  read_decimal-decimal, decimal-nonempty, strip_prefix, trim_start, length, ◌≢◌, ◌∙◌,
}
use roomler.Agent.Updater.{
  Version, outranks, ranks_above, is_newer, parse_version, digits, parse_uint, is_digit, u64_max,
  split, trim_prefix, leading_digits, version_of, is_v,
}

pub ranks_above_irrefl : (v : Option Version) → ranks_above v v ≡ false
unfolding outranks
ranks_above_irrefl none = refl
ranks_above_irrefl (some (a, b, c)) = ground arith

pub ranks_above_asym : (v w : Option Version) → ranks_above v w ≡ true → ranks_above w v ≡ false
unfolding outranks
ranks_above_asym none w h = cc
ranks_above_asym (some (a, b, c)) none h = refl
ranks_above_asym (some (a, b, c)) (some (a', b', c')) h = ground (arith, h)

pub ranks_above_weaken :
    (u v w : Option Version)
    → ranks_above u v ≡ false
    → ranks_above v w ≡ false
    → ranks_above u w ≡ false
unfolding outranks
ranks_above_weaken none v w h k = refl
ranks_above_weaken (some a) none w h k = cc
ranks_above_weaken (some (a, b, c)) (some (a', b', c')) none h k = cc
ranks_above_weaken (some (a, b, c)) (some (a', b', c')) (some (a'', b'', c'')) h k =
    ground (arith, h, k)

outranks_trans : (u v w : Version) → outranks u v ≡ true → outranks v w ≡ true → outranks u w ≡ true
unfolding outranks
outranks_trans (a, b, c) (a', b', c') (a'', b'', c'') h k = ground (arith, h, k)

pub is_newer_lem :
    (s t : Text)
    → is_newer s t ≡ true
    → (l c : Version) × (parse_version s ≡ some l)
      × (parse_version t ≡ some c)
      × (outranks l c ≡ true)
unfolding is_newer
is_newer_lem s t h = elim (Option-cases (parse_version s)) [
  | inl gone ↦ absurd (ground (arith, gone, h))
  | inr (l, here) ↦ elim (Option-cases (parse_version t)) [
    | inl gone ↦ absurd (ground (arith, here, gone, h))
    | inr (c, there) ↦ (l, c, here, there, ground (arith, here, there, h))
  ]
]

-- Being newer is transitive, and no two tags are newer than one another.
is_newer_order :
    (s t u : Text)
    → is_newer s t ≡ true
    → is_newer t u ≡ true
    → (is_newer s u ≡ true) × (is_newer t s ≡ false)
unfolding is_newer
is_newer_order s t u h k =
    let (l, c, here, there, above) = is_newer_lem s t h in
    let (c', d, there', last, above') = is_newer_lem t u k in
    let same : c ≡ c' = cc (there, there') in
    let top = outranks_trans l c d above (rw (same) above') in
    let never = ranks_above_asym (some l) (some c) above in
    (ground (arith, here, last, top), ground (arith, here, there, never))

digits_grow : (n : ℕ) (s : Text) → n ≤ read_decimal n s
digits_grow n [] = omega arith
digits_grow n (c ∷ s) = omega (arith, digits_grow (10 * n + (c - b'0')) s)

digits-IsDigit :
    (max n : ℕ) (s : Text)
    → All IsDigit s
    → read_decimal n s ≤ max
    → digits max n s ≡ some (read_decimal n s)
digits-IsDigit max n [] d h = refl
digits-IsDigit max n (c ∷ s) (d, rest) h =
    let m = 10 * n + (c - b'0') in
    let fits : leb m max ≡ true = ground (arith, h, digits_grow m s) in
    let digit : is_digit c ≡ true = ground (arith, d) in
    rw (digit, fits) (digits-IsDigit max m s rest h)

-- No digit is a plus sign, and a number is printed with a digit.
parse_uint-IsDigit :
    (max c : ℕ) (s : Text)
    → All IsDigit (c ∷ s)
    → read_decimal 0 (c ∷ s) ≤ max
    → parse_uint max (c ∷ s) ≡ some (read_decimal 0 (c ∷ s))
parse_uint-IsDigit max c [] d h = digits-IsDigit max 0 (c ∷ []) d h
parse_uint-IsDigit max c (e ∷ s) d h =
    let other : (c == b'+') ≡ false = ground (arith, d.0) in
    rw (other) (digits-IsDigit max 0 (c ∷ e ∷ s) d h)

parse_uint-decimal : (max n : ℕ) → n ≤ max → parse_uint max (decimal n) ≡ some n
parse_uint-decimal max n h =
    go (decimal n) (decimal-IsDigit n) (decimal-nonempty n) (read_decimal-decimal n)
  where
    go : (s : Text) → All IsDigit s → s ≢ [] → read_decimal 0 s ≡ n → parse_uint max s ≡ some n
    go [] d full e = absurd (full refl)
    go (c ∷ s) d full e = rw (parse_uint-IsDigit max c s d (rw (e) h), e) refl

trim_start-IsDigit : (s t : Text) → All IsDigit s → s ≢ [] → trim_start is_v (s ++ t) ≡ s ++ t
unfolding trim_start
trim_start-IsDigit [] t d full = absurd (full refl)
trim_start-IsDigit (c ∷ s) t d full = ground (arith, d.0)

split-IsDigit : (s t : Text) → All IsDigit s → split b'.' (s ++ b'.' ∷ t) ≡ s ∷ split b'.' t
unfolding split
split-IsDigit [] t d = refl
split-IsDigit (c ∷ s) t (d, rest) =
    let other : (c == b'.') ≡ false = ground (arith, d) in rw (split-IsDigit s t rest, other) refl

split_last : (s : Text) → All IsDigit s → split b'.' s ≡ s ∷ []
unfolding split
split_last [] d = refl
split_last (c ∷ s) (d, rest) =
    let other : (c == b'.') ≡ false = ground (arith, d) in rw (split_last s rest, other) refl

leading_digits-IsDigit : (s : Text) → All IsDigit s → leading_digits s ≡ s
leading_digits-IsDigit [] d = refl
leading_digits-IsDigit (c ∷ s) (d, rest) =
    let digit : is_digit c ≡ true = ground (arith, d) in
    rw (digit, leading_digits-IsDigit s rest) refl

-- `format!("agent-v{a}.{b}.{c}")`.
abbrev pub tag_of : Version → Text
tag_of (a, b, c) = text "agent-v" ++ (decimal a ++ (b'.' ∷ (decimal b ++ (b'.' ∷ decimal c))))

prefix_stripped :
    (t : Text)
    → let tag = text "agent-v" ++ t in
      trim_start is_v (trim_prefix (length tag) (text "agent-") tag) ≡ trim_start is_v t
unfolding strip_prefix trim_start
prefix_stripped t = refl

-- The tag that a release is published under, of three numbers that a u64 holds, is read back as
-- its version.
parse_version-tag_of :
    (a b c : ℕ)
    → a ≤ u64_max
    → b ≤ u64_max
    → c ≤ u64_max
    → parse_version (tag_of (a, b, c)) ≡ some (a, b, c)
unfolding parse_version strip_prefix trim_start
parse_version-tag_of a b c ha hb hc =
    let rest = decimal b ++ (b'.' ∷ decimal c) in
    let trimmed =
      trim_start-IsDigit (decimal a) (b'.' ∷ rest) (decimal-IsDigit a) (decimal-nonempty a) in
    let parts : split b'.' (decimal a ++ (b'.' ∷ rest)) ≡ decimal a ∷ decimal b ∷ decimal c ∷ [] =
      rw
        (
          split-IsDigit (decimal a) rest (decimal-IsDigit a),
          split-IsDigit (decimal b) (decimal c) (decimal-IsDigit b),
          split_last (decimal c) (decimal-IsDigit c),
        )
        refl in
    let tag = tag_of (a, b, c) in
    let stripped : trim_start is_v (trim_prefix (length tag) (text "agent-") tag)
        ≡ decimal a ++ (b'.' ∷ rest) =
      prefix_stripped (decimal a ++ (b'.' ∷ rest)) ∙ trimmed in
    rw
      (
        stripped,
        parts,
        version_of,
        parse_uint-decimal u64_max a ha,
        parse_uint-decimal u64_max b hb,
        leading_digits-IsDigit (decimal c) (decimal-IsDigit c),
        parse_uint-decimal u64_max c hc,
      )
      refl
