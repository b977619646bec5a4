-- ===== src/Agent/Files/Names.antt =====
-- agents/roomler-agent/src/files.rs: names that are safe and free.
use roomler.Prelude.{
  ℕ, suc, zero, ◌+◌, ◌≤◌, ◌<◌, ◌≡◌, ◌≢◌, refl, Bool, true, false, ◌&&◌, ◌||◌, Option, none, some,
  [], subst, ◌∷◌, ◌++◌, map, any, All, leb, ◌==◌, if◌then◌else◌, arith, Text, text, decimal,
  trim_end, trim_start, ◌⊎◌, inl, inr, Bool-cases, Option-cases,
}

abbrev pub is_separator : ℕ → Bool
is_separator c = c == b'/' || c == b'\\'

-- The first piece of `rsplit(['/', '\\'])`.
unfoldable pub basename : Text → Text
basename [] = []
basename (c ∷ s) =
    let rest = basename s in
    if any is_separator s then rest else if is_separator c then s else c ∷ s

abbrev between : ℕ → ℕ → ℕ → Bool
between low high c = leb low c && leb c high

abbrev pub is_kept : ℕ → Bool
is_kept c =
    between b'A' b'Z' c
    || between b'a' b'z' c
    || between b'0' b'9' c
    || (c == b'.' || c == b'_' || c == b'-' || c == b' ')

abbrev pub clean_char : ℕ → ℕ
clean_char c = if is_kept c then c else b'_'

-- The only white space that cleaning leaves.
abbrev is_space : ℕ → Bool
is_space c = c == b' '

abbrev is_dot : ℕ → Bool
is_dot c = c == b'.'

abbrev pub trimmed : Text → Text
trimmed cleaned =
    trim_start is_dot (trim_end is_dot (trim_start is_space (trim_end is_space cleaned)))

abbrev pub or_fallback : Text → Text
or_fallback [] = text "download.bin"
or_fallback (c ∷ s) = c ∷ s

unfoldable pub sanitize_filename : Text → Text
unfolding basename
sanitize_filename name = or_fallback (trimmed (map clean_char (basename name)))

-- `rfind('.')` with something before and after it: the part before the last dot, and the part after.
unfoldable pub split_at_dot : Text → Option (Text × Text)
split_at_dot [] = none
split_at_dot (c ∷ s) = elim (split_at_dot s) [
  | some (before, after) ↦ some (c ∷ before, after)
  | none ↦ if is_dot c then some ([], s) else none
]

unfoldable pub split_stem_ext : Text → Text × Text
unfolding split_at_dot
split_stem_ext name = elim (split_at_dot name) [
  | some (c ∷ before, d ∷ after) ↦ (c ∷ before, d ∷ after)
  | _ ↦ (name, [])
]

-- `Path::join` of a name that has no separator.
abbrev pub join : Text → Text → Text
join dir name = dir ++ b'/' ∷ name

abbrev pub suffixed : Text × Text → ℕ → Text
suffixed (stem, []) n = stem ++ text " (" ++ decimal n ++ text ")"
suffixed (stem, c ∷ ext) n = stem ++ text " (" ++ decimal n ++ text ")." ++ c ∷ ext

module _ (is_taken : Text → Bool) (dir : Text) where
  -- The rounds of `for n in 2..1000`.
  unfoldable pub first_free : Text × Text → ℕ → ℕ → Text → Text
  first_free parts zero n candidate = candidate
  first_free parts (suc rounds) n candidate =
      let later = first_free parts rounds (suc n) candidate in
      if is_taken (join dir (suffixed parts n)) then later else join dir (suffixed parts n)

  unfoldable pub unique_path : Text → Text
  unfolding first_free split_stem_ext
  unique_path name =
      if is_taken (join dir name)
      then first_free (split_stem_ext name) 998 2 (join dir name)
      else join dir name

  first_free_taken :
      (parts : Text × Text) (rounds n : ℕ) (candidate : Text)
      → is_taken (first_free parts rounds n candidate) ≡ true
      → (k : ℕ) → n ≤ k
      → k < n + rounds
      → is_taken (join dir (suffixed parts k)) ≡ true
  unfolding first_free
  first_free_taken parts zero n candidate h k low high = absurd (omega (arith, low, high))
  first_free_taken parts (suc rounds) n candidate h k low high =
      grind (arith, first_free_taken parts rounds (suc n) candidate)

  -- The path chosen for an upload is free, unless the name and all of its numbered forms from 2 to
  -- 999 are taken.
  pub unique_path_taken :
      (name : Text)
      → is_taken (unique_path name) ≡ true
      → (is_taken (join dir name) ≡ true)
        × ((k : ℕ)
            → 2 ≤ k
            → k < 1000
            → is_taken (join dir (suffixed (split_stem_ext name) k)) ≡ true)
  unfolding unique_path
  unique_path_taken name h = elim (Bool-cases (is_taken (join dir name))) [
    | inl taken ↦
        (taken, first_free_taken (split_stem_ext name) 998 2 (join dir name) (ground arith))
    | inr free ↦ absurd (ground arith)
  ]

split_at_dot_joins :
    (s before after : Text) → split_at_dot s ≡ some (before, after) → s ≡ before ++ b'.' ∷ after
unfolding split_at_dot
split_at_dot_joins [] before after e = cc
split_at_dot_joins (c ∷ s) before after e = elim (Option-cases (split_at_dot s)) [
  | inl dotless ↦ ground (arith, e, dotless)
  | inr ((b, a), found) ↦ ground (arith, e, found, split_at_dot_joins s b a found)
]

-- A name is its stem and its extension with a dot between, or is its own stem.
split_stem_ext_joins :
    (name : Text)
    → let (stem, ext) = split_stem_ext name in
      ((ext ≡ []) × (stem ≡ name)) ⊎ ((stem ≢ []) × (ext ≢ []) × (name ≡ stem ++ b'.' ∷ ext))
unfolding split_stem_ext
split_stem_ext_joins name = elim (Option-cases (split_at_dot name)) [
  | inl dotless ↦ ground (arith, dotless)
  | inr (([], a), found) ↦ ground (arith, found)
  | inr ((c ∷ b, []), found) ↦ ground (arith, found)
  | inr ((c ∷ b, d ∷ a), found) ↦
      ground (arith, found, split_at_dot_joins name (c ∷ b) (d ∷ a) found)
]

abbrev IsPassed : ℕ → Type 0
IsPassed c = is_kept c ≡ true

-- A letter or a digit; or a dot, an underscore, a dash or a space.
abbrev pub IsKept : ℕ → Type 0
IsKept c =
    ((b'A' ≤ c) × (c ≤ b'Z'))
    ⊎ ((b'a' ≤ c) × (c ≤ b'z'))
    ⊎ ((b'0' ≤ c) × (c ≤ b'9'))
    ⊎ (c ≡ b'.')
    ⊎ (c ≡ b'_')
    ⊎ (c ≡ b'-')
    ⊎ (c ≡ b' ')

passed-IsKept : (c : ℕ) → IsPassed c → IsKept c
passed-IsKept c h = ground (arith, h)

All-IsKept : (s : Text) → All IsPassed s → All IsKept s
All-IsKept [] h = tt
All-IsKept (c ∷ s) (h, rest) = (passed-IsKept c h, All-IsKept s rest)

All-trim_end : (p : ℕ → Bool) (s : Text) → All IsPassed s → All IsPassed (trim_end p s)
unfolding trim_end
All-trim_end p [] h = tt
All-trim_end p (c ∷ s) h = ground (arith, All-trim_end p s)

All-trim_start : (p : ℕ → Bool) (s : Text) → All IsPassed s → All IsPassed (trim_start p s)
unfolding trim_start
All-trim_start p [] h = tt
All-trim_start p (c ∷ s) h = ground (arith, All-trim_start p s)

All-clean : (s : Text) → All IsPassed (map clean_char s)
All-clean [] = tt
All-clean (c ∷ s) = (ground arith, All-clean s)

trim_start-first :
    (p : ℕ → Bool) (s : Text)
    → (trim_start p s ≡ []) ⊎ ((c : ℕ) × (t : Text) × (trim_start p s ≡ c ∷ t) × (p c ≡ false))
unfolding trim_start
trim_start-first p [] = inl refl
trim_start-first p (c ∷ s) = elim (Bool-cases (p c)) [
  | inl drops ↦ rw (drops) (trim_start-first p s)
  | inr stays ↦ inr (c, s, rw (stays) refl, stays)
]

dotted : (c : ℕ) → c ≡ b'.' → is_dot c ≡ false → ⊥
dotted c dot dotless = ground (arith, dot, dotless)

-- Every character of a name that was made safe is a letter, a digit, a dot, an underscore, a dash
-- or a space; the name is not empty and does not begin with a dot.
pub sanitize_filename-All :
    (name : Text)
    → All IsKept (sanitize_filename name)
      × ((c : ℕ) × (s : Text) × (sanitize_filename name ≡ c ∷ s) × (c ≢ b'.'))
unfolding sanitize_filename
sanitize_filename-All name =
    let s = map clean_char (basename name) in
    let kept = All-trim_start is_dot _ (
      All-trim_end is_dot _
        (All-trim_start is_space _ (All-trim_end is_space s (All-clean (basename name))))) in
    elim (trim_start-first is_dot (trim_end is_dot (trim_start is_space (trim_end is_space s)))) [
      | inl gone ↦ rw (gone) (
        All-IsKept (text "download.bin") (All-clean (text "download.bin")),
        (b'd', text "ownload.bin", refl, λ e. dotted b'd' e refl),
      )
      | inr (c, t, e, dotless) ↦ rw (e) (
        All-IsKept (c ∷ t) (subst (All IsPassed) e kept),
        (c, t, refl, λ dot. dotted c dot dotless),
      )
    ]
