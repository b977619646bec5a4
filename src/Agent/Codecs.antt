-- ===== src/Agent/Codecs.antt =====
-- agents/roomler-agent/src/encode/caps.rs: the codec that a session uses.
use mathlib.Core.List.{Memᴰ}
use roomler.Prelude.{
  sym, ◌≤◌, arith, ℕ, ◌+◌, ◌≡◌, ◌⊎◌, refl, Bool, true, false, ◌&&◌, List, [], ◌∷◌, ◌++◌, All, any,
  leb, Text, text, if◌then◌else◌, ap, inl, inr, Bool-cases, ◌==◌,
}

-- `eq_ignore_ascii_case`: the letters A to Z are read as a to z.
abbrev pub lower : ℕ → ℕ
lower c = if leb b'A' c && leb c b'Z' then c + 32 else c

abbrev pub eq_ignore_case : Text → Text → Bool
eq_ignore_case [] [] = true
eq_ignore_case [] (d ∷ t) = false
eq_ignore_case (c ∷ s) [] = false
eq_ignore_case (c ∷ s) (d ∷ t) = lower c == lower d && eq_ignore_case s t

abbrev pub priority : List Text
priority = text "av1" ∷ text "h265" ∷ text "vp9" ∷ text "h264" ∷ text "vp8" ∷ []

abbrev pub supports : List Text → Text → Bool
supports caps codec = any (λ c. eq_ignore_case c codec) caps

abbrev pub is_common : List Text → List Text → Text → Bool
is_common browser_caps agent_caps codec = supports browser_caps codec && supports agent_caps codec

-- The loop over the candidates, with its fallback.
unfoldable pub first_common : (Text → Bool) → List Text → Text
first_common common [] = text "h264"
first_common common (candidate ∷ rest) =
    if common candidate then candidate else first_common common rest

unfoldable pub pick_best_codec : List Text → List Text → Text
unfolding first_common
pick_best_codec browser_caps agent_caps = first_common (is_common browser_caps agent_caps) priority

-- One character but for the case of a letter.
abbrev pub IsCaseOf : ℕ → ℕ → Type 0
IsCaseOf c d =
    (c ≡ d) ⊎ ((b'A' ≤ c) × (c ≤ b'Z') × (d ≡ c + 32)) ⊎ ((b'A' ≤ d) × (d ≤ b'Z') × (c ≡ d + 32))

abbrev pub IsSpelledAs : Text → Text → Type 0
IsSpelledAs [] [] = Unit
IsSpelledAs [] (d ∷ t) = ⊥
IsSpelledAs (c ∷ s) [] = ⊥
IsSpelledAs (c ∷ s) (d ∷ t) = IsCaseOf c d × IsSpelledAs s t

lower-IsCaseOf : (c d : ℕ) → (lower c == lower d) ≡ true → IsCaseOf c d
lower-IsCaseOf c d h = ground (arith, h)

IsCaseOf-lower : (c d : ℕ) → IsCaseOf c d → (lower c == lower d) ≡ true
IsCaseOf-lower c d (inl same) = ground (arith, same)
IsCaseOf-lower c d (inr (inl h)) = ground (arith, h)
IsCaseOf-lower c d (inr (inr h)) = ground (arith, h)

pub eq_ignore_case-IsSpelledAs : (s t : Text) → eq_ignore_case s t ≡ true → IsSpelledAs s t
eq_ignore_case-IsSpelledAs [] [] h = tt
eq_ignore_case-IsSpelledAs [] (d ∷ t) h = cc
eq_ignore_case-IsSpelledAs (c ∷ s) [] h = cc
eq_ignore_case-IsSpelledAs (c ∷ s) (d ∷ t) h = elim (Bool-cases (lower c == lower d)) [
  | inl same ↦ (lower-IsCaseOf c d same, eq_ignore_case-IsSpelledAs s t (ground (arith, h, same)))
  | inr other ↦ absurd (ground (arith, h, other))
]

IsSpelledAs-eq_ignore_case : (s t : Text) → IsSpelledAs s t → eq_ignore_case s t ≡ true
IsSpelledAs-eq_ignore_case [] [] h = refl
IsSpelledAs-eq_ignore_case [] (d ∷ t) h = absurd h
IsSpelledAs-eq_ignore_case (c ∷ s) [] h = absurd h
IsSpelledAs-eq_ignore_case (c ∷ s) (d ∷ t) (first, rest) =
    rw (IsCaseOf-lower c d first, IsSpelledAs-eq_ignore_case s t rest) refl

-- A side that lists the codec, in whatever case.
abbrev pub Lists : List Text → Text → Type 0
Lists caps codec = (c : Text) × Memᴰ c caps × IsSpelledAs c codec

abbrev pub IsShared : List Text → List Text → Text → Type 0
IsShared browser_caps agent_caps codec = Lists browser_caps codec × Lists agent_caps codec

supports-Lists : (caps : List Text) (codec : Text) → supports caps codec ≡ true → Lists caps codec
supports-Lists [] codec h = cc
supports-Lists (c ∷ rest) codec h = elim (Bool-cases (eq_ignore_case c codec)) [
  | inl here ↦ (c, Memᴰ.head refl, eq_ignore_case-IsSpelledAs c codec here)
  | inr other ↦
      let (d, m, same) = supports-Lists rest codec (ground (arith, h, other)) in
      (d, Memᴰ.tail m, same)
]

listed_here : (c d codec : Text) → c ≡ d → IsSpelledAs c codec → eq_ignore_case d codec ≡ true
listed_here c d codec e same = rw (sym e) (IsSpelledAs-eq_ignore_case c codec same)

Lists-supports :
    (caps : List Text) (c codec : Text)
    → Memᴰ c caps
    → IsSpelledAs c codec
    → supports caps codec ≡ true
Lists-supports [] c codec m same = elim m [ ]
Lists-supports (d ∷ rest) c codec (Memᴰ.head e) same = rw (listed_here c d codec e same) refl
Lists-supports (d ∷ rest) c codec (Memᴰ.tail m) same =
    let later = Lists-supports rest c codec m same in ground (arith, later)

is_common-IsShared :
    (browser_caps agent_caps : List Text) (codec : Text)
    → is_common browser_caps agent_caps codec ≡ true
    → IsShared browser_caps agent_caps codec
is_common-IsShared b a codec h =
    (supports-Lists b codec (ground (arith, h)), supports-Lists a codec (ground (arith, h)))

unshared :
    (browser_caps agent_caps : List Text) (codec : Text)
    → is_common browser_caps agent_caps codec ≡ false
    → IsShared browser_caps agent_caps codec
    → ⊥
unshared b a codec h ((c, m, same), (d, n, same')) =
    let left = Lists-supports b c codec m same in
    let right = Lists-supports a d codec n same' in absurd (ground (arith, h, left, right))

-- From the best codec to the worst.
abbrev pub ranking : List Text
ranking = text "av1" ∷ text "h265" ∷ text "vp9" ∷ text "h264" ∷ text "vp8" ∷ []

abbrev pub IsRuledOut : List Text → List Text → Text → Type 0
IsRuledOut browser_caps agent_caps codec = IsShared browser_caps agent_caps codec → ⊥

-- The first of the candidates that both sides list, or h264 if they share none of them.
abbrev pub PickOf : List Text → List Text → List Text → Text → Type 0
PickOf browser_caps agent_caps candidates codec =
    ((better worse : List Text) × (candidates ≡ better ++ codec ∷ worse)
      × IsShared browser_caps agent_caps codec
      × All (IsRuledOut browser_caps agent_caps) better)
    ⊎ (All (IsRuledOut browser_caps agent_caps) candidates × (codec ≡ text "h264"))

first_common-PickOf :
    (b a candidates : List Text) → PickOf b a candidates (first_common (is_common b a) candidates)
unfolding first_common
first_common-PickOf b a [] = inr (tt, refl)
first_common-PickOf b a (c ∷ rest) = elim (Bool-cases (is_common b a c)) [
  | inl shared ↦ inl ([], rest, rw (shared) refl, rw (shared) (is_common-IsShared b a c shared), tt)
  | inr out ↦ elim (first_common-PickOf b a rest) [
    | inl (better, worse, split, chosen, ruled) ↦ inl (
      c ∷ better,
      worse,
      rw (out) (ap (λ l. c ∷ l) split),
      rw (out) chosen,
      (unshared b a c out, ruled),
    )
    | inr (ruled, fallback) ↦ inr ((unshared b a c out, ruled), rw (out) fallback)
  ]
]

-- The codec that is picked is, of av1, h265, vp9, h264 and vp8 in this order, the first that both
-- sides list, in whatever case; or h264, if they share none of them.
pub pick_best_codec-PickOf :
    (browser_caps agent_caps : List Text)
    → PickOf browser_caps agent_caps ranking (pick_best_codec browser_caps agent_caps)
unfolding pick_best_codec
pick_best_codec-PickOf browser_caps agent_caps =
    first_common-PickOf browser_caps agent_caps priority
