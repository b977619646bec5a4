-- ===== src/Agent/Updater/Interval.antt =====
-- How often an agent looks for an update.
use roomler.Prelude.{
  ℕ, ◌*◌, ◌+◌, ◌-◌, ◌≤◌, ◌≡◌, refl, ◌&&◌, Option, none, some, [], ◌∷◌, Text, arith, Bool-cases, inl,
  inr, leb, ltb, ◌==◌, trim_start, trim_end,
}
use roomler.Agent.Updater.{
  digits, parse_uint, is_digit, u32_max, hours, env_hours, or_hours, is_whitespace, check_interval,
  resolve_check_interval_with,
}

digits-le : (max n k : ℕ) (s : Text) → n ≤ max → digits max n s ≡ some k → k ≤ max
digits-le max n k [] h e = ground (arith, h, e)
digits-le max n k (c ∷ s) h e = elim (Bool-cases (is_digit c && leb (10 * n + (c - b'0')) max)) [
  | inl fits ↦
      digits-le max (10 * n + (c - b'0')) k s (ground (arith, fits)) (ground (arith, fits, e))
  | inr unfit ↦ absurd (ground (arith, unfit, e))
]

parse_uint-le : (max k : ℕ) (s : Text) → parse_uint max s ≡ some k → k ≤ max
parse_uint-le max k [] e = cc
parse_uint-le max k (c ∷ []) e = digits-le max 0 k (c ∷ []) (omega arith) e
parse_uint-le max k (c ∷ d ∷ s) e = elim (Bool-cases (c == b'+')) [
  | inl plus ↦ digits-le max 0 k (d ∷ s) (omega arith) (ground (arith, plus, e))
  | inr other ↦ digits-le max 0 k (c ∷ d ∷ s) (omega arith) (ground (arith, other, e))
]

-- From an hour to what a u32 of hours gives.
abbrev pub InRange : ℕ → Type 0
InRange secs = (3600 ≤ secs) × (secs ≤ u32_max * 3600)

hours-InRange :
    (value : Option ℕ) (fallback : ℕ)
    → ((h : ℕ) → value ≡ some h → h ≤ u32_max)
    → InRange fallback
    → InRange (or_hours (hours value) fallback)
hours-InRange none fallback small r = r
hours-InRange (some h) fallback small r = elim (Bool-cases (ltb 0 h)) [
  | inl positive ↦ ground (arith, positive, small h refl)
  | inr zero ↦ ground (arith, zero, r)
]

env_hours-InRange :
    (env : Option Text) (fallback : ℕ)
    → InRange fallback
    → InRange (or_hours (env_hours env) fallback)
env_hours-InRange none fallback r = r
env_hours-InRange (some s) fallback r =
    let trimmed = trim_start is_whitespace (trim_end is_whitespace s) in
    hours-InRange (parse_uint u32_max trimmed) fallback (λ h e. parse_uint-le u32_max h trimmed e) r

-- Whatever the environment says, and for any configured number of hours that a u32 holds, the
-- agent looks at most once an hour and does not stop looking.
resolve_check_interval_with-InRange :
    (env : Option Text) (cfg : Option ℕ)
    → ((h : ℕ) → cfg ≡ some h → h ≤ u32_max)
    → InRange (resolve_check_interval_with env cfg)
unfolding resolve_check_interval_with
resolve_check_interval_with-InRange env cfg small =
    env_hours-InRange env (or_hours (hours cfg) check_interval)
      (hours-InRange cfg check_interval small (ground arith))
