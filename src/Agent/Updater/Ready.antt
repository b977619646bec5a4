-- ===== src/Agent/Updater/Ready.antt =====
-- What an update that is ready to install has passed.
use roomler.Prelude.{
  ◌∙◌, ◌≤◌, ◌<◌, ◌≡◌, refl, sym, ap, true, false, Option, none, some, List, [], ◌∷◌, ◌++◌, Text,
  text, arith, Option-cases, Bool-cases, inl, inr, ◌⊎◌, strip_prefix, same_text, same_text-≡,
  length, ◌==◌,
}
use mathlib.Core.List.{append_assoc, Memᴰ}
use roomler.Agent.Codecs.{IsSpelledAs, eq_ignore_case-IsSpelledAs}
use roomler.Agent.Updater.Versions.{is_newer_lem}
use roomler.Agent.Updater.Choice.{IsBest, check_once-IsTested}
use roomler.Agent.Updater.{
  Version, GithubAsset, GithubRelease, update_ready, Payload, Host, is_candidate, ranks_above,
  outranks, ends_with, parse_version, passes_digest, verify_sha256, suits, to_lowercase, check_once,
  Platform, windows, linux, macos, other,
}

-- The order of versions, part by part.
abbrev pub IsAbove : Version → Version → Type 0
IsAbove (a, b, c) (a', b', c') = (a' < a) ⊎ ((a ≡ a') × (b' < b)) ⊎ ((a ≡ a') × (b ≡ b') × (c' < c))

-- A release that may be chosen, and its version.
abbrev pub IsOffered : GithubRelease → Version → Type 0
IsOffered r v =
    (r.draft ≡ false)
    × ((rest : Text) × (r.tag_name ≡ text "agent-v" ++ rest))
    × (parse_version r.tag_name ≡ some v)

-- The file name's end on each platform.
abbrev pub IsInstaller : Platform → Text → Type 0
IsInstaller windows name = (stem : Text) × (name ≡ stem ++ text ".msi")
IsInstaller linux name = (stem : Text) × (name ≡ stem ++ text ".deb")
IsInstaller macos name = (stem : Text) × (name ≡ stem ++ text ".pkg")
IsInstaller other name = ⊥

-- No digest is stated, or it is the payload's, of 64 digits after its prefix.
abbrev pub IsGenuine : Payload → Option Text → Type 0
IsGenuine payload digest =
    (digest ≡ none)
    ⊎ ((hex : Text) × (digest ≡ some (text "sha256:" ++ hex))
        × (length hex ≡ 64)
        × IsSpelledAs payload.sha256 hex)

abbrev pub Passed : Host → Text → Text → Text → Type 0
Passed host current latest path =
    (current ≡ host.current)
    × (release : GithubRelease) × (v : Version) × (v' : Version) × (release.tag_name ≡ latest)
    × (parse_version host.current ≡ some v')
    × IsAbove v v'
    × IsOffered release v
    × (releases : List GithubRelease) × ((host.proxy ≡ some releases)
        ⊎ (host.github ≡ some releases))
    × Memᴰ release releases
    × ((r : GithubRelease) (u : Version) → Memᴰ r releases → IsOffered r u → IsAbove u v → ⊥)
    × (asset : GithubAsset) × Memᴰ asset release.assets
    × IsInstaller host.platform (to_lowercase asset.name)
    × (payload : Payload) × (host.download asset.browser_download_url ≡ some payload)
    × (1000000 ≤ payload.len)
    × IsGenuine payload asset.digest
    × (host.writes asset.name ≡ some path)

outranks-IsAbove : (v w : Version) → outranks v w ≡ true → IsAbove v w
unfolding outranks
outranks-IsAbove (a, b, c) (a', b', c') h = ground (arith, h)

IsAbove-outranks : (v w : Version) → IsAbove v w → outranks v w ≡ true
unfolding outranks
IsAbove-outranks (a, b, c) (a', b', c') (inl h) = ground (arith, h)
IsAbove-outranks (a, b, c) (a', b', c') (inr (inl h)) = ground (arith, h)
IsAbove-outranks (a, b, c) (a', b', c') (inr (inr h)) = ground (arith, h)

strip_prefix-append : (p s rest : Text) → strip_prefix p s ≡ some rest → s ≡ p ++ rest
unfolding strip_prefix
strip_prefix-append [] s rest h = cc
strip_prefix-append (c ∷ p) [] rest h = cc
strip_prefix-append (c ∷ p) (d ∷ s) rest h = elim (Bool-cases (c == d)) [
  | inl same ↦
      let e : s ≡ p ++ rest = strip_prefix-append p s rest (ground (arith, h, same)) in
      let first : d ≡ c = ground (arith, same) in rw (first, e) refl
  | inr different ↦ absurd (ground (arith, h, different))
]

strip_prefix_back : (p rest : Text) → strip_prefix p (p ++ rest) ≡ some rest
unfolding strip_prefix
strip_prefix_back [] rest = refl
strip_prefix_back (c ∷ p) rest = ground (arith, strip_prefix_back p rest)

ends_with-append : (p s : Text) → ends_with p s ≡ true → (stem : Text) × (s ≡ stem ++ p)
ends_with-append p [] h = ([], sym (same_text-≡ p [] h))
ends_with-append p (c ∷ s) h = elim (Bool-cases (same_text p (c ∷ s))) [
  | inl whole ↦ ([], sym (same_text-≡ p (c ∷ s) whole))
  | inr part ↦
      let (stem, e) = ends_with-append p s (ground (arith, h, part)) in
      (c ∷ stem, ap (λ t. c ∷ t) e)
]

suits-IsInstaller : (p : Platform) (name : Text) → suits p name ≡ true → IsInstaller p name
suits-IsInstaller windows name h = ends_with-append (text ".msi") name h
suits-IsInstaller macos name h = ends_with-append (text ".pkg") name h
suits-IsInstaller other name h = cc
suits-IsInstaller linux name h = elim (Bool-cases (ends_with (text "_amd64.deb") name)) [
  | inl amd ↦
      let (stem, e) = ends_with-append (text "_amd64.deb") name amd in
      (stem ++ text "_amd64", e ∙ sym (append_assoc stem (text "_amd64") (text ".deb")))
  | inr plain ↦ ends_with-append (text ".deb") name (ground (arith, h, plain))
]

passes-IsGenuine :
    (payload : Payload) (digest : Option Text)
    → passes_digest payload digest ≡ true
    → IsGenuine payload digest
unfolding verify_sha256
passes-IsGenuine payload none h = inl refl
passes-IsGenuine payload (some digest) h =
    elim (Option-cases (strip_prefix (text "sha256:") digest)) [
      | inl unmarked ↦ absurd (ground (arith, unmarked, h))
      | inr (hex, here) ↦ inr (
        hex,
        ap some (strip_prefix-append (text "sha256:") digest hex here),
        ground (arith, here, h),
        eq_ignore_case-IsSpelledAs payload.sha256 hex (ground (arith, here, h)),
      )
    ]

candidate-IsOffered : (r : GithubRelease) → is_candidate r ≡ true → (v : Version) × IsOffered r v
candidate-IsOffered r h = elim (Option-cases (strip_prefix (text "agent-v") r.tag_name)) [
  | inl unmarked ↦ absurd (ground (arith, unmarked, h))
  | inr (rest, marked) ↦ elim (Option-cases (parse_version r.tag_name)) [
    | inl unread ↦ absurd (ground (arith, marked, unread, h))
    | inr (v, read) ↦ (
      v,
      (
        ground (arith, h),
        (rest, strip_prefix-append (text "agent-v") r.tag_name rest marked),
        read,
      ),
    )
  ]
]

IsOffered-candidate : (r : GithubRelease) (v : Version) → IsOffered r v → is_candidate r ≡ true
IsOffered-candidate r v (published, (rest, tagged), read) =
    let marked : strip_prefix (text "agent-v") r.tag_name ≡ some rest =
      rw (tagged) (strip_prefix_back (text "agent-v") rest) in
    rw (published, marked, read) refl

unbeaten :
    (best : GithubRelease) (releases : List GithubRelease) (v u : Version) (r : GithubRelease)
    → IsBest best releases
    → parse_version best.tag_name ≡ some v
    → Memᴰ r releases
    → IsOffered r u
    → IsAbove u v
    → ⊥
unbeaten best releases v u r (good, m, tops) read there offered above =
    let not_above = tops r there (IsOffered-candidate r u offered) in
    let higher : ranks_above (parse_version r.tag_name) (parse_version best.tag_name) ≡ true =
      rw (offered.2, read) (IsAbove-outranks u v above) in
    absurd (ground (arith, not_above, higher))

-- An update is ready only where: its version is above the running one; its release is one that the
-- proxy or GitHub lists, no draft, tagged agent-v and a version, and no other such release there
-- has a higher one; the asset is one of that release, its name ends as this platform's installers
-- do; and what was downloaded has at least a million bytes and, where a digest is stated, that
-- SHA-256, spelled in either case.
pub check_once-Passed :
    (host : Host) (current latest path : Text)
    → check_once host ≡ update_ready current latest path
    → Passed host current latest path
check_once-Passed host current latest path h =
    let (same, newer, release, tagged, releases, listed, best, asset, of_it, vetted) =
      check_once-IsTested host current latest path h in
    let (l, c, read, running, above) = is_newer_lem latest host.current newer in
    let (fits, payload, got, large, genuine, written) = vetted in
    let (v, offered) = candidate-IsOffered release best.0 in
    let read' : parse_version release.tag_name ≡ some l = rw (tagged) read in
    let same_version : some v ≡ some l = sym offered.2 ∙ read' in
    let v_l : v ≡ l = cc (same_version) in
    (
      same,
      release,
      v,
      c,
      tagged,
      running,
      rw (v_l) (outranks-IsAbove l c above),
      offered,
      releases,
      listed,
      best.1,
      λ r u there ok higher. unbeaten release releases v u r best offered.2 there ok higher,
      asset,
      of_it,
      suits-IsInstaller host.platform (to_lowercase asset.name) fits,
      payload,
      got,
      large,
      passes-IsGenuine payload asset.digest genuine,
      written,
    )
