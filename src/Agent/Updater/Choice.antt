-- ===== src/Agent/Updater/Choice.antt =====
-- The release that is chosen, and what has to hold before it is installed.
use roomler.Prelude.{
  ◌≤◌, ◌≡◌, refl, sym, Bool, true, false, not, ◌||◌, Option, none, some, List, [], ◌∷◌, Text,
  retain, is_some, arith, Option-cases, Bool-cases, inl, inr, ◌⊎◌, if◌then◌else◌, subst,
}
use mathlib.Core.List.{Memᴰ}
use roomler.Agent.Updater.Versions.{ranks_above_irrefl, ranks_above_asym, ranks_above_weaken}
use roomler.Agent.Updater.{
  Version, GithubAsset, GithubRelease, update_ready, Payload, Host, min_installer_bytes,
  is_candidate, ranks_above, insert_release, sort_releases, head, pick_latest_release,
  parse_version, passes_digest, suits, to_lowercase, pick_asset_for_platform, download_asset,
  fetch_latest_release, releases_from, installs, check_once, is_newer, Platform,
}

-- A candidate among the releases that no other candidate outranks.
abbrev pub IsBest : GithubRelease → List GithubRelease → Type 0
IsBest best releases =
    (is_candidate best ≡ true)
    × Memᴰ best releases
    × ((r : GithubRelease)
        → Memᴰ r releases
        → is_candidate r ≡ true
        → ranks_above (parse_version r.tag_name) (parse_version best.tag_name) ≡ false)

-- Nothing in the list outranks the version.
abbrev Tops : Option Version → List GithubRelease → Type 0
Tops v l = (r : GithubRelease) → Memᴰ r l → ranks_above (parse_version r.tag_name) v ≡ false

not_in : {r : GithubRelease} → Memᴰ r [] → ⊥
not_in m = elim m [ ]

head-insert_release :
    (r : GithubRelease) (l : List GithubRelease)
    → head (insert_release r l) ≡ (elim (head l) [
      | none ↦ some r
      | some q ↦
          if ranks_above (parse_version q.tag_name) (parse_version r.tag_name)
          then some q
          else some r
    ])
head-insert_release r [] = refl
head-insert_release r (q ∷ rest) =
    elim (Bool-cases (ranks_above (parse_version q.tag_name) (parse_version r.tag_name))) [
      | inl above ↦ rw (above) refl
      | inr below ↦ rw (below) refl
    ]

-- The first of the sorted releases is one of them, and tops them all.
head-sort_releases :
    (l : List GithubRelease)
    → ((l ≡ []) × (head (sort_releases l) ≡ none))
      ⊎ ((b : GithubRelease) × (head (sort_releases l) ≡ some b)
          × Memᴰ b l
          × Tops (parse_version b.tag_name) l)
head-sort_releases [] = inl (refl, refl)
head-sort_releases (r ∷ rest) = elim (head-sort_releases rest) [
  | inl (empty, unsorted) ↦ inr (
    r,
    rw (head-insert_release r (sort_releases rest), unsorted) refl,
    Memᴰ.head refl,
    topped r r rest (ranks_above_irrefl (parse_version r.tag_name))
        (rw (empty) (λ x m. absurd (not_in m))),
  )
  | inr (b, first, member, tops) ↦
      elim (Bool-cases (ranks_above (parse_version b.tag_name) (parse_version r.tag_name))) [
        | inl above ↦ inr (
          b,
          rw (head-insert_release r (sort_releases rest), first, above) refl,
          Memᴰ.tail member,
          topped b r rest
              (ranks_above_asym (parse_version b.tag_name) (parse_version r.tag_name) above) tops,
        )
        | inr below ↦ inr (
          r,
          rw (head-insert_release r (sort_releases rest), first, below) refl,
          Memᴰ.head refl,
          topped r r rest (ranks_above_irrefl (parse_version r.tag_name)) (λ x m.
              ranks_above_weaken (parse_version x.tag_name) (parse_version b.tag_name)
                (parse_version r.tag_name) (tops x m) below),
        )
      ]
]
  where
    topped :
        (b r : GithubRelease) (rest : List GithubRelease)
        → ranks_above (parse_version r.tag_name) (parse_version b.tag_name) ≡ false
        → Tops (parse_version b.tag_name) rest
        → Tops (parse_version b.tag_name) (r ∷ rest)
    topped b r rest first others x (Memᴰ.head e) = rw (e) first
    topped b r rest first others x (Memᴰ.tail m) = others x m

mem_if :
    (b : Bool) (r x : GithubRelease) (k : List GithubRelease)
    → Memᴰ r (if b then x ∷ k else k)
    → ((b ≡ true) × (r ≡ x)) ⊎ Memᴰ r k
mem_if true r x k (Memᴰ.head e) = inl (refl, e)
mem_if true r x k (Memᴰ.tail m) = inr m
mem_if false r x k m = inr m

retain-candidate :
    (r : GithubRelease) (l : List GithubRelease)
    → Memᴰ r (retain is_candidate l)
    → Memᴰ r l × (is_candidate r ≡ true)
retain-candidate r [] m = absurd (not_in m)
retain-candidate r (x ∷ l) m = elim (mem_if (is_candidate x) r x (retain is_candidate l) m) [
  | inl (good, same) ↦ (Memᴰ.head same, rw (same) good)
  | inr there ↦ let (member, good) = retain-candidate r l there in (Memᴰ.tail member, good)
]

if_mem :
    (b : Bool) (r x : GithubRelease) (k : List GithubRelease)
    → Memᴰ r k
    → Memᴰ r (if b then x ∷ k else k)
if_mem true r x k m = Memᴰ.tail m
if_mem false r x k m = m

candidate-retain :
    (r : GithubRelease) (l : List GithubRelease)
    → Memᴰ r l
    → is_candidate r ≡ true
    → Memᴰ r (retain is_candidate l)
candidate-retain r [] m good = absurd (not_in m)
candidate-retain r (x ∷ l) (Memᴰ.head same) good =
    let good' : is_candidate x ≡ true = rw (sym same) good in rw (good') (Memᴰ.head same)
candidate-retain r (x ∷ l) (Memᴰ.tail m) good =
    if_mem (is_candidate x) r x (retain is_candidate l) (candidate-retain r l m good)

-- The release that is picked is a candidate that no other candidate outranks, and none is picked
-- only where there is no candidate.
pick_latest_release_lem :
    (releases : List GithubRelease)
    → ((pick_latest_release releases ≡ none)
        × ((r : GithubRelease) → Memᴰ r releases → is_candidate r ≡ false))
      ⊎ ((best : GithubRelease) × (pick_latest_release releases ≡ some best) × IsBest best releases)
unfolding pick_latest_release
pick_latest_release_lem releases = elim (head-sort_releases (retain is_candidate releases)) [
  | inl (empty, unpicked) ↦ inl (
    unpicked,
    λ r m. elim (Bool-cases (is_candidate r)) [
      | inr bad ↦ bad
      | inl good ↦ absurd (not_in (subst (Memᴰ r) empty (candidate-retain r releases m good)))
    ],
  )
  | inr (best, picked, member, tops) ↦
      let (listed, good) = retain-candidate best releases member in
      inr (best, picked, (good, listed, λ r m ok. tops r (candidate-retain r releases m ok)))
]

-- The program's own tests on the asset: it was downloaded for this platform, is large enough and has the digest that it should have.
abbrev pub Vetted : Host → GithubAsset → Text → Type 0
Vetted host asset path =
    (suits host.platform (to_lowercase asset.name) ≡ true)
    × (payload : Payload) × (host.download asset.browser_download_url ≡ some payload)
    × (min_installer_bytes ≤ payload.len)
    × (passes_digest payload asset.digest ≡ true)
    × (host.writes asset.name ≡ some path)

pick_asset-suits :
    (p : Platform) (assets : List GithubAsset) (a : GithubAsset)
    → pick_asset_for_platform p assets ≡ some a
    → Memᴰ a assets × (suits p (to_lowercase a.name) ≡ true)
unfolding pick_asset_for_platform
pick_asset-suits p [] a h = cc
pick_asset-suits p (x ∷ rest) a h = elim (Bool-cases (suits p (to_lowercase x.name))) [
  | inl fits ↦
      let same : some x ≡ some a = rw (sym h, fits) refl in
      let same' : a ≡ x = cc (same) in (Memᴰ.head same', rw (same') fits)
  | inr other ↦
      let later : pick_asset_for_platform p rest ≡ some a = rw (sym h, other) refl in
      let (m, fits) = pick_asset-suits p rest a later in (Memᴰ.tail m, fits)
]

download_asset-Vetted :
    (host : Host) (asset : GithubAsset) (path : Text)
    → suits host.platform (to_lowercase asset.name) ≡ true
    → download_asset host asset ≡ some path
    → Vetted host asset path
unfolding download_asset
download_asset-Vetted host asset path fits h =
    elim (Option-cases (host.download asset.browser_download_url)) [
      | inl gone ↦ absurd (ground (arith, gone, h))
      | inr (payload, here) ↦ (
        fits,
        payload,
        here,
        ground (arith, here, h),
        ground (arith, here, h),
        ground (arith, here, h),
      )
    ]

installs-Vetted :
    (host : Host) (tag current latest path : Text) (assets : List GithubAsset)
    → installs host tag assets ≡ update_ready current latest path
    → (current ≡ host.current)
      × (latest ≡ tag)
      × (asset : GithubAsset) × Memᴰ asset assets
      × Vetted host asset path
installs-Vetted host tag current latest path assets h =
    elim (Option-cases (pick_asset_for_platform host.platform assets)) [
      | inl gone ↦ absurd (ground (arith, gone, h))
      | inr (asset, picked) ↦ elim (Option-cases (download_asset host asset)) [
        | inl failed ↦ absurd (ground (arith, picked, failed, h))
        | inr (path', saved) ↦
            let same : update_ready host.current tag path' ≡ update_ready current latest path =
              rw (sym h, installs, picked, saved) refl in
            let (member, fits) = pick_asset-suits host.platform assets asset picked in
            (
              cc (same),
              cc (same),
              asset,
              member,
              download_asset-Vetted host asset path fits (cc (same, saved)),
            )
      ]
    ]

listed-IsBest :
    (host : Host) (answer : Option (List GithubRelease)) (release : GithubRelease)
    → releases_from host answer ≡ some release
    → (releases : List GithubRelease) × (answer ≡ some releases) × IsBest release releases
listed-IsBest host none release h = cc
listed-IsBest host (some releases) release h = elim (pick_latest_release_lem releases) [
  | inl (unpicked, others) ↦ absurd (ground (arith, unpicked, h))
  | inr (best, picked, good) ↦
      let same : some best ≡ some release = rw (sym h, picked) refl in
      let same' : best ≡ release = cc (same) in
      (releases, refl, subst (λ b. IsBest b releases) same' good)
]

-- A release that was fetched is the best of what the proxy or GitHub listed.
fetch-IsBest :
    (host : Host) (release : GithubRelease)
    → fetch_latest_release host ≡ some release
    → (releases : List GithubRelease) × ((host.proxy ≡ some releases)
        ⊎ (host.github ≡ some releases))
      × IsBest release releases
unfolding fetch_latest_release
fetch-IsBest host release h = elim (Option-cases (releases_from host host.proxy)) [
  | inr (r, here) ↦
      let (releases, listed, best) =
        listed-IsBest host host.proxy release (ground (arith, here, h)) in
      (releases, inl listed, best)
  | inl gone ↦
      let (releases, listed, best) =
        listed-IsBest host host.github release (ground (arith, gone, h)) in
      (releases, inr listed, best)
]

newer_installed :
    (host : Host) (release : GithubRelease) (current latest path : Text)
    → fetch_latest_release host ≡ some release
    → check_once host ≡ update_ready current latest path
    → (is_newer release.tag_name host.current ≡ true)
      × (installs host release.tag_name release.assets ≡ update_ready current latest path)
unfolding check_once
newer_installed host release current latest path fetched h =
    elim (Bool-cases (release.draft || not (is_some (parse_version release.tag_name)))) [
      | inl unfit ↦ absurd (ground (arith, fetched, unfit, h))
      | inr fit ↦ elim (Bool-cases (is_newer release.tag_name host.current)) [
        | inr old ↦ absurd (ground (arith, fetched, fit, old, h))
        | inl newer ↦ (newer, rw (sym h, check_once, fetched, fit, newer) refl)
      ]
    ]

-- The tests that a ready update has passed.
abbrev pub IsTested : Host → Text → Text → Text → Type 0
IsTested host current latest path =
    (current ≡ host.current)
    × (is_newer latest host.current ≡ true)
    × (release : GithubRelease) × (release.tag_name ≡ latest)
    × (releases : List GithubRelease) × ((host.proxy ≡ some releases)
        ⊎ (host.github ≡ some releases))
    × IsBest release releases
    × (asset : GithubAsset) × Memᴰ asset release.assets
    × Vetted host asset path

pub check_once-IsTested :
    (host : Host) (current latest path : Text)
    → check_once host ≡ update_ready current latest path
    → IsTested host current latest path
unfolding check_once
check_once-IsTested host current latest path h = elim (Option-cases (fetch_latest_release host)) [
  | inl gone ↦ absurd (ground (arith, gone, h))
  | inr (release, fetched) ↦
      let (newer, installed) = newer_installed host release current latest path fetched h in
      let (same, tagged, asset, member, vetted) =
        installs-Vetted host release.tag_name current latest path release.assets installed in
      let (releases, listed, best) = fetch-IsBest host release fetched in
      (same, rw (tagged) newer, release, sym tagged, releases, listed, best, asset, member, vetted)
]
