-- ===== src/Agent/Updater.antt =====
-- agents/roomler-agent/src/updater.rs: which release an agent installs. The network, SHA-256 and the
-- file system are what `Host` answers during one cycle.
use roomler.Prelude.{
  ℕ, zero, suc, ◌+◌, ◌-◌, ◌*◌, Bool, true, false, not, ◌&&◌, ◌||◌, Option, none, some, List, [],
  ◌∷◌, ◌++◌, Text, text, retain, ltb, leb, ◌==◌, if◌then◌else◌, strip_prefix, trim_start, is_some,
  length, same_text, trim_end,
}
use roomler.Agent.Codecs.{eq_ignore_case, lower}
pub mod Versions
pub mod Choice
pub mod Ready
pub mod Interval
mod Tests

pub record GithubAsset : Type 0 where
  pub name : Text
  pub browser_download_url : Text
  pub digest : Option Text

pub record GithubRelease : Type 0 where
  pub tag_name : Text
  pub assets : List GithubAsset
  pub draft : Bool

pub data CheckOutcome : Type 0 where
  up_to_date : (current latest : Text) → CheckOutcome
  update_ready : (current latest installer_path : Text) → CheckOutcome
  skipped : CheckOutcome

abbrev pub check_interval : ℕ
check_interval = 24 * 3600

abbrev pub min_installer_bytes : ℕ
min_installer_bytes = 1000000

abbrev pub Version : Type 0
Version = ℕ × ℕ × ℕ

abbrev pub is_digit : ℕ → Bool
is_digit c = leb b'0' c && leb c b'9'

-- The digits of an unsigned integer that is at most `max`.
abbrev pub digits : ℕ → ℕ → Text → Option ℕ
digits max n [] = some n
digits max n (c ∷ s) =
    let m = 10 * n + (c - b'0') in
    let rest = digits max m s in if is_digit c && leb m max then rest else none

-- `str::parse` for an unsigned integer type, which takes a leading plus sign.
abbrev pub parse_uint : ℕ → Text → Option ℕ
parse_uint max [] = none
parse_uint max (c ∷ []) = digits max 0 (c ∷ [])
parse_uint max (c ∷ d ∷ s) = if c == b'+' then digits max 0 (d ∷ s) else digits max 0 (c ∷ d ∷ s)

abbrev pub u64_max : ℕ
u64_max = 18446744073709551615

abbrev pub u32_max : ℕ
u32_max = 4294967295

abbrev pub cons_part : ℕ → List Text → List Text
cons_part c [] = (c ∷ []) ∷ []
cons_part c (part ∷ parts) = (c ∷ part) ∷ parts

-- `split`.
unfoldable pub split : ℕ → Text → List Text
split d [] = [] ∷ []
split d (c ∷ s) = let parts = split d s in if c == d then [] ∷ parts else cons_part c parts

-- `trim_start_matches("agent-")`: as often as it stands there, which is at most the text's length.
abbrev pub trim_prefix : ℕ → Text → Text → Text
trim_prefix zero p s = s
trim_prefix (suc n) p s = elim (strip_prefix p s) [ none ↦ s | some rest ↦ trim_prefix n p rest ]

abbrev pub leading_digits : Text → Text
leading_digits [] = []
leading_digits (c ∷ s) = let rest = leading_digits s in if is_digit c then c ∷ rest else []

abbrev pub version_of : List Text → Option Version
version_of (major ∷ minor ∷ patch ∷ rest) = elim (parse_uint u64_max major) [
  | none ↦ none
  | some a ↦ elim (parse_uint u64_max minor) [
    | none ↦ none
    | some b ↦ elim (parse_uint u64_max (leading_digits patch)) [
      | none ↦ none
      | some c ↦ some (a, b, c)
    ]
  ]
]
version_of _ = none

abbrev pub is_v : ℕ → Bool
is_v c = c == b'v'

unfoldable pub parse_version : Text → Option Version
parse_version tag =
    version_of (split b'.' (trim_start is_v (trim_prefix (length tag) (text "agent-") tag)))

-- The order of tuples.
unfoldable pub outranks : Version → Version → Bool
outranks (a, b, c) (a', b', c') = ltb a' a || (a == a' && (ltb b' b || (b == b' && ltb c' c)))

unfoldable pub is_newer : Text → Text → Bool
is_newer latest current = elim (parse_version latest) [
  | none ↦ false
  | some l ↦ elim (parse_version current) [ none ↦ false | some c ↦ outranks l c ]
]

pub data Platform : Type 0 where
  windows linux macos other : Platform

abbrev pub ends_with : Text → Text → Bool
ends_with p [] = same_text p []
ends_with p (c ∷ s) = same_text p (c ∷ s) || ends_with p s

-- `to_lowercase`, of an ASCII name.
abbrev pub to_lowercase : Text → Text
to_lowercase [] = []
to_lowercase (c ∷ s) = lower c ∷ to_lowercase s

abbrev pub suits : Platform → Text → Bool
suits windows name = ends_with (text ".msi") name
suits linux name = ends_with (text "_amd64.deb") name || ends_with (text ".deb") name
suits macos name = ends_with (text ".pkg") name
suits other name = false

unfoldable pub pick_asset_for_platform : Platform → List GithubAsset → Option GithubAsset
pick_asset_for_platform platform [] = none
pick_asset_for_platform platform (a ∷ rest) =
    if suits platform (to_lowercase a.name) then some a else pick_asset_for_platform platform rest

-- What `retain` keeps.
abbrev pub is_candidate : GithubRelease → Bool
is_candidate r =
    not r.draft
    && (is_some (strip_prefix (text "agent-v") r.tag_name) && is_some (parse_version r.tag_name))

-- `Option` orders none below every version.
abbrev pub ranks_above : Option Version → Option Version → Bool
ranks_above none v = false
ranks_above (some a) none = true
ranks_above (some a) (some b) = outranks a b

-- A stable sort, the highest version first.
abbrev pub insert_release : GithubRelease → List GithubRelease → List GithubRelease
insert_release r [] = r ∷ []
insert_release r (q ∷ rest) =
    let below = q ∷ insert_release r rest in
    if ranks_above (parse_version q.tag_name) (parse_version r.tag_name)
    then below
    else r ∷ q ∷ rest

abbrev pub sort_releases : List GithubRelease → List GithubRelease
sort_releases [] = []
sort_releases (r ∷ rest) = insert_release r (sort_releases rest)

abbrev pub head : List GithubRelease → Option GithubRelease
head [] = none
head (r ∷ rest) = some r

unfoldable pub pick_latest_release : List GithubRelease → Option GithubRelease
pick_latest_release releases = head (sort_releases (retain is_candidate releases))

-- A downloaded body: its length and its SHA-256 in hexadecimal.
pub record Payload : Type 0 where
  pub len : ℕ
  pub sha256 : Text

-- Each answer is none where the request or its decoding fails.
pub record Host : Type 0 where
  pub platform : Platform
  pub current : Text
  pub proxy : Option (List GithubRelease)
  pub github : Option (List GithubRelease)
  pub by_tag : Text → Option GithubRelease
  pub download : Text → Option Payload
  pub writes : Text → Option Text

unfoldable pub verify_sha256 : Payload → Text → Bool
verify_sha256 payload digest = elim (strip_prefix (text "sha256:") digest) [
  | none ↦ false
  | some expected ↦ length expected == 64 && eq_ignore_case payload.sha256 expected
]

abbrev pub passes_digest : Payload → Option Text → Bool
passes_digest payload none = true
passes_digest payload (some digest) = verify_sha256 payload digest

module _ (host : Host) where
  -- The path of the installer on disk.
  unfoldable pub download_asset : GithubAsset → Option Text
  download_asset asset = elim (host.download asset.browser_download_url) [
    | none ↦ none
    | some payload ↦
        if leb min_installer_bytes payload.len && passes_digest payload asset.digest
        then host.writes asset.name
        else none
  ]

  abbrev pub releases_from : Option (List GithubRelease) → Option GithubRelease
  releases_from none = none
  releases_from (some releases) = pick_latest_release releases

  -- GitHub itself, when the proxy gives no release.
  unfoldable pub fetch_latest_release : Option GithubRelease
  fetch_latest_release = elim (releases_from host.proxy) [
    | some release ↦ some release
    | none ↦ releases_from host.github
  ]

  abbrev pub installs : Text → List GithubAsset → CheckOutcome
  installs latest assets = elim (pick_asset_for_platform host.platform assets) [
    | none ↦ skipped
    | some asset ↦ elim (download_asset asset) [
      | none ↦ skipped
      | some path ↦ update_ready host.current latest path
    ]
  ]

  unfoldable pub pin_version : Text → CheckOutcome
  pin_version tag = elim (host.by_tag tag) [
    | none ↦ skipped
    | some release ↦ installs release.tag_name release.assets
  ]

  unfoldable pub check_once : CheckOutcome
  check_once = elim fetch_latest_release [
    | none ↦ skipped
    | some release ↦
        if release.draft || not (is_some (parse_version release.tag_name))
        then skipped
        else if is_newer release.tag_name host.current
        then installs release.tag_name release.assets
        else up_to_date host.current release.tag_name
  ]

abbrev pub is_whitespace : ℕ → Bool
is_whitespace c = c == b' ' || (leb 9 c && leb c 13)

abbrev pub hours : Option ℕ → Option ℕ
hours none = none
hours (some h) = if ltb 0 h then some (h * 3600) else none

abbrev pub or_hours : Option ℕ → ℕ → ℕ
or_hours none fallback = fallback
or_hours (some secs) fallback = secs

abbrev pub env_hours : Option Text → Option ℕ
env_hours none = none
env_hours (some s) =
    hours (parse_uint u32_max (trim_start is_whitespace (trim_end is_whitespace s)))

-- In seconds.
unfoldable pub resolve_check_interval_with : Option Text → Option ℕ → ℕ
resolve_check_interval_with env_value cfg_value =
    or_hours (env_hours env_value) (or_hours (hours cfg_value) check_interval)
