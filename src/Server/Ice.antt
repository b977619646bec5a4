-- ===== src/Server/Ice.antt =====
-- crates/api/src/ws/handler.rs, `handle_media_join`, and crates/api/src/state.rs,
-- `build_turn_config`: the TURN servers of the settings. HMAC-SHA1 and base64 are `sign`.
use roomler.Prelude.{
  ℕ, zero, suc, ◌+◌, ◌-◌, Bool, not, ◌&&◌, ◌||◌, Option, none, some, List, [], ◌∷◌, ◌++◌, Text,
  text, strip_prefix, is_some, if◌then◌else◌, length,
}
use roomler.RemoteControl.Signaling.{IceServer}
use roomler.RemoteControl.TurnCreds.{TurnConfig, username_for}
use roomler.Server.{TurnSettings}

-- `str::starts_with` and `str::contains`.
abbrev pub starts_with : Text → Text → Bool
starts_with p s = is_some (strip_prefix p s)

abbrev pub contains_text : Text → Text → Bool
contains_text p [] = starts_with p []
contains_text p (c ∷ s) = starts_with p (c ∷ s) || contains_text p s

-- `str::replace` for a pattern that is not empty: `skip` characters of a match are still to pass.
abbrev pub replace_from : Text → Text → ℕ → Text → Text
replace_from p q skip [] = []
replace_from p q (suc skip) (c ∷ s) = replace_from p q skip s
replace_from p q zero (c ∷ s) =
    let matched = replace_from p q (length p - 1) s in
    let unmatched = replace_from p q 0 s in
    if starts_with p (c ∷ s) then q ++ matched else c ∷ unmatched

unfoldable pub replace : Text → Text → Text → Text
replace p q s = replace_from p q 0 s

-- `replacen("turn:", "turns:", 1)`.
abbrev pub replace_first : Text → Text → Text → Text
replace_first p q [] = []
replace_first p q (c ∷ s) = elim (strip_prefix p (c ∷ s)) [
  | some rest ↦ q ++ rest
  | none ↦ c ∷ replace_first p q s
]

abbrev pub tcp : Text
tcp = text "?transport=tcp"

-- A plain TURN address, which gets further variants.
abbrev pub is_plain : Text → Bool
is_plain url = starts_with (text "turn:") url && not (contains_text (text "?transport=") url)

abbrev pub turns : Text → Text → Text
turns port url = replace (text ":3478") port (replace_first (text "turn:") (text "turns:") url)

-- The addresses of the media path.
abbrev pub urls_of : Text → List Text
urls_of url =
    url ∷ (if is_plain url then (url ++ tcp) ∷ (turns (text ":5349") url ++ tcp) ∷ [] else [])

-- Those of remote control, which the code builds apart.
abbrev pub base_urls : Text → List Text
base_urls base =
    base
    ∷ (if starts_with (text "turn:") base && not (contains_text (text "?transport=") base)
        then (base ++ text "?transport=tcp")
          ∷ (turns (text ":5349") base ++ text "?transport=tcp")
          ∷ (turns (text ":443") base ++ text "?transport=udp")
          ∷ (turns (text ":443") base ++ text "?transport=tcp")
          ∷ []
        else [])

abbrev pub or_empty : Option Text → Text
or_empty none = []
or_empty (some t) = t

module _ (sign : Text → Text → Text) (now_secs : ℕ) (user_id : Text) (turn : TurnSettings) where
  -- The user's credentials for a day, or the fixed ones of the settings.
  abbrev pub credentials : Option Text → Text × Text
  credentials (some secret) =
      let username = username_for (now_secs + 86400) user_id in (username, sign secret username)
  credentials none = (or_empty turn.username, or_empty turn.password)

  unfoldable pub ice_servers : List IceServer
  ice_servers = elim turn.url [
    | none ↦ []
    | some url ↦
        let (username, credential) = credentials turn.shared_secret in
        record { urls = urls_of url; username = some username; credential = some credential } ∷ []
  ]

-- The hub's TURN servers: none without a shared secret or an address.
unfoldable pub build_turn_config : TurnSettings → Option TurnConfig
build_turn_config turn = elim turn.shared_secret [
  | none ↦ none
  | some secret ↦ elim turn.url [
    | none ↦ none
    | some base ↦ some (record { urls = base_urls base; shared_secret = secret; ttl_secs = 600 })
  ]
]
