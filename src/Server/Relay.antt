-- ===== src/Server/Relay.antt =====
-- The TURN servers of the media path beside those of remote control.
use roomler.Prelude.{
  ◌⊎◌, inl, inr, Bool-cases, true, not, ◌&&◌, ℕ, ◌+◌, ◌≡◌, refl, false, some, List, [], ◌∷◌, ◌++◌,
  Text, text,
}
use roomler.RemoteControl.TurnCreds.{TurnConfig, username_for}
use roomler.Server.{TurnSettings}
use roomler.Server.Ice.{
  ice_servers, build_turn_config, urls_of, base_urls, is_plain, turns, starts_with, contains_text,
  replace, replace_first,
}

-- The addresses that a shared relay is reached at: over UDP, over TCP, and over TLS at port 5349.
abbrev pub Shared : Text → List Text → Type 0
Shared base urls =
    ((starts_with (text "turn:") base && not (contains_text (text "?transport=") base) ≡ true)
      × (urls
          ≡ base
            ∷ (base ++ text "?transport=tcp")
            ∷ (replace (text ":3478") (text ":5349")
                  (replace_first (text "turn:") (text "turns:") base)
                ++ text "?transport=tcp")
            ∷ []))
    ⊎ ((starts_with (text "turn:") base && not (contains_text (text "?transport=") base) ≡ false)
        × (urls ≡ base ∷ []))

urls_of-Shared : (base : Text) → Shared base (urls_of base)
urls_of-Shared base = elim (Bool-cases (is_plain base)) [
  | inl plain ↦ inl (plain, rw (plain) refl)
  | inr other ↦ inr (other, rw (other) refl)
]

-- The two lists agree on what the media path offers.
base_urls-urls_of :
    (base : Text)
    → (more : List Text) × (base_urls base ≡ urls_of base ++ more)
      × (is_plain base ≡ false → more ≡ [])
base_urls-urls_of base = elim (Bool-cases (is_plain base)) [
  | inl plain ↦ (
    (turns (text ":443") base ++ text "?transport=udp")
        ∷ (turns (text ":443") base ++ text "?transport=tcp")
        ∷ [],
    rw (plain) refl,
    λ other. cc (plain, other),
  )
  | inr other ↦ ([], rw (other) refl, λ same. refl)
]

-- With an address and a shared secret, the media path offers one server, with a credential for a
-- day that is signed with the secret of remote control's configuration. Its addresses are the
-- configured one and, if that is a turn: address that names no transport, the same over TCP and
-- over TLS at port 5349 in place of 3478; and remote control's are the same, followed by more only
-- in that case.
pub ice_servers-build_turn_config :
    (sign : Text → Text → Text) (now_secs : ℕ) (user_id base secret : Text) (turn : TurnSettings)
    → turn.url ≡ some base
    → turn.shared_secret ≡ some secret
    → (config : TurnConfig) × (urls : List Text) × (more : List Text) × (build_turn_config turn
        ≡ some config)
      × Shared base urls
      × (config.shared_secret ≡ secret)
      × (config.urls ≡ urls ++ more)
      × (is_plain base ≡ false → more ≡ [])
      × (ice_servers sign now_secs user_id turn
          ≡ record {
            urls = urls;
            username = some (username_for (now_secs + 86400) user_id);
            credential = some (sign config.shared_secret (username_for (now_secs + 86400) user_id));
          }
            ∷ [])
unfolding ice_servers build_turn_config
ice_servers-build_turn_config sign now_secs user_id base secret turn here signed =
    let (more, agree, plain) = base_urls-urls_of base in
    (
      record { urls = base_urls base; shared_secret = secret; ttl_secs = 600 },
      urls_of base,
      more,
      rw (signed, here) refl,
      urls_of-Shared base,
      refl,
      agree,
      plain,
      rw (here, signed) refl,
    )
