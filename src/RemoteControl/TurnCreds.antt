-- ===== src/RemoteControl/TurnCreds.antt =====
-- crates/remote_control/src/turn_creds.rs: the ICE servers handed to both peers, with short-lived
-- TURN credentials. HMAC-SHA1 and base64 are one argument, `sign secret username`.
use roomler.Prelude.{ℕ, ◌+◌, Option, none, some, List, [], ◌∷◌, ◌++◌, Text, text, decimal}
use roomler.RemoteControl.Signaling.{IceServer}
pub mod Username

pub record TurnConfig : Type 0 where
  pub urls : List Text
  pub shared_secret : Text
  pub ttl_secs : ℕ

unfoldable pub username_for : ℕ → Text → Text
username_for expiry user_id = decimal expiry ++ b':' ∷ user_id

unfoldable pub issue : (Text → Text → Text) → ℕ → TurnConfig → Text → IceServer
unfolding username_for
issue sign now_secs turn user_id =
    let username = username_for (now_secs + turn.ttl_secs) user_id in
    record {
      urls = turn.urls;
      username = some username;
      credential = some (sign turn.shared_secret username);
    }

abbrev stun_server : IceServer
stun_server = record {
  urls = text "stun:stun.l.google.com:19302" ∷ [];
  username = none;
  credential = none;
}

abbrev pub turn_servers : (Text → Text → Text) → ℕ → Text → Option TurnConfig → List IceServer
turn_servers sign now_secs user_id none = []
turn_servers sign now_secs user_id (some turn) = issue sign now_secs turn user_id ∷ []

unfoldable pub ice_servers_for :
    (Text → Text → Text) → ℕ → Text → Option TurnConfig → List IceServer
ice_servers_for sign now_secs user_id turn = stun_server ∷ turn_servers sign now_secs user_id turn
