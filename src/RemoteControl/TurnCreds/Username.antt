-- ===== src/RemoteControl/TurnCreds/Username.antt =====
-- What a TURN server reads from the username of a credential.
use roomler.Prelude.{
  ℕ, ◌+◌, ◌≡◌, refl, some, [], ◌∷◌, ◌++◌, Text, decimal, read_decimal, read_decimal-decimal,
  decimal-IsDigit, IsDigit, All, arith, ◌==◌, if◌then◌else◌,
}
use roomler.RemoteControl.TurnCreds.{TurnConfig, username_for, issue}

-- The parts before and after the first colon.
abbrev pub split_colon : Text → Text × Text
split_colon [] = ([], [])
split_colon (c ∷ s) =
    if c == b':' then ([], s) else let (before, after) = split_colon s in (c ∷ before, after)

split_colon-append :
    (digits rest : Text) → All IsDigit digits → split_colon (digits ++ b':' ∷ rest) ≡ (digits, rest)
split_colon-append [] rest h = refl
split_colon-append (c ∷ digits) rest h = ground (arith, h.0, split_colon-append digits rest h.1)

-- Split at its first colon, the username of an issued credential gives the user and the time at
-- which the credential expires; the credential is that username signed with the secret of the
-- server.
pub issue_reads :
    (sign : Text → Text → Text) (now_secs : ℕ) (turn : TurnConfig) (user_id : Text)
    → let server = issue sign now_secs turn user_id in
      (username : Text) × (server.username ≡ some username)
      × (server.credential ≡ some (sign turn.shared_secret username))
      × (read_decimal 0 (split_colon username).0 ≡ now_secs + turn.ttl_secs)
      × ((split_colon username).1 ≡ user_id)
unfolding issue username_for
issue_reads sign now_secs turn user_id =
    let expiry = now_secs + turn.ttl_secs in
    let split = split_colon-append (decimal expiry) user_id (decimal-IsDigit expiry) in
    (
      decimal expiry ++ b':' ∷ user_id,
      refl,
      refl,
      rw (split) (read_decimal-decimal expiry),
      rw (split) refl,
    )
