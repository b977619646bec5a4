-- ===== src/Sockets/Senders.antt =====
-- Whom a user's messages reach.
use roomler.Prelude.{
  ℕ, ◌≡◌, refl, true, false, none, some, List, [], ◌∷◌, ◌++◌, Map, lookup, insert, contains, retain,
  arith, Option-cases, inl, inr, lookup-insert, lookup-remove, ==-refl, contains-keys,
  if◌then◌else◌, ◌==◌,
}
use roomler.Sockets.{
  WsStorage, new, or_default, add, remove_sender, store, is_not, get_senders,
  get_sender_by_connection, is_connected, is_nonempty, all_user_ids,
}

-- A socket opens or closes.
pub data Event : Type 0 where
  opened closed : (user_id connection_id sender : ℕ) → Event

unfoldable pub run : List Event → WsStorage → WsStorage
run [] s = s
run (opened u c t ∷ rest) s = run rest (add u c t s)
run (closed u c t ∷ rest) s = run rest (remove_sender u c t s)

-- No user is kept without a sender.
abbrev IsLive : WsStorage → Type 0
IsLive s = (u : ℕ) (l : List ℕ) → lookup u s.connections ≡ some l → is_nonempty l ≡ true

pub lookup-store :
    (u v : ℕ) (l : List ℕ) (m : Map (List ℕ))
    → lookup v (store u l m)
      ≡ (if u == v then (if is_nonempty l then some l else none) else lookup v m)
lookup-store u v [] m = ground (arith, lookup-remove u v m)
lookup-store u v (t ∷ l) m = ground (arith, lookup-insert u v (t ∷ l) m)

is_nonempty-append : (l : List ℕ) (t : ℕ) → is_nonempty (l ++ t ∷ []) ≡ true
is_nonempty-append [] t = refl
is_nonempty-append (x ∷ l) t = refl

add-IsLive : (u c t : ℕ) (s : WsStorage) → IsLive s → IsLive (add u c t s)
unfolding add
add-IsLive u c t s v w l e = ground (
  arith,
  e,
  v w l,
  lookup-insert u w (or_default (lookup u s.connections) ++ t ∷ []) s.connections,
  is_nonempty-append (or_default (lookup u s.connections)) t,
)

remove_sender-IsLive : (u c t : ℕ) (s : WsStorage) → IsLive s → IsLive (remove_sender u c t s)
unfolding remove_sender
remove_sender-IsLive u c t s v w l e = elim (Option-cases (lookup u s.connections)) [
  | inl gone ↦ ground (arith, gone, e, v w l)
  | inr (senders, here) ↦
      ground (arith, here, e, v w l, lookup-store u w (retain (is_not t) senders) s.connections)
]

run-IsLive : (events : List Event) (s : WsStorage) → IsLive s → IsLive (run events s)
unfolding run
run-IsLive [] s v = v
run-IsLive (opened u c t ∷ rest) s v = run-IsLive rest (add u c t s) (add-IsLive u c t s v)
run-IsLive (closed u c t ∷ rest) s v =
    run-IsLive rest (remove_sender u c t s) (remove_sender-IsLive u c t s v)

-- However sockets open and close, the users that are listed are exactly the connected ones.
run-all_user_ids :
    (events : List Event) (u : ℕ)
    → contains u (all_user_ids (run events new)) ≡ is_connected u (run events new)
unfolding all_user_ids is_connected lookup
run-all_user_ids events u =
    let v = run-IsLive events new (λ w l e. cc) in
    elim (Option-cases (lookup u (run events new).connections)) [
      | inl gone ↦ ground (arith, gone, contains-keys u (run events new).connections)
      | inr (l, here) ↦
          ground (arith, here, v u l here, contains-keys u (run events new).connections)
    ]

retain-append : (t : ℕ) (l : List ℕ) → contains t l ≡ false → retain (is_not t) (l ++ t ∷ []) ≡ l
retain-append t [] h = ground (arith, ==-refl t)
retain-append t (x ∷ l) h = ground (arith, h, retain-append t l)

-- A socket that opens under a new sender and a new connection and then closes leaves every user's
-- senders and every connection's sender as they were.
remove_sender-add :
    (u c t : ℕ) (s : WsStorage)
    → contains t (get_senders u s) ≡ false
    → lookup c s.connection_map ≡ none
    → let s' = remove_sender u c t (add u c t s) in
      ((v : ℕ) → get_senders v s' ≡ get_senders v s)
      × ((d : ℕ) → get_sender_by_connection d s' ≡ get_sender_by_connection d s)
unfolding remove_sender add get_senders get_sender_by_connection
remove_sender-add u c t s fresh unknown =
    let senders = or_default (lookup u s.connections) in
    let added = insert u (senders ++ t ∷ []) s.connections in
    let there : lookup u added ≡ some (senders ++ t ∷ []) =
      rw (lookup-insert u u (senders ++ t ∷ []) s.connections, ==-refl u) refl in
    (
      λ v.
          rw (there, retain-append t senders fresh)
            (ground (
              arith,
              lookup-store u v senders added,
              lookup-insert u v (senders ++ t ∷ []) s.connections,
            )),
      λ d. ground (
        arith,
        unknown,
        lookup-remove c d (insert c (u, t) s.connection_map),
        lookup-insert c d (u, t) s.connection_map,
      ),
    )
