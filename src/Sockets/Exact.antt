-- ===== src/Sockets/Exact.antt =====
-- The registry's two maps, of users' senders and of connections, agree.
use roomler.Prelude.{
  sym, ap, lookup-remove, ◌≢◌, ◌&&◌, ◌&&◌, ℕ, ◌≡◌, refl, ◌∙◌, true, false, none, some, List, [],
  ◌∷◌, ◌++◌, Map, lookup, contains, retain, arith, Option-cases, Bool-cases, inl, inr,
  lookup-insert, if◌then◌else◌, ◌==◌, ◌||◌,
}
use roomler.Sockets.{new, WsStorage, or_default, add, remove_sender, store, is_not, get_senders}
use roomler.Sockets.Senders.{lookup-store}

-- Each connection's sender is one of its user's, each of a user's is that of a connection, and no
-- sender is of two connections.
pub record IsExact (s : WsStorage) : Type 0 where
  pub complete :
      (c u x : ℕ) → lookup c s.connection_map ≡ some (u, x) → contains x (get_senders u s) ≡ true
  pub sound :
      (u x : ℕ)
      → contains x (get_senders u s) ≡ true
      → (c : ℕ) × (lookup c s.connection_map ≡ some (u, x))
  pub unique :
      (c d u v x : ℕ)
      → lookup c s.connection_map ≡ some (u, x)
      → lookup d s.connection_map ≡ some (v, x)
      → c ≡ d

contains-append : (x y : ℕ) (l : List ℕ) → contains x (l ++ y ∷ []) ≡ (contains x l || y == x)
contains-append x y [] = ground arith
contains-append x y (z ∷ l) = ground (arith, contains-append x y l)

contains-retain :
    (x y : ℕ) (l : List ℕ)
    → contains x (retain (is_not y) l) ≡ (if y == x then false else contains x l)
contains-retain x y [] = ground arith
contains-retain x y (z ∷ l) = ground (arith, contains-retain x y l)

get_senders-add :
    (u c x v y : ℕ) (s : WsStorage)
    → contains y (get_senders v (add u c x s))
      ≡ (if u == v then contains y (get_senders v s) || x == y else contains y (get_senders v s))
unfolding add get_senders
get_senders-add u c x v y s = elim (Bool-cases (u == v)) [
  | inl same ↦
      let e : u ≡ v = ground (arith, same) in
      rw (lookup-insert u v (or_default (lookup u s.connections) ++ x ∷ []) s.connections, same, e)
        (contains-append y x (or_default (lookup v s.connections)))
  | inr other ↦
      rw (lookup-insert u v (or_default (lookup u s.connections) ++ x ∷ []) s.connections, other)
        refl
]

stored_senders :
    (u v y : ℕ) (l : List ℕ) (m : Map (List ℕ))
    → contains y (or_default (lookup v (store u l m)))
      ≡ (if u == v then contains y l else contains y (or_default (lookup v m)))
stored_senders u v y [] m = ground (arith, lookup-store u v [] m)
stored_senders u v y (t ∷ l) m = ground (arith, lookup-store u v (t ∷ l) m)

get_senders-remove_sender :
    (u c x v y : ℕ) (s : WsStorage)
    → contains y (get_senders v (remove_sender u c x s))
      ≡ (if u == v && x == y then false else contains y (get_senders v s))
unfolding remove_sender get_senders
get_senders-remove_sender u c x v y s = elim (Option-cases (lookup u s.connections)) [
  | inl gone ↦ elim (Bool-cases (u == v)) [
    | inl same ↦
        let e : u ≡ v = ground (arith, same) in
        let gone' : lookup v s.connections ≡ none = rw⁻¹ e gone in
        rw (gone, gone', same) (ground arith)
    | inr other ↦ rw (gone, other) refl
  ]
  | inr (l, here) ↦ elim (Bool-cases (u == v)) [
    | inl same ↦
        let e : u ≡ v = ground (arith, same) in
        let here' : lookup v s.connections ≡ some l = rw⁻¹ e here in
        let stored = stored_senders u v y (retain (is_not x) l) s.connections in
        rw (here, here', same) (stored ∙ rw (same) (contains-retain y x l))
    | inr other ↦
        let stored = stored_senders u v y (retain (is_not x) l) s.connections in
        rw (here, other) (stored ∙ rw (other) refl)
  ]
]

-- A socket opens under a new connection and a sender that no connection has.
pub add-IsExact :
    (u c x : ℕ) (s : WsStorage)
    → lookup c s.connection_map ≡ none
    → ((d v : ℕ) → lookup d s.connection_map ≢ some (v, x))
    → IsExact s
    → IsExact (add u c x s)
unfolding add
add-IsExact u c x s unknown fresh h =
    let opened = λ (d : ℕ). lookup-insert c d (u, x) s.connection_map in
    record {
      complete =
          λ d w y e. ground (arith, e, opened d, h.complete d w y, get_senders-add u c x w y s);
      sound = λ w y e. elim (Bool-cases (u == w && x == y)) [
        | inl here ↦ (c, ground (arith, here, opened c))
        | inr elsewhere ↦
            let (d, there) =
              h.sound w y (ground (arith, e, elsewhere, get_senders-add u c x w y s)) in
            (d, ground (arith, there, unknown, opened d))
      ];
      unique = λ d d' w w' y e e'.
          ground (arith, e, e', opened d, opened d', h.unique d d' w w' y, fresh d w, fresh d' w');
    }

-- A connection closes.
pub remove_sender-IsExact :
    (u c x : ℕ) (s : WsStorage)
    → lookup c s.connection_map ≡ some (u, x)
    → IsExact s
    → IsExact (remove_sender u c x s)
unfolding remove_sender
remove_sender-IsExact u c x s here h =
    let left = λ (d : ℕ). lookup-remove c d s.connection_map in
    record {
      complete = λ d w y e.
          let there : lookup d s.connection_map ≡ some (w, y) = ground (arith, e, left d) in
          let apart : (c == d) ≡ false = ground (arith, e, left d) in
          let listed = h.complete d w y there in
          get_senders-remove_sender u c x w y s ∙ (elim (Bool-cases (x == y)) [
            | inl same ↦
                let x_y : x ≡ y = ground (arith, same) in
                let there' : lookup d s.connection_map ≡ some (w, x) =
                  there ∙ ap (λ z. some (w, z)) (sym x_y) in
                absurd (ground (arith, apart, h.unique c d u w x here there'))
            | inr different ↦ rw (different) (ground (arith, listed))
          ]);
      sound = λ w y e.
          let (d, there) = h.sound w y (ground (arith, e, get_senders-remove_sender u c x w y s)) in
          (d, ground (arith, e, here, there, left d, get_senders-remove_sender u c x w y s));
      unique = λ d d' w w' y e e'. ground (arith, e, e', left d, left d', h.unique d d' w w' y);
    }

no_sender : (u x : ℕ) → contains x (get_senders u new) ≡ false
unfolding get_senders lookup
no_sender u x = refl

pub new-IsExact : IsExact new
unfolding lookup
new-IsExact = record {
  complete = λ c u x e. cc;
  sound = λ u x e. absurd (ground (arith, e, no_sender u x));
  unique = λ c d u v x e e'. cc;
}
