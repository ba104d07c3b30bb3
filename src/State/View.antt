-- ===== src/State/View.antt =====
-- The table of peers as a finite map from ids to peers, by what `state_get_peer` returns, and what
-- the operations do to that map.
use mathlib.Core.Option
use orcashi.Prelude.{
  ℕ, ◌<◌, ◌≡◌, refl, sym, ap, subst, ◌∙◌, ◌⊎◌, true, false, Option, none, some, List, [], ◌∷◌,
  arith, get_or-take, Code, ok, err, Bool-cases, Option-cases, inl, inr, if◌then◌else◌, All,
}
use orcashi.CString.Text.{Bytes, is_empty}
use orcashi.State.Types.{Peer, zero_peer, Store}
use orcashi.State.Ids.{
  normalize_id, is_same_id, is_same_id_iff, is_same_id-normalize, is_same_id_congr,
  normalize_id_of_normal,
}
use orcashi.State.Peers.{find_peer, peer_at, put_peer, state_get_peer}
use orcashi.State.Fields.{with_peer}
use orcashi.State.Table.{lookup, IsFresh, lookup_fresh, lookup-set, lookup-normalize_id}
use orcashi.State.Live.{live, live-put_peer}
use orcashi.State.Valid.{IsValid, IsPeerId, length-live, found_at, IsFresh-at, put_peer-IsValid}

-- The peer that `state_get_peer(id)` points to.
abbrev pub view : Store → Bytes → Option Peer
view s id = Option.map (peer_at s) (state_get_peer s id)

is_empty→≡ : (s : Bytes) → is_empty s ≡ true → s ≡ []
is_empty→≡ [] h = refl
is_empty→≡ (c ∷ s) h = cc

empty-IsFresh :
    (ps : List Peer) (id : Bytes)
    → is_empty (normalize_id id) ≡ true
    → All (λ p. IsPeerId p.id) ps
    → IsFresh id ps
empty-IsFresh [] id e h = tt
empty-IsFresh (p ∷ ps) id e ((normal, nonempty), h) = (
  elim (Bool-cases (is_same_id p.id id)) [
    | inr f ↦ f
    | inl t ↦ absurd (
        nonempty (
          sym (normalize_id_of_normal p.id normal)
          ∙ (is_same_id_iff p.id id).0 t
          ∙ is_empty→≡ (normalize_id id) e))
  ],
  empty-IsFresh ps id e h,
)

-- The map is the first match among the peers in use.
pub view-lookup : {s : Store} (id : Bytes) → IsValid s → view s id ≡ lookup (live s) id
unfolding state_get_peer
view-lookup {s} id v = elim (Bool-cases (is_empty (normalize_id id))) [
  | inl e ↦ rw e (sym (lookup_fresh (live s) id (empty-IsFresh (live s) id e v.normal)))
  | inr e ↦ elim (Option-cases (find_peer s.peer_count s.peers (normalize_id id))) [
    | inl f ↦
        rw (e, f)
          (sym (lookup_fresh (live s) (normalize_id id) (IsFresh-at s (normalize_id id) f))
            ∙ lookup-normalize_id (live s) id)
    | inr (i, f) ↦
        rw (e, f) (sym (found_at (normalize_id id) i v f).2 ∙ lookup-normalize_id (live s) id)
  ]
]

-- A successful write through a pointer changes the map at the pointer's id only.
view-put_peer :
    {s : Store} (i : ℕ) (p : Peer) (id : Bytes)
    → IsValid s
    → IsValid (put_peer s i p)
    → i < s.peer_count
    → p.id ≡ (peer_at s i).id
    → view (put_peer s i p) id ≡ (if is_same_id p.id id then some p else view s id)
view-put_peer {s} i p id v v' h e =
    view-lookup id v'
    ∙ ap (λ ps. lookup ps id) (live-put_peer s i p)
    ∙ lookup-set (live s) i p id v.unique (omega (arith, length-live v))
        (e ∙ ap (λ q. q.id) (sym (get_or-take s.peers s.peer_count i zero_peer h)))
    ∙ ap (λ o. if is_same_id p.id id then some p else o) (sym (view-lookup id v))

-- What a successful search says of the id that was asked for.
same_at :
    {s : Store} (id : Bytes) (i : ℕ)
    → IsValid s
    → find_peer s.peer_count s.peers (normalize_id id) ≡ some i
    → (i < s.peer_count)
      × (is_same_id (peer_at s i).id id ≡ true)
      × (view s id ≡ some (peer_at s i))
same_at {s} id i v f =
    let (lt, same, at) = found_at (normalize_id id) i v f in
    (
      lt,
      sym (is_same_id-normalize (peer_at s i).id id) ∙ same,
      view-lookup id v ∙ sym (lookup-normalize_id (live s) id) ∙ at,
    )

-- Whether the peer is known, as the operations decide it.
pub data Sought (s : Store) (id : Bytes) : Type 0 where
  empty : is_empty (normalize_id id) ≡ true → view s id ≡ none → Sought s id
  absent :
      is_empty (normalize_id id) ≡ false
      → find_peer s.peer_count s.peers (normalize_id id) ≡ none
      → view s id ≡ none
      → Sought s id
  present :
      (i : ℕ)
      → is_empty (normalize_id id) ≡ false
      → find_peer s.peer_count s.peers (normalize_id id) ≡ some i
      → i < s.peer_count
      → is_same_id (peer_at s i).id id ≡ true
      → view s id ≡ some (peer_at s i)
      → Sought s id

pub sought : {s : Store} (id : Bytes) → IsValid s → Sought s id
unfolding state_get_peer
sought {s} id v = elim (Bool-cases (is_empty (normalize_id id))) [
  | inl e ↦ empty e (rw e refl)
  | inr e ↦ elim (Option-cases (find_peer s.peer_count s.peers (normalize_id id))) [
    | inl f ↦ absent e f (rw (e, f) refl)
    | inr (i, f) ↦ let (lt, same, at) = same_at id i v f in present i e f lt same at
  ]
]

-- What an operation that finds the peer `id` and rewrites it comes to, seen from the id `other`:
-- it fails and changes nothing where there is no such peer, and else it rewrites that peer and
-- leaves every other as it was.
abbrev pub Rewrites : Bytes → (Peer → Peer) → Bytes → Store → Code × Store → Type 0
Rewrites id write other s (code, s') =
    ((code ≡ err) × (view s id ≡ none) × (s' ≡ s))
    ⊎ ((p : Peer) × (view s id ≡ some p)
        × (code ≡ ok)
        × (view s' other ≡ (if is_same_id id other then some (write p) else view s other)))

with_peer_failed :
    (id : Bytes) (write : Peer → Peer) (s : Store)
    → state_get_peer s id ≡ none
    → with_peer id write s ≡ (err, s)
unfolding with_peer
with_peer_failed id write s e = rw (e, with_peer)

with_peer_done :
    (id : Bytes) (write : Peer → Peer) (s : Store) (i : ℕ)
    → state_get_peer s id ≡ some i
    → with_peer id write s ≡ (ok, put_peer s i (write (peer_at s i)))
unfolding with_peer
with_peer_done id write s i e = rw (e, with_peer)

pub with_peer-Rewrites :
    {s : Store} (id : Bytes) (write : Peer → Peer) (other : Bytes)
    → ((p : Peer) → (write p).id ≡ p.id)
    → IsValid s
    → Rewrites id write other s (with_peer id write s)
unfolding state_get_peer
with_peer-Rewrites {s} id write other keeps v = elim (sought id v) [
  | empty e at ↦
      subst (Rewrites id write other s) (sym (with_peer_failed id write s (rw e refl)))
        (inl (refl, at, refl))
  | absent e f at ↦
      subst (Rewrites id write other s) (sym (with_peer_failed id write s (rw (e, f) refl)))
        (inl (refl, at, refl))
  | present i e f lt same at ↦
      subst (Rewrites id write other s) (sym (with_peer_done id write s i (rw (e, f) refl))) (
        inr (
          peer_at s i,
          at,
          refl,
          view-put_peer i (write (peer_at s i)) other v
                (put_peer-IsValid i (write (peer_at s i)) v lt (keeps (peer_at s i))) lt
                (keeps (peer_at s i))
              ∙ ap (λ b. if b then some (write (peer_at s i)) else view s other)
                  (ap (λ a. is_same_id a other) (keeps (peer_at s i))
                    ∙ is_same_id_congr (peer_at s i).id id other same),
        ))
]
