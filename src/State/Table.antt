-- ===== src/State/Table.antt =====
-- A list of peers as a table from ids to peers: what writing, appending and erasing do to it.
use mathlib.Core.Option
use orcashi.Prelude.{
  ℕ, zero, suc, ◌<◌, ◌≡◌, refl, sym, ap, subst, ◌∙◌, true, false, Option, none, some, List, [], ◌∷◌,
  ◌++◌, arith, if◌then◌else◌, Bool-cases, inl, inr, length, get_or, set, take, erase_idx, All,
  All-get_or, All-append, All-set, All-erase_idx,
}
use orcashi.CString.Text.{Bytes}
use orcashi.State.Types.{Peer, zero_peer}
use orcashi.State.Ids.{
  normalize_id, is_same_id-normalize, is_same_id, is_same_id_congr, is_same_id_sym,
}
use orcashi.State.Peers.{find_peer}

-- The first peer with an id.
unfoldable pub lookup : List Peer → Bytes → Option Peer
lookup [] id = none
lookup (p ∷ ps) id = if is_same_id p.id id then some p else lookup ps id

-- No peer of the list has the id.
abbrev pub IsFresh : Bytes → List Peer → Type 0
IsFresh id = All (λ p. is_same_id p.id id ≡ false)

-- No two peers of the list have the same id.
abbrev pub IsUnique : List Peer → Type 0
IsUnique [] = Unit {0}
IsUnique (p ∷ ps) = IsFresh p.id ps × IsUnique ps

-- What the scan of an array's first `n` slots finds.
abbrev pub Found : List Peer → Bytes → Option ℕ → Type 0
Found ps id none = IsFresh id ps
Found ps id (some i) =
    (i < length ps)
    × (is_same_id (get_or ps i zero_peer).id id ≡ true)
    × (lookup ps id ≡ some (get_or ps i zero_peer))

Found-next :
    (p : Peer) (ps : List Peer) (id : Bytes) (r : Option ℕ)
    → is_same_id p.id id ≡ false
    → Found ps id r
    → Found (p ∷ ps) id (Option.map suc r)
unfolding lookup
Found-next p ps id none e f = (e, f)
Found-next p ps id (some i) e (lt, same, at) = (omega arith, same, rw e at)

pub find_peer-Found :
    (n : ℕ) (ps : List Peer) (id : Bytes) → Found (take n ps) id (find_peer n ps id)
unfolding find_peer lookup
find_peer-Found zero ps id = tt
find_peer-Found (suc n) [] id = tt
find_peer-Found (suc n) (p ∷ ps) id = elim (Bool-cases (is_same_id p.id id)) [
  | inl e ↦ rw e (omega arith, e, rw e)
  | inr e ↦ rw e (Found-next p (take n ps) id (find_peer n ps id) e (find_peer-Found n ps id))
]

pub lookup_fresh : (ps : List Peer) (id : Bytes) → IsFresh id ps → lookup ps id ≡ none
unfolding lookup
lookup_fresh [] id h = refl
lookup_fresh (p ∷ ps) id (e, h) = rw e (lookup_fresh ps id h)

IsFresh-congr : (ps : List Peer) (a b : Bytes) → is_same_id a b ≡ true → IsFresh a ps → IsFresh b ps
IsFresh-congr [] a b h f = tt
IsFresh-congr (p ∷ ps) a b h (e, f) = (
  is_same_id_sym p.id b ∙ sym (is_same_id_congr a b p.id h) ∙ is_same_id_sym a p.id ∙ e,
  IsFresh-congr ps a b h f,
)

-- Appending a peer with a new id.
pub lookup-append :
    (ps : List Peer) (p : Peer) (id : Bytes)
    → IsFresh p.id ps
    → lookup (ps ++ (p ∷ [])) id ≡ (if is_same_id p.id id then some p else lookup ps id)
unfolding lookup
lookup-append [] p id h = refl
lookup-append (x ∷ ps) p id (e, h) = ground (
  arith,
  lookup-append ps p id h,
  is_same_id_congr p.id id x.id,
  is_same_id_sym id x.id,
  is_same_id_sym p.id x.id,
)

-- Two peers of a list with no repetition: the one at the head is not the one behind it.
head_differs :
    (x : Peer) (ps : List Peer) (i : ℕ) (id : Bytes)
    → IsFresh x.id ps
    → i < length ps
    → id ≡ (get_or ps i zero_peer).id
    → is_same_id id x.id ≡ false
head_differs x ps i id f h e =
    ap (λ a. is_same_id a x.id) e
    ∙ All-get_or (λ p. is_same_id p.id x.id ≡ false) ps i zero_peer f h

-- Writing over the peer with an id, which it keeps.
pub lookup-set :
    (ps : List Peer) (i : ℕ) (p : Peer) (id : Bytes)
    → IsUnique ps
    → i < length ps
    → p.id ≡ (get_or ps i zero_peer).id
    → lookup (set ps i p) id ≡ (if is_same_id p.id id then some p else lookup ps id)
unfolding lookup
lookup-set [] i p id u h e = absurd (omega arith)
lookup-set (x ∷ ps) zero p id u h e = ground arith
lookup-set (x ∷ ps) (suc i) p id (f, u) h e = ground (
  arith,
  lookup-set ps i p id u (omega arith) e,
  head_differs x ps i p.id f (omega arith) e,
  is_same_id_congr p.id id x.id,
  is_same_id_sym id x.id,
)

-- Erasing the peer with an id.
pub lookup-erase_idx :
    (ps : List Peer) (i : ℕ) (id : Bytes)
    → IsUnique ps
    → i < length ps
    → lookup (erase_idx ps i) id
      ≡ (if is_same_id (get_or ps i zero_peer).id id then none else lookup ps id)
unfolding lookup
lookup-erase_idx [] i id u h = absurd (omega arith)
lookup-erase_idx (x ∷ ps) zero id (f, u) h = elim (Bool-cases (is_same_id x.id id)) [
  | inl e ↦ rw e (lookup_fresh ps id (IsFresh-congr ps x.id id e f))
  | inr e ↦ rw e
]
lookup-erase_idx (x ∷ ps) (suc i) id (f, u) h = ground (
  arith,
  lookup-erase_idx ps i id u (omega arith),
  head_differs x ps i (get_or ps i zero_peer).id f (omega arith) refl,
  is_same_id_congr (get_or ps i zero_peer).id id x.id,
  is_same_id_sym id x.id,
)

pub IsUnique-append :
    (ps : List Peer) (p : Peer) → IsUnique ps → IsFresh p.id ps → IsUnique (ps ++ (p ∷ []))
IsUnique-append [] p u h = (tt, tt)
IsUnique-append (x ∷ ps) p (f, u) (e, h) =
    (All-append _ ps (p ∷ []) f (is_same_id_sym p.id x.id ∙ e, tt), IsUnique-append ps p u h)

pub IsUnique-set :
    (ps : List Peer) (i : ℕ) (p : Peer)
    → IsUnique ps
    → i < length ps
    → p.id ≡ (get_or ps i zero_peer).id
    → IsUnique (set ps i p)
IsUnique-set [] i p u h e = absurd (omega arith)
IsUnique-set (x ∷ ps) zero p (f, u) h e = (subst (λ a. IsFresh a ps) (sym e) f, u)
IsUnique-set (x ∷ ps) (suc i) p (f, u) h e = (
  All-set _ ps i p f (head_differs x ps i p.id f (omega arith) e),
  IsUnique-set ps i p u (omega arith) e,
)

pub IsUnique-erase_idx : (ps : List Peer) (i : ℕ) → IsUnique ps → IsUnique (erase_idx ps i)
IsUnique-erase_idx [] i u = tt
IsUnique-erase_idx (x ∷ ps) zero (f, u) = u
IsUnique-erase_idx (x ∷ ps) (suc i) (f, u) = (All-erase_idx _ ps i f, IsUnique-erase_idx ps i u)

pub lookup-normalize_id : (ps : List Peer) (id : Bytes) → lookup ps (normalize_id id) ≡ lookup ps id
unfolding lookup
lookup-normalize_id [] id = refl
lookup-normalize_id (p ∷ ps) id = rw (is_same_id-normalize p.id id, lookup-normalize_id ps id)
