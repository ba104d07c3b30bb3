-- ===== src/State/Waiting.antt =====
-- The operations on ghost messages keep the invariant of the store and the counters of its peers.
use orcashi.Prelude.{
  ℕ, ◌≤◌, ◌≡◌, refl, sym, subst, ◌∙◌, ℤ, true, false, List, arith, length, Code, Bool-cases, inl,
  inr,
}
use orcashi.CString.Text.{Bytes, is_empty}
use orcashi.State.Types.{Peer, GhostMessage, Store, max_ghost_messages}
use orcashi.State.Ids.{
  normalize_id, normalize_id_idem, is_same_id, is_same_id-normalize, is_same_id_sym, is_same_id_iff,
  is_same_id_refl,
}
use orcashi.State.Peers.{find_peer, state_get_peer}
use orcashi.State.Fields.{with_peer}
use orcashi.State.Ghosts.{adjust_ghost_count, state_get_ghost_count}
use orcashi.State.Valid.{IsValid}
use orcashi.State.View.{view, Rewrites, with_peer-Rewrites}
use orcashi.State.Counts.{count_same}
use orcashi.State.Tracked.{
  Tracks, TracksAt, IsTracked, TracksAt-more, count_of_slots, with_peer-ghosts,
}

abbrev pub recount : (ℤ → ℤ) → Peer → Peer
recount change p = record p { ghost_count = change p.ghost_count }

pub get_normal :
    (s : Store) (id : Bytes)
    → is_empty (normalize_id id) ≡ false
    → state_get_peer s (normalize_id id) ≡ find_peer s.peer_count s.peers (normalize_id id)
unfolding state_get_peer
get_normal s id e = ground (arith, normalize_id_idem id)

pub adjust-with_peer :
    (id : Bytes) (change : ℤ → ℤ) (s : Store)
    → is_empty (normalize_id id) ≡ false
    → adjust_ghost_count (normalize_id id) change s
      ≡ (with_peer (normalize_id id) (recount change) s).1
unfolding adjust_ghost_count with_peer
adjust-with_peer id change s e = ground (arith, get_normal s id e)

-- Only the slots of the messages and their number change.
abbrev pub with_ghosts : List GhostMessage → ℕ → Store → Store
with_ghosts gs n s = record s { ghosts = gs; ghost_count = n }

pub with_ghosts-IsValid :
    {s : Store} (gs : List GhostMessage) (n : ℕ)
    → IsValid s
    → length gs ≡ max_ghost_messages
    → n ≤ max_ghost_messages
    → IsValid (with_ghosts gs n s)
with_ghosts-IsValid gs n v e h = record {
  slots = v.slots;
  count_in = v.count_in;
  ghost_slots = e;
  ghosts_in = h;
  message_slots = v.message_slots;
  messages_in = v.messages_in;
  unique = v.unique;
  normal = v.normal;
}

view-with_ghosts :
    (gs : List GhostMessage) (n : ℕ) (s : Store) (id : Bytes)
    → view (with_ghosts gs n s) id ≡ view s id
unfolding state_get_peer
view-with_ghosts gs n s id = refl

pub is_same_normal : (a b : Bytes) → is_same_id (normalize_id a) b ≡ is_same_id a b
is_same_normal a b =
    is_same_id_sym (normalize_id a) b ∙ is_same_id-normalize b a ∙ is_same_id_sym b a

pub view_same : (s : Store) (a b : Bytes) → is_same_id a b ≡ true → view s a ≡ view s b
unfolding state_get_peer
view_same s a b h = rw ((is_same_id_iff a b).0 h)

-- The same, seen from one id, of what rewriting the peer came to.
recounted_at :
    (s : Store) (id : Bytes) (change : ℤ → ℤ) (gs : List GhostMessage) (n : ℕ) (other : Bytes)
    (r : Code × Store)
    → (r.1.ghosts ≡ gs) × (r.1.ghost_count ≡ n)
    → IsTracked s
    → ((k : ℤ)
        → Tracks k (state_get_ghost_count s id)
        → Tracks (change k) (state_get_ghost_count (with_ghosts gs n s) id))
    → ((other : Bytes)
        → is_same_id id other ≡ false
        → state_get_ghost_count s other ≤ state_get_ghost_count (with_ghosts gs n s) other)
    → Rewrites (normalize_id id) (recount change) other (with_ghosts gs n s) r
    → TracksAt (view r.1 other) (state_get_ghost_count r.1 other)
unfolding state_get_peer
recounted_at s id change gs n other r (ghosts, count) t tracks more (inl (e, at, same)) =
    subst (λ s'. TracksAt (view s' other) (state_get_ghost_count s' other)) (sym same)
      (elim (Bool-cases (is_same_id id other)) [
        | inr differ ↦
            TracksAt-more (view mid other) (state_get_ghost_count s other)
              (state_get_ghost_count mid other) (more other differ) (t other)
        | inl alike ↦
            subst (λ o. TracksAt o (state_get_ghost_count mid other))
              (sym at ∙ view_same mid (normalize_id id) other (is_same_normal id other ∙ alike)) tt
      ])
  where
    mid : Store
    mid = with_ghosts gs n s
recounted_at s id change gs n other r (ghosts, count) t tracks more (inr (p, at, e, now)) =
    rw (now, count_of_slots mid r.1 other ghosts count, is_same_normal id other)
      (elim (Bool-cases (is_same_id id other)) [
        | inr differ ↦ rw differ (
            TracksAt-more (view mid other) (state_get_ghost_count s other)
              (state_get_ghost_count mid other) (more other differ) (t other))
        | inl alike ↦
            rw (alike, ← count_same mid id other alike)
              (tracks p.ghost_count (
                subst (λ o. TracksAt o (state_get_ghost_count s id))
                  (view_same mid id (normalize_id id)
                      (is_same_id-normalize id id ∙ is_same_id_refl id)
                    ∙ at)
                  (t id)))
      ])
  where
    mid : Store
    mid = with_ghosts gs n s

-- The messages change to `gs` and `n`, and the counter of the peer `id` with them: every counter
-- still tracks, if it does for that peer, and no other peer loses messages.
pub recounted-IsTracked :
    (s : Store) (id : Bytes) (change : ℤ → ℤ) (gs : List GhostMessage) (n : ℕ)
    → is_empty (normalize_id id) ≡ false
    → IsValid (with_ghosts gs n s)
    → IsTracked s
    → ((k : ℤ)
        → Tracks k (state_get_ghost_count s id)
        → Tracks (change k) (state_get_ghost_count (with_ghosts gs n s) id))
    → ((other : Bytes)
        → is_same_id id other ≡ false
        → state_get_ghost_count s other ≤ state_get_ghost_count (with_ghosts gs n s) other)
    → IsTracked (adjust_ghost_count (normalize_id id) change (with_ghosts gs n s))
recounted-IsTracked s id change gs n e v t tracks more other =
    subst (λ s'. TracksAt (view s' other) (state_get_ghost_count s' other))
      (sym (adjust-with_peer id change (with_ghosts gs n s) e))
      (recounted_at s id change gs n other
        (with_peer (normalize_id id) (recount change) (with_ghosts gs n s))
        (with_peer-ghosts (normalize_id id) (recount change) (with_ghosts gs n s)) t tracks more
        (with_peer-Rewrites (normalize_id id) (recount change) other (λ p. refl) v))
