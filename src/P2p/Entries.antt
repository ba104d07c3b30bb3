-- ===== src/P2p/Entries.antt =====
-- The table of peers where the mutex is free.
use orcashi.Prelude.{
  ℕ, zero, suc, ◌+◌, ◌<◌, ◌≡◌, refl, sym, ap, ◌∙◌, ℤ, true, false, none, some, List, [], ◌∷◌,
  length, set, get_or-set_self, if-false, gt→leb,
}
use orcashi.CString.Text.{Bytes}
use orcashi.CString.Memory.{done, bind-done}
use orcashi.State.Ids.{normalize_id}
use orcashi.P2p.Types.{P2pPeer, Manager, zero_peer, p2p_max_peers}
use orcashi.P2p.Table.{
  peer_at, put_peer, fresh_peer, find_index, has_id, lock, unlock, find_peer, add_entry,
}

set-set {ℓ} : {A : Type ℓ} (xs : List A) (i : ℕ) (v w : A) → set (set xs i v) i w ≡ set xs i w
set-set [] i v w = refl
set-set (x ∷ xs) zero v w = refl
set-set (x ∷ xs) (suc i) v w = ap (◌∷◌ x) (set-set xs i v w)

module _ (m : Manager) (i : ℕ) (a : P2pPeer) (inside : i < length m.peers) where
  pub peer_at-put_peer : peer_at (put_peer m i a) i ≡ a
  peer_at-put_peer = get_or-set_self m.peers i a zero_peer inside

  pub put_peer_again :
      (f : P2pPeer → P2pPeer)
      → put_peer (put_peer m i a) i (f (peer_at (put_peer m i a) i)) ≡ put_peer m i (f a)
  put_peer_again f =
      ap (λ p. put_peer (put_peer m i a) i (f p)) peer_at-put_peer
      ∙ ap (λ ps. record m { peers = ps }) (set-set m.peers i a (f a))

module _ (m : Manager) (free : m.mutex_held ≡ false) where
  pub freed : unlock (record m { mutex_held = true }) ≡ m
  freed = ap (λ b. record m { mutex_held = b }) (sym free)

  pub lock_free : lock m ≡ done (record m { mutex_held = true })
  unfolding lock
  lock_free = if-false m.mutex_held _ _ free

  pub find_peer_free :
      (id : Bytes)
      → find_peer id m ≡ done (find_index (has_id (normalize_id id)) m.peer_count m.peers, m)
  unfolding find_peer
  find_peer_free id =
      bind-done (lock m) _ _ lock_free
      ∙ ap (λ m1. done (find_index (has_id (normalize_id id)) m.peer_count m.peers, m1)) freed

pub entry_new :
    (now : ℤ) (norm_id : Bytes) (m : Manager)
    → find_index (has_id norm_id) m.peer_count m.peers ≡ none
    → m.peer_count < p2p_max_peers
    → add_entry now norm_id m ≡ (
      some m.peer_count,
      put_peer (record m { peer_count = m.peer_count + 1 }) m.peer_count (fresh_peer norm_id now),
    )
unfolding add_entry
entry_new now norm_id m new room = rw (add_entry, new, gt→leb p2p_max_peers m.peer_count room) refl
