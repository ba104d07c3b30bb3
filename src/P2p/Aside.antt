-- ===== src/P2p/Aside.antt =====
-- What the P2P manager does without a call of the state manager, and the calls that accepting a peer makes.
use orcashi.Prelude.{
  ℕ, ◌≡◌, refl, ap, sym, subst, ◌∙◌, ◌⊎◌, inl, inr, ℤ, false, not, [], ◌∷◌, Code, ok, err,
  Bool-cases, Option-cases,
}
use orcashi.CString.Text.{Bytes}
use orcashi.CString.Memory.{bind-done, Returns, Returns-done, Returns-if, Returns-option}
use orcashi.State.Types.{friend}
use orcashi.State.Ids.{normalize_id}
use orcashi.Events.Types.{event_create, accept_confirm}
use orcashi.Events.World.{World, update_peer, push_event}
use orcashi.Events.Handlers.{calls}
use orcashi.P2p.Types.{Manager, Host, is_handshake}
use orcashi.P2p.Table.{and_then, peer_at, find_index, has_id}
use orcashi.P2p.Channel.{
  is_refused, send_message, generate_session_keys, establish_secure_channel, type_response,
}
use orcashi.P2p.Connect.{p2p_accept}
use orcashi.P2p.Entries.{find_peer_free}

-- The calls of the state manager and the event queue with which the P2P manager accepts a peer.
abbrev pub accepted : Bytes → ℤ → World → World
accepted id now = calls now (
    update_peer (normalize_id id) friend
    ∷ push_event (event_create accept_confirm (normalize_id id) now)
    ∷ [])

and_then-world :
    (r : Code × Manager) (f : Manager → Code × Manager) (w : World)
    → r.1.world ≡ w
    → ((m : Manager) → m.world ≡ w → ((f m).1.world ≡ w))
    → (and_then r f).1.world ≡ w
unfolding and_then
and_then-world (ok, m) f w e k = k m e
and_then-world (err, m) f w e k = e

module _ (h : Host) (i : ℕ) (m : Manager) where
  send_message-world :
      (type : ℕ) (payload : Bytes) → (send_message h i type payload m).1.world ≡ m.world
  unfolding send_message
  send_message-world type payload = elim (Option-cases (peer_at m i).udp_socket) [
    | inl e ↦ rw (send_message, e) refl
    | inr (fd, e) ↦ elim (Bool-cases (is_refused h i type (peer_at m i))) [
      | inl r ↦ rw (send_message, e, r) refl
      | inr r ↦ rw (send_message, e, r) refl
    ]
  ]

  keys-world : (generate_session_keys h i m).1.world ≡ m.world
  unfolding generate_session_keys
  keys-world = elim (Option-cases h.identity) [
    | inl e ↦ rw (generate_session_keys, e) refl
    | inr (identity, e) ↦ elim (Option-cases (h.session_keys (peer_at m i).public_key)) [
      | inl k ↦ rw (generate_session_keys, e, k) refl
      | inr (keys, k) ↦ rw (generate_session_keys, e, k) refl
    ]
  ]

secure-world : (h : Host) (i : ℕ) (m : Manager) → (establish_secure_channel h i m).1.world ≡ m.world
unfolding establish_secure_channel
secure-world h i m =
    and_then-world (generate_session_keys h i m) _ m.world (keys-world h i m)
      λ m1 e. send_message-world h i m1 type_response (1 ∷ []) ∙ e

-- What accepting leaves of the world.
abbrev pub Accepts : Bytes → ℤ → Manager → Code × Manager → Type 0
Accepts id now m r = (r.1.world ≡ m.world) ⊎ (r.1.world ≡ accepted id now m.world)

finish :
    (id : Bytes) (now : ℤ) (m : Manager) (r : Code × Manager) (f : Manager → Code × Manager)
    → r.1.world ≡ m.world
    → ((m1 : Manager) → (f m1).1.world ≡ accepted id now m1.world)
    → Accepts id now m (and_then r f)
unfolding and_then
finish id now m (err, m1) f e k = inl e
finish id now m (ok, m1) f e k = inr (k m1 ∙ ap (accepted id now) e)

-- With the mutex free, `p2p_accept` comes to an end; it makes its two calls, or none.
pub p2p_accept-Accepts :
    (h : Host) (id : Bytes) (m : Manager)
    → m.mutex_held ≡ false
    → Returns (Accepts id h.now m) (p2p_accept h id m)
unfolding p2p_accept
p2p_accept-Accepts h id m free =
    subst (Returns (Accepts id h.now m))
      (sym (bind-done _ _ _ (find_peer_free m free (normalize_id id))))
      (Returns-option _ (find_index (has_id (normalize_id (normalize_id id))) m.peer_count m.peers)
        _ _ (Returns-done _ (inl refl))
        λ i. Returns-if _ (not (is_handshake (peer_at m i).state)) _ _ (Returns-done _ (inl refl)) (
          Returns-done _
            (finish id h.now m (establish_secure_channel h i m) _ (secure-world h i m) λ m1. refl)))
