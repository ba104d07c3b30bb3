-- ===== src/State/Setters.antt =====
-- The setters of state_manager.c, each as the rewriting of one field of one peer.
use orcashi.Prelude.{◌≡◌, refl, sym, subst, ℤ, Bool, Code}
use orcashi.CString.Text.{Bytes}
use orcashi.State.Types.{Peer, Store}
use orcashi.State.Fields.{
  with_peer, state_set_online, state_set_busy, state_set_secure, state_set_ip, state_set_port,
  state_set_name, state_set_public_key, state_update_last_seen,
}
use orcashi.State.Valid.{IsValid}
use orcashi.State.View.{Rewrites, with_peer-Rewrites}

-- A setter, with what it is given.
pub data Setter : Type 0 where
  online busy secure : Bool → Setter
  port : ℤ → Setter
  ip name public_key : Bytes → Setter
  last_seen : Setter

-- The C function of each.
abbrev pub apply : Setter → Bytes → ℤ → Store → Code × Store
apply (online b) id now = state_set_online id b now
apply (busy b) id now = state_set_busy id b
apply (secure b) id now = state_set_secure id b
apply (port n) id now = state_set_port id n
apply (ip t) id now = state_set_ip id t
apply (name t) id now = state_set_name id t
apply (public_key t) id now = state_set_public_key id t
apply last_seen id now = state_update_last_seen id now

-- The field that it is to write; going online or offline is also a sign of life.
abbrev pub written : Setter → ℤ → Peer → Peer
written (online b) now p = record p { online = b; last_seen = now }
written (busy b) now p = record p { busy = b }
written (secure b) now p = record p { is_secure = b }
written (port n) now p = record p { port = n }
written (ip t) now p = record p { ip = t }
written (name t) now p = record p { name = t }
written (public_key t) now p = record p { public_key = t }
written last_seen now p = record p { last_seen = now }

pub apply-with_peer :
    (w : Setter) (id : Bytes) (now : ℤ) (s : Store)
    → apply w id now s ≡ with_peer id (written w now) s
unfolding state_set_online state_set_busy state_set_secure state_set_ip state_set_port
    state_set_name state_set_public_key state_update_last_seen
apply-with_peer (online b) id now s = refl
apply-with_peer (busy b) id now s = refl
apply-with_peer (secure b) id now s = refl
apply-with_peer (port n) id now s = refl
apply-with_peer (ip t) id now s = refl
apply-with_peer (name t) id now s = refl
apply-with_peer (public_key t) id now s = refl
apply-with_peer last_seen id now s = refl

-- No setter touches the id or the counter of ghost messages.
pub written-keeps :
    (w : Setter) (now : ℤ) (p : Peer)
    → ((written w now p).id ≡ p.id) × ((written w now p).ghost_count ≡ p.ghost_count)
written-keeps (online b) now p = (refl, refl)
written-keeps (busy b) now p = (refl, refl)
written-keeps (secure b) now p = (refl, refl)
written-keeps (port n) now p = (refl, refl)
written-keeps (ip t) now p = (refl, refl)
written-keeps (name t) now p = (refl, refl)
written-keeps (public_key t) now p = (refl, refl)
written-keeps last_seen now p = (refl, refl)

-- On a valid store each of the eight setters fails, changing nothing, where there is no such peer;
-- else it writes its field of that peer, and every other id finds what it found before.
pub setters-Rewrites :
    {s : Store} (w : Setter) (id : Bytes) (now : ℤ) (other : Bytes)
    → IsValid s
    → Rewrites id (written w now) other s (apply w id now s)
setters-Rewrites {s} w id now other v =
    subst (Rewrites id (written w now) other s) (sym (apply-with_peer w id now s))
      (with_peer-Rewrites id (written w now) other (λ p. (written-keeps w now p).0) v)
