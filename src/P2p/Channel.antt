-- ===== src/P2p/Channel.antt =====
-- p2p_manager.c: sending messages and agreeing on keys.
use orcashi.Prelude.{
  ℕ, ℤ, Bool, not, ◌&&◌, ◌||◌, none, some, [], ◌∷◌, ◌++◌, ◌==◌, ltb, if◌then◌else◌, Code, ok, err,
  length,
}
use orcashi.CString.Text.{Bytes, codes, fit}
use orcashi.CString.Number.{show_int}
use orcashi.CString.Memory.{Run, done, overrun}
use orcashi.P2p.Types.{P2pPeer, Manager, Host, Identity, is_established}
use orcashi.P2p.Message.{build_message}
use orcashi.P2p.Table.{and_then, peer_at, put_peer}

-- The numbers of `P2PMessageType`.
abbrev pub type_handshake : ℕ
type_handshake = 1

abbrev pub type_response : ℕ
type_response = 2

abbrev pub type_data : ℕ
type_data = 3

abbrev pub type_keepalive : ℕ
type_keepalive = 4

abbrev pub type_close : ℕ
type_close = 5

abbrev pub is_opening : ℕ → Bool
is_opening type = type == type_handshake || type == type_response

-- Where `send_message` returns -1 although the socket is open.
abbrev pub is_refused : Host → ℕ → ℕ → P2pPeer → Bool
is_refused h i type p =
    (not (is_established p.state) && not (is_opening type)) || (not h.memory || not (h.sends i))

abbrev pub sent_off : Host → ℕ → ℕ → Bytes → Manager → Manager
sent_off h i type payload m =
    record (put_peer m i (record (peer_at m i) { last_activity = h.now })) {
      sent = m.sent ++ (((peer_at m i).addr, build_message h type payload) ∷ []);
    }

unfoldable pub send_message : Host → ℕ → ℕ → Bytes → Manager → Code × Manager
send_message h i type payload m = elim (peer_at m i).udp_socket [
  | none ↦ (err, m)
  | some fd ↦
      if is_refused h i type (peer_at m i) then (err, m) else (ok, sent_off h i type payload m)
]

-- The text that is signed.
abbrev pub signed_text : Bytes → Identity → ℤ → Bytes
signed_text id identity now = fit 4096 (
    id
    ++ (codes "|"
        ++ (identity.name ++ (codes "|" ++ (identity.public_key ++ (codes "|" ++ show_int now))))))

-- `payload` is an array of 4096 bytes.
unfoldable pub send_handshake : Host → ℕ → Manager → Run (Code × Manager)
unfolding send_message
send_handshake h i m = elim h.identity [
  | none ↦ done (err, m)
  | some identity ↦
      let head = identity.id ++ (codes "|" ++ (identity.public_key ++ codes "|")) in
      if ltb 4096 (length head)
      then overrun
      else elim (h.sign (signed_text identity.id identity h.now) identity.private_key) [
        | none ↦ done (err, m)
        | some signature ↦
            if ltb 4096 (length (head ++ signature))
            then overrun
            else done (send_message h i type_handshake (head ++ signature) m)
      ]
]

unfoldable pub generate_session_keys : Host → ℕ → Manager → Code × Manager
generate_session_keys h i m = elim h.identity [
  | none ↦ (err, m)
  | some identity ↦ elim (h.session_keys (peer_at m i).public_key) [
    | none ↦ (err, m)
    | some (shared, key) ↦
        (ok, put_peer m i (record (peer_at m i) { shared_secret = shared; aes_key = key }))
  ]
]

unfoldable pub establish_secure_channel : Host → ℕ → Manager → Code × Manager
unfolding generate_session_keys send_message
establish_secure_channel h i m =
    and_then (generate_session_keys h i m) (send_message h i type_response (1 ∷ []))
