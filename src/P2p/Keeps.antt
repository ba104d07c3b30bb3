-- ===== src/P2p/Keeps.antt =====
-- What stays true of the P2P manager.
use orcashi.Prelude.{
  ℕ, ◌-◌, ◌≤◌, ◌≡◌, ◌∙◌, ℤ, Bool, not, ◌&&◌, ◌==◌, Option, none, some, List, [], ◌∷◌, ◌++◌, ltb,
  if◌then◌else◌, Code, ok, err, length, length-set, arith, Bool-cases, Option-cases, inl, inr,
}
use orcashi.CString.Text.{Bytes}
use orcashi.CString.Memory.{
  Run, done, overrun, AtEnd, AtEnd-bind, AtEnd-if, AtEnd-done, AtEnd-overrun, strcpy, c_string,
  write_nul, read_bytes,
}
use orcashi.Events.World.{World, Call}
use orcashi.Events.Handlers.{calls}
use orcashi.Events.Keeps.{IsSound, call-IsSound}
use orcashi.P2p.Types.{P2pPeer, Manager, Host, Identity, p2p_max_peers}
use orcashi.P2p.Message.{P2pMessage, header_len, read_message}
use orcashi.P2p.Channel.{
  signed_text, is_refused, sent_off, send_message, generate_session_keys, establish_secure_channel,
  type_response,
}
use orcashi.P2p.Handlers.{
  split_bar, accept_handshake, check_handshake, take_plaintext, take_sealed, take_clear,
  handle_handshake, take_text, handle_data, sender_id, handle_add_request, handle_accept_confirm,
  handle_reject_confirm, dispatch, process_message, is_header,
}
use orcashi.P2p.Table.{and_then, peer_at, put_peer, act}

-- The mutex is held or not, the table has its 256 slots, at most all of which are in use, and the
-- state manager and the event queue are as they should be.
pub record IsManager (held : Bool) (m : Manager) : Type 0 where
  pub mutex : m.mutex_held ≡ held
  pub slots : length m.peers ≡ p2p_max_peers
  pub count_in : m.peer_count ≤ p2p_max_peers
  pub sound : IsSound m.world

-- The same where an operation ends.
abbrev pub Ends : Bool → Run (Code × Manager) → Type 0
Ends held r = AtEnd (λ r. IsManager held r.1) r

pub calls-IsSound : (now : ℤ) (cs : List Call) {w : World} → IsSound w → IsSound (calls now cs w)
unfolding calls
calls-IsSound now [] h = h
calls-IsSound now (c ∷ cs) h = calls-IsSound now cs (call-IsSound now c h)

pub put_peer-IsManager :
    {held : Bool} {m : Manager} (i : ℕ) (p : P2pPeer)
    → IsManager held m
    → IsManager held (put_peer m i p)
put_peer-IsManager {m} i p h = record {
  mutex = h.mutex;
  slots = length-set m.peers i p ∙ h.slots;
  count_in = h.count_in;
  sound = h.sound;
}

pub act-IsManager :
    {held : Bool} {m : Manager} (now : ℤ) (cs : List Call)
    → IsManager held m
    → IsManager held (act now cs m)
act-IsManager now cs h = record {
  mutex = h.mutex;
  slots = h.slots;
  count_in = h.count_in;
  sound = calls-IsSound now cs h.sound;
}

pub and_then-IsManager :
    {held : Bool} (r : Code × Manager) (f : Manager → Code × Manager)
    → IsManager held r.1
    → ((m : Manager) → IsManager held m → IsManager held (f m).1)
    → IsManager held (and_then r f).1
unfolding and_then
and_then-IsManager (err, m) f v keep = v
and_then-IsManager (ok, m) f v keep = keep m v

module _ {held : Bool} (h : Host) (i : ℕ) where
  pub send_message-IsManager :
      (type : ℕ) (payload : Bytes) {m : Manager}
      → IsManager held m
      → IsManager held (send_message h i type payload m).1
  unfolding send_message
  send_message-IsManager type payload {m} v = elim (Option-cases (peer_at m i).udp_socket) [
    | inl e ↦ rw (send_message, e) v
    | inr (fd, e) ↦ elim (Bool-cases (is_refused h i type (peer_at m i))) [
      | inl r ↦ rw (send_message, e, r) v
      | inr r ↦ rw (send_message, e, r) after
    ]
  ]
    where
      after : IsManager held (sent_off h i type payload m)
      after = record {
        mutex = v.mutex;
        slots = length-set m.peers i _ ∙ v.slots;
        count_in = v.count_in;
        sound = v.sound;
      }

  keys-IsManager : {m : Manager} → IsManager held m → IsManager held (generate_session_keys h i m).1
  unfolding generate_session_keys
  keys-IsManager {m} v = grind (arith, put_peer-IsManager)

  pub secure-IsManager :
      {m : Manager} → IsManager held m → IsManager held (establish_secure_channel h i m).1
  unfolding establish_secure_channel
  secure-IsManager {m} v =
      and_then-IsManager _ _ (keys-IsManager v)
        λ m' v'. send_message-IsManager type_response (1 ∷ []) v'

  pub accept_handshake-IsManager :
      (pubkey : Bytes) {m : Manager}
      → IsManager held m
      → IsManager held (accept_handshake h i pubkey m).1
  unfolding accept_handshake
  accept_handshake-IsManager pubkey {m} v =
      and_then-IsManager _ _ (secure-IsManager (put_peer-IsManager i _ v))
        λ m' v'. act-IsManager h.now _ (put_peer-IsManager i _ v')

  check_handshake-Ends :
      (o : Option Identity) (id pubkey signature : Bytes) {m : Manager}
      → IsManager held m
      → Ends held (check_handshake h i o id pubkey signature m)
  unfolding check_handshake
  check_handshake-Ends none id pubkey signature v = AtEnd-done _ v
  check_handshake-Ends (some identity) id pubkey signature v =
      AtEnd-if _ (not (h.verify (signed_text id identity h.now) signature pubkey)) _ _
        (AtEnd-done _ v)
        (AtEnd-bind _ (strcpy 4096 pubkey) _
          λ text. AtEnd-done _ (accept_handshake-IsManager text v))

  bar-Ends :
      (o : Option (Bytes × Bytes)) (f : Bytes → Bytes → Run (Code × Manager)) {m : Manager}
      → IsManager held m
      → ((before behind : Bytes) → Ends held (f before behind))
      → Ends held (elim o [ none ↦ done (err, m) | some (before, behind) ↦ f before behind ])
  bar-Ends none f v k = AtEnd-done _ v
  bar-Ends (some (before, behind)) f v k = k before behind

  handle_handshake-Ends :
      (payload : Bytes) {m : Manager}
      → IsManager held m
      → Ends held (handle_handshake h i payload m)
  unfolding handle_handshake
  handle_handshake-Ends payload {m} v = AtEnd-bind _ (split_bar payload) _ λ first.
      bar-Ends first _ v λ id behind. AtEnd-bind _ (split_bar behind) _ λ second.
        bar-Ends second _ v λ pubkey tail.
          AtEnd-bind _ (c_string tail) _
            λ signature. check_handshake-Ends h.identity id pubkey signature v

  take_text-Ends :
      (text : Bytes) {m : Manager} → IsManager held m → Ends held (take_text h i text m)
  unfolding take_text
  take_text-Ends text v =
      AtEnd-bind _ (strcpy 4096 text) _
        λ copy. AtEnd-done _ (put_peer-IsManager i _ (act-IsManager h.now _ v))

  take_plaintext-Ends :
      (o : Option Bytes) {m : Manager} → IsManager held m → Ends held (take_plaintext h i o m)
  unfolding take_plaintext
  take_plaintext-Ends none v = AtEnd-done _ v
  take_plaintext-Ends (some plaintext) v =
      AtEnd-bind _ (c_string (plaintext ++ (0 ∷ []))) _ λ text. take_text-Ends text v

  handle_data-Ends :
      (msg : P2pMessage) (payload : Bytes) {m : Manager}
      → IsManager held m
      → Ends held (handle_data h i msg payload m)
  unfolding handle_data take_sealed take_clear
  handle_data-Ends msg payload {m} v =
      AtEnd-if _ ((peer_at m i).is_secure && ltb 28 msg.payload_len) _ _
        (AtEnd-bind _ (read_bytes 0 12 payload) _ λ nonce.
          AtEnd-bind _ (read_bytes 12 16 payload) _ λ tag.
            AtEnd-bind _ (read_bytes 28 (msg.payload_len - 28) payload) _
              λ ciphertext. take_plaintext-Ends _ v)
        (AtEnd-bind _ (write_nul msg.payload_len payload) _
          λ payload'. AtEnd-bind _ (c_string payload') _ λ text. take_text-Ends text v)

  handle_add_request-Ends :
      (msg : P2pMessage) (payload : Bytes) {m : Manager}
      → IsManager held m
      → Ends held (handle_add_request h i msg payload m)
  unfolding handle_add_request
  handle_add_request-Ends msg payload v = AtEnd-bind _ (sender_id msg payload) _ λ from_id.
      AtEnd-bind _ (strcpy 64 from_id) _
        λ copy. AtEnd-done _ (act-IsManager h.now _ (act-IsManager h.now _ v))

  handle_accept_confirm-Ends :
      (msg : P2pMessage) (payload : Bytes) {m : Manager}
      → IsManager held m
      → Ends held (handle_accept_confirm h i msg payload m)
  unfolding handle_accept_confirm
  handle_accept_confirm-Ends msg payload v =
      AtEnd-bind _ (sender_id msg payload) _ λ from_id. AtEnd-done _ (act-IsManager h.now _ v)

  handle_reject_confirm-Ends :
      (msg : P2pMessage) (payload : Bytes) {m : Manager}
      → IsManager held m
      → Ends held (handle_reject_confirm h i msg payload m)
  unfolding handle_reject_confirm
  handle_reject_confirm-Ends msg payload v =
      AtEnd-bind _ (sender_id msg payload) _ λ from_id. AtEnd-done _ (act-IsManager h.now _ v)

  dispatch-Ends :
      (msg : P2pMessage) (payload : Bytes) {m : Manager}
      → IsManager held m
      → Ends held (dispatch h i msg payload m)
  unfolding dispatch
  dispatch-Ends msg payload v = AtEnd-if _ (msg.type == 1) _ _ (handle_handshake-Ends payload v) (
      AtEnd-if _ (msg.type == 2) _ _ (AtEnd-done _ (put_peer-IsManager i _ v)) (
        AtEnd-if _ (msg.type == 3) _ _ (handle_data-Ends msg payload v) (
          AtEnd-if _ (msg.type == 4) _ _ (AtEnd-done _ (put_peer-IsManager i _ v)) (
            AtEnd-if _ (msg.type == 5) _ _ (AtEnd-done _ (put_peer-IsManager i _ v)) (
              AtEnd-if _ (msg.type == 6) _ _ (handle_add_request-Ends msg payload v) (
                AtEnd-if _ (msg.type == 7) _ _ (handle_accept_confirm-Ends msg payload v) (
                  AtEnd-if _ (msg.type == 8) _ _ (handle_reject_confirm-Ends msg payload v)
                    (AtEnd-done _ v))))))))

  pub process_message-Ends :
      (buffer : Bytes) (msg_len : ℕ) {m : Manager}
      → IsManager held m
      → Ends held (process_message h i buffer msg_len m)
  unfolding process_message
  process_message-Ends buffer msg_len {m} v =
      AtEnd-if _ (ltb msg_len header_len) _ _ (AtEnd-done _ v) (go (read_message buffer))
    where
      go :
          (o : Option (P2pMessage × Bytes))
          → Ends held (elim o [
            | none ↦ overrun
            | some (msg, payload) ↦
                if is_header msg then dispatch h i msg payload m else done (err, m)
          ])
      go none = AtEnd-overrun _
      go (some (msg, payload)) =
          AtEnd-if _ (is_header msg) _ _ (dispatch-Ends msg payload v) (AtEnd-done _ v)
