-- ===== src/Daemon/Talk.antt =====
-- daemon.c: the commands that send a message and that keep one for a peer that is away.
use orcashi.Prelude.{
  pos, not, Option, none, some, [], ◌∷◌, ◌++◌, if◌then◌else◌, ok, err, length, ltb,
}
use orcashi.CString.Text.{Bytes, codes}
use orcashi.CString.Memory.{Run, done, overrun, strcpy, ◌>>=◌}
use orcashi.Events.World.{add_message, add_ghost_message}
use orcashi.P2p.Types.{Manager}
use orcashi.P2p.Table.{act, p2p_is_connected}
use orcashi.P2p.Connect.{p2p_send}
use orcashi.Daemon.Types.{Daemon, Setting, Reply, say, fail, split_space}
use orcashi.Daemon.Friends.{with_manager}

-- `strncpy(peer_id, args, id_len); peer_id[id_len] = '\0'` with the 64 bytes of `peer_id`.
unfoldable pub copy_id : Bytes → Run Bytes
copy_id id = if ltb (length id) 64 then done id else overrun

-- The commands `chat_send` and `ghost` up to their two texts.
unfoldable pub on_words :
    Bytes
    → Option Bytes
    → (Bytes → Bytes → Daemon → Run (Reply × Daemon))
    → Daemon
    → Run (Reply × Daemon)
unfolding split_space copy_id
on_words name none f d =
    done (fail (codes "ERROR: Usage: " ++ (name ++ codes " <id> <message>\n")), d)
on_words name (some args) f d = elim (split_space args) [
  | none ↦ done (fail (codes "ERROR: Invalid " ++ (name ++ codes " command\n")), d)
  | some (id, text) ↦ copy_id id >>= λ peer_id. strcpy 4096 text >>= λ message. f peer_id message d
]

unfoldable pub send_text : Setting → Bytes → Bytes → Manager → Run (Reply × Manager)
send_text s peer_id message m = p2p_is_connected peer_id m >>= λ (connected, m1).
    if not connected
    then done (fail (codes "ERROR: Peer " ++ (peer_id ++ codes " is not connected\n")), m1)
    else (p2p_send s.host peer_id message m1 >>= λ (code, m2). done (elim code [
      | ok ↦ (
        say (pos 0) (codes "Message sent to " ++ (peer_id ++ codes "\n")),
        act s.host.now (add_message peer_id message ∷ []) m2,
      )
      | err ↦ (fail (codes "ERROR: Failed to send message to " ++ (peer_id ++ codes "\n")), m2)
    ]))

abbrev pub send_words : Setting → Bytes → Bytes → Daemon → Run (Reply × Daemon)
send_words s peer_id message d =
    send_text s peer_id message d.manager >>= λ (r, m). done (r, with_manager d m)

unfoldable pub daemon_cmd_chat_send : Setting → Option Bytes → Daemon → Run (Reply × Daemon)
unfolding on_words send_text
daemon_cmd_chat_send s args = on_words (codes "chat_send") args (send_words s)

-- What `state_add_ghost_message` returns is not looked at.
abbrev pub keep_text : Setting → Bytes → Bytes → Daemon → Run (Reply × Daemon)
keep_text s peer_id message d = done (
  say (pos 0) (
      codes "Ghost message stored for "
      ++ (peer_id ++ codes "\nWill be delivered when peer comes online\n")),
  with_manager d (act s.host.now (add_ghost_message peer_id message s.rand ∷ []) d.manager),
)

unfoldable pub daemon_cmd_ghost : Setting → Option Bytes → Daemon → Run (Reply × Daemon)
unfolding on_words
daemon_cmd_ghost s args = on_words (codes "ghost") args (keep_text s)
