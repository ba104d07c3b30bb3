-- ===== src/Daemon/Dispatch.antt =====
-- daemon.c: a command is read, taken apart, and given to its function.
use orcashi.Prelude.{zero, suc, pos, Option, none, some, [], ◌++◌, if◌then◌else◌, ℤ, negsuc}
use orcashi.CString.Text.{text_of, Bytes, codes, fit, is_empty, str_eq}
use orcashi.CString.Memory.{Run, done, ◌>>=◌}
use orcashi.Daemon.Types.{Daemon, Setting, Reply, fail, split_space}
use orcashi.Daemon.Friends.{
  daemon_cmd_identity, daemon_cmd_listen, daemon_cmd_search, daemon_cmd_add, daemon_cmd_accept,
  daemon_cmd_reject, daemon_cmd_peers, daemon_cmd_status, daemon_cmd_stop,
}
use orcashi.Daemon.Talk.{daemon_cmd_chat_send, daemon_cmd_ghost}

-- The name of a command, and what stands behind the first space.
unfoldable pub cmd_words : Bytes → Bytes × Option Bytes
unfolding split_space
cmd_words cmd_copy = elim (split_space cmd_copy) [
  | none ↦ (cmd_copy, none)
  | some (cmd_name, args) ↦ (cmd_name, some args)
]

abbrev pub unknown_command : Bytes → Reply
unknown_command cmd_name = fail (codes "ERROR: Unknown command: " ++ (cmd_name ++ codes "\n"))

-- The chain of `strcmp` tests. `unset` is what `daemon_cmd_identity` finds in its buffer.
unfoldable pub run_command : Setting → Bytes → Bytes → Option Bytes → Daemon → Run (Reply × Daemon)
run_command s unset cmd_name args d =
    if str_eq cmd_name (codes "identity")
    then done (daemon_cmd_identity s unset d)
    else if str_eq cmd_name (codes "listen")
    then done (daemon_cmd_listen s d)
    else if str_eq cmd_name (codes "search")
    then done (daemon_cmd_search s args d)
    else if str_eq cmd_name (codes "add")
    then daemon_cmd_add s args d
    else if str_eq cmd_name (codes "accept")
    then daemon_cmd_accept s args d
    else if str_eq cmd_name (codes "reject")
    then daemon_cmd_reject s args d
    else if str_eq cmd_name (codes "peers")
    then daemon_cmd_peers d
    else if str_eq cmd_name (codes "chat_send")
    then daemon_cmd_chat_send s args d
    else if str_eq cmd_name (codes "ghost")
    then daemon_cmd_ghost s args d
    else if str_eq cmd_name (codes "status")
    then done (daemon_cmd_status s d)
    else if str_eq cmd_name (codes "stop")
    then done (daemon_cmd_stop d)
    else done (unknown_command cmd_name, d)

unfoldable pub daemon_handle_command : Setting → Bytes → Bytes → Daemon → Run (Reply × Daemon)
daemon_handle_command s unset cmd d =
    let (cmd_name, args) = cmd_words (fit 512 cmd) in run_command s unset cmd_name args d

-- The texts that stand for an empty response.
abbrev pub default_text : ℤ → Bytes
default_text (pos zero) = codes "OK\n"
default_text (pos (suc n)) = []
default_text (negsuc n) = codes "ERROR: Command failed\n"

abbrev pub answer : Reply → Bytes
answer r = if is_empty r.text then default_text r.code else r.text

abbrev pub answer_of : Run (Reply × Daemon) → Run (Option Bytes × Daemon)
answer_of r = r >>= λ (r, d1). done (some (answer r), d1)

-- `daemon_ipc_handle`, with what the client has written so far: the answer, where there is one.
unfoldable pub daemon_ipc_handle : Setting → Bytes → Bytes → Daemon → Run (Option Bytes × Daemon)
daemon_ipc_handle s unset written d =
    if is_empty written
    then done (none, d)
    else answer_of (daemon_handle_command s unset (text_of (fit 4096 written)) d)
