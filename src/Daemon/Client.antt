-- ===== src/Daemon/Client.antt =====
-- commands.h and commands.c: the names of the commands, and what the program asks the daemon for.
use orcashi.Prelude.{ℕ, ◌||◌, Option, none, some, List, [], ◌∷◌, ◌++◌, if◌then◌else◌}
use orcashi.CString.Text.{Bytes, codes, fit, str_eq}
use orcashi.CString.Number.{show_int}
use orcashi.MixedId.Codec.{mixed_id_decode}

-- `reset` is used by commands.c; the type in commands.h lacks it.
pub data CommandType : Type 0 where
  unknown register identity listen search add accept reject peers chat ghost status stop reset
        help :
      CommandType

unfoldable pub command_parse_type : Option Bytes → CommandType
command_parse_type none = unknown
command_parse_type (some cmd) =
    if str_eq cmd (codes "register")
    then register
    else if str_eq cmd (codes "identity")
    then identity
    else if str_eq cmd (codes "listen")
    then listen
    else if str_eq cmd (codes "search")
    then search
    else if str_eq cmd (codes "add")
    then add
    else if str_eq cmd (codes "accept")
    then accept
    else if str_eq cmd (codes "reject")
    then reject
    else if str_eq cmd (codes "peers")
    then peers
    else if str_eq cmd (codes "chat")
    then chat
    else if str_eq cmd (codes "ghost")
    then ghost
    else if str_eq cmd (codes "status")
    then status
    else if str_eq cmd (codes "stop")
    then stop
    else if str_eq cmd (codes "reset")
    then reset
    else if str_eq cmd (codes "help") || (str_eq cmd (codes "-h") || str_eq cmd (codes "--help"))
    then help
    else unknown

unfoldable pub command_get_name : CommandType → Bytes
command_get_name register = codes "register"
command_get_name identity = codes "identity"
command_get_name listen = codes "listen"
command_get_name search = codes "search"
command_get_name add = codes "add"
command_get_name accept = codes "accept"
command_get_name reject = codes "reject"
command_get_name peers = codes "peers"
command_get_name chat = codes "chat"
command_get_name ghost = codes "ghost"
command_get_name status = codes "status"
command_get_name stop = codes "stop"
command_get_name reset = codes "reset"
command_get_name help = codes "help"
command_get_name unknown = codes "unknown"

-- What a command comes to: an exit code with what it prints, or a text for the daemon, with what follows on the daemon's answer
-- (`none` where `command_send_to_daemon` fails). The answer is as much of it as the program reads.
pub data Act : Type 0 where
  quit : ℕ → Bytes → Act
  ask : Bytes → (Option Bytes → ℕ × Bytes) → Act

abbrev pub print_or : ℕ × Bytes → Option Bytes → ℕ × Bytes
print_or otherwise none = otherwise
print_or otherwise (some response) = (0, response)

unfoldable pub cmd_search : Option Bytes → Act
cmd_search none = quit 1 (codes "ERROR: Usage: ./orcashi search <id>\n")
cmd_search (some peer_id) = elim (mixed_id_decode peer_id) [
  | some d ↦ quit 0 (
      codes "Mixed ID detected: ID="
      ++ (d.id
          ++ (codes ", IP=" ++ (d.ip ++ (codes ", Port=" ++ (show_int d.port ++ codes "\n"))))))
  | none ↦ ask (fit 256 (codes "search " ++ peer_id)) λ o. elim o [
    | some response ↦ (0, codes "Searching for " ++ (peer_id ++ (codes "...\n" ++ response)))
    | none ↦ (
      1,
      codes "Searching for "
          ++ (peer_id ++ codes "...\nSearch failed. Make sure daemon is running.\n"),
    )
  ]
]

unfoldable pub cmd_add : Option Bytes → Act
cmd_add none = quit 1 (codes "ERROR: Usage: ./orcashi add <id>\n")
cmd_add (some peer_id) =
    ask (fit 256 (codes "add " ++ peer_id))
      (print_or (0, codes "Sending request to " ++ (peer_id ++ codes "...\nDone.\n")))

unfoldable pub cmd_accept : Option Bytes → Act
cmd_accept none = quit 1 (codes "ERROR: Usage: ./orcashi accept <id>\n")
cmd_accept (some peer_id) =
    ask (fit 256 (codes "accept " ++ peer_id))
      (print_or (0, codes "Accepted request from " ++ (peer_id ++ codes "\n")))

unfoldable pub cmd_reject : Option Bytes → Act
cmd_reject none = quit 1 (codes "ERROR: Usage: ./orcashi reject <id>\n")
cmd_reject (some peer_id) =
    ask (fit 256 (codes "reject " ++ peer_id))
      (print_or (0, codes "Rejected request from " ++ (peer_id ++ codes "\n")))

abbrev pub cmd_peers : Act
cmd_peers =
    ask (codes "peers") (print_or (1, codes "No daemon running. Use './orcashi listen' first.\n"))

-- The text that one line of a chat is sent as.
abbrev pub chat_command : Bytes → Bytes → Bytes
chat_command peer_id input = fit 512 (codes "chat_send " ++ (peer_id ++ (32 ∷ input)))

-- The loop of `cmd_chat`: the texts that it sends for the lines it reads. The answers are dropped.
unfoldable pub chat_texts : Bytes → List Bytes → List Bytes
chat_texts peer_id [] = []
chat_texts peer_id (input ∷ inputs) =
    let rest = chat_texts peer_id inputs in
    if str_eq input (codes "/exit")
    then []
    else if str_eq input (codes "/status")
    then rest
    else chat_command peer_id input ∷ rest

abbrev pub ghost_command : Bytes → Bytes → Bytes
ghost_command peer_id message = fit 512 (codes "ghost " ++ (peer_id ++ (32 ∷ message)))

-- `cmd_ghost` with a message of one word: each further word is written behind the one before, where the program has no room.
unfoldable pub cmd_ghost : Bytes → Bytes → Act
cmd_ghost peer_id message = ask (ghost_command peer_id message) (
    print_or
      (0, codes "Sending ghost message to " ++ (peer_id ++ codes "...\nMessage stored.\nDone.\n")))
