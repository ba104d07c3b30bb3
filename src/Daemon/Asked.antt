-- ===== src/Daemon/Asked.antt =====
-- What the texts of commands.c come to in daemon.c.
use orcashi.Prelude.{
  ℕ, ◌+◌, ◌-◌, ◌≤◌, ◌<◌, ◌≡◌, refl, ap, ◌∙◌, Option, some, ◌∷◌, ◌++◌, arith, length, take,
  length-take, length-append,
}
use orcashi.CString.Text.{Bytes, codes, fit, str_eq}
use orcashi.CString.Memory.{overrun}
use orcashi.Daemon.Types.{Daemon, Setting}
use orcashi.Daemon.Talk.{send_words, daemon_cmd_chat_send, daemon_cmd_ghost, keep_text}
use orcashi.Daemon.Dispatch.{run_command, daemon_ipc_handle, answer_of}
use orcashi.Daemon.Client.{chat_command, ghost_command}
use orcashi.Daemon.Words.{
  IsText, IsWord, IsWord-IsText, All-take, IsText-append, handle_text, cut, two_words, long_word,
}

run_chat :
    (s : Setting) (unset : Bytes) (args : Option Bytes) (d : Daemon)
    → run_command s unset (codes "chat_send") args d ≡ daemon_cmd_chat_send s args d
unfolding run_command str_eq
run_chat s unset args d = refl

run_ghost :
    (s : Setting) (unset : Bytes) (args : Option Bytes) (d : Daemon)
    → run_command s unset (codes "ghost") args d ≡ daemon_cmd_ghost s args d
unfolding run_command str_eq
run_ghost s unset args d = refl

chat-IsWord : IsWord (codes "chat_send")
chat-IsWord = ground arith

ghost-IsWord : IsWord (codes "ghost")
ghost-IsWord = ground arith

module _ (s : Setting) (unset id input : Bytes) (d : Daemon) (w : IsWord id)
    (t : IsText input) where
  short : (n : ℕ) → length (take (n - length id) input) ≤ n
  short n = ground (arith, length-take (n - length id) input)

  handled :
      (name : Bytes)
      → IsWord name
      → length name + length id ≤ 509
      → daemon_ipc_handle s unset (fit 512 (name ++ (32 ∷ (id ++ (32 ∷ input))))) d
        ≡ answer_of (
            run_command s unset name
              (some (id ++ (32 ∷ take (509 - length name - length id) input)))
              d)
  handled name v h =
      let sent = take (509 - length name - length id) input in
      ap (λ t. daemon_ipc_handle s unset t d) (cut name id input h)
      ∙ handle_text name (id ++ (32 ∷ sent)) v
          (IsText-append id sent (IsWord-IsText id w)
            (All-take _ (509 - length name - length id) input t))
          (ground (
            arith,
            length-append id (32 ∷ sent),
            length-take (509 - length name - length id) input,
            h,
          ))
          s unset d

  -- A line of a chat with an identifier of one word and less than 64 bytes reaches the daemon's sending of a message, with this
  -- identifier and as much of the line as fits 511 bytes with the command's name and the identifier.
  pub chat_text :
      length id < 64
      → daemon_ipc_handle s unset (chat_command id input) d
        ≡ answer_of (send_words s id (take (500 - length id) input) d)
  unfolding daemon_cmd_chat_send
  chat_text h =
      let sent = take (500 - length id) input in
      handled (codes "chat_send") chat-IsWord (ground arith)
      ∙ ap answer_of (
          run_chat s unset (some (id ++ (32 ∷ sent))) d
          ∙ two_words (codes "chat_send") id sent (send_words s) d w h (ground (arith, short 500)))

  ghost_text :
      length id < 64
      → daemon_ipc_handle s unset (ghost_command id input) d
        ≡ answer_of (keep_text s id (take (504 - length id) input) d)
  unfolding daemon_cmd_ghost
  ghost_text h =
      let sent = take (504 - length id) input in
      handled (codes "ghost") ghost-IsWord (ground arith)
      ∙ ap answer_of (
          run_ghost s unset (some (id ++ (32 ∷ sent))) d
          ∙ two_words (codes "ghost") id sent (keep_text s) d w h (ground (arith, short 504)))

  -- With an identifier of 64 bytes or more, up to the 500 that leave room for the command, a line of a chat and a ghost message make
  -- the daemon write behind the end of `peer_id`.
  pub long_id :
      64 ≤ length id
      → length id ≤ 500
      → (daemon_ipc_handle s unset (chat_command id input) d ≡ overrun)
        × (daemon_ipc_handle s unset (ghost_command id input) d ≡ overrun)
  unfolding daemon_cmd_chat_send daemon_cmd_ghost
  long_id h k = (
    handled (codes "chat_send") chat-IsWord (ground arith)
        ∙ ap answer_of
            (run_chat s unset _ d ∙ long_word (codes "chat_send") id _ (send_words s) d w h),
    handled (codes "ghost") ghost-IsWord (ground arith)
        ∙ ap answer_of (run_ghost s unset _ d ∙ long_word (codes "ghost") id _ (keep_text s) d w h),
  )
