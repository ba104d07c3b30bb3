-- ===== src/Daemon/Types.antt =====
-- daemon.h: the daemon's state, what a command gets from outside, and what it answers.
use orcashi.Prelude.{ℕ, ℤ, negsuc, Bool, Option, none, some, [], ◌∷◌, ◌==◌, if◌then◌else◌}
use orcashi.CString.Text.{Bytes, fit}
use orcashi.P2p.Types.{Manager, Host}

-- `dht_open` says whether `g_dht` points to a node.
pub record Daemon : Type 0 where
  pub dht_open : Bool
  pub running : Bool
  pub dht_connected : Bool
  pub p2p_ready : Bool
  pub start_time : ℤ
  pub manager : Manager

-- What a command gets from outside besides what the P2P manager gets: rand(), the number of the process, whether a DHT
-- node can be made and started, and what the file of the identity says of its mode and its making.
pub record Setting : Type 0 where
  pub host : Host
  pub rand : ℕ
  pub pid : ℕ
  pub dht_made : Bool
  pub dht_started : Bool
  pub is_secure_mode : Bool
  pub created : Bytes

-- What a command returns, and the text that it leaves in `response`.
pub record Reply : Type 0 where
  pub code : ℤ
  pub text : Bytes

-- `snprintf(response, size, …)` with the 8192 bytes of `daemon_ipc_handle`.
abbrev pub say : ℤ → Bytes → Reply
say code text = record { code = code; text = fit 8192 text }

abbrev pub fail : Bytes → Reply
fail text = say (negsuc 0) text

-- `strchr(s, ' ')`: the texts before and behind the first space.
unfoldable pub split_space : Bytes → Option (Bytes × Bytes)
split_space [] = none
split_space (c ∷ s) =
    let rest = split_space s in
    if c == 32
    then some ([], s)
    else elim rest [ none ↦ none | some (before, behind) ↦ some (c ∷ before, behind) ]
