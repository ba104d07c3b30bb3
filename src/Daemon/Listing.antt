-- ===== src/Daemon/Listing.antt =====
-- The list of peers that the daemon prints, and the names of the commands.
use orcashi.Prelude.{
  ℕ, ◌+◌, ◌≤◌, ◌≡◌, refl, ap, ◌∙◌, pos, Bool, true, false, some, List, [], ◌∷◌, ◌++◌, arith,
  if◌then◌else◌, length, length-append, ltb, lt→ltb, Bool-cases, inl, inr,
}
use orcashi.CString.Text.{Bytes, codes, fit, str_eq}
use orcashi.CString.Number.{show_nat}
use orcashi.CString.Memory.{Run, done, overrun, ◌>>=◌}
use orcashi.State.Types.{Peer}
use orcashi.State.Queries.{state_get_peers}
use orcashi.Daemon.Types.{Daemon, say}
use orcashi.Daemon.Friends.{peer_line, peer_lines, print_peers, daemon_cmd_peers}
use orcashi.Daemon.Client.{CommandType, command_parse_type, command_get_name}

-- A text with the lines of the peers behind it.
abbrev pub printed : List Peer → Bytes → Bytes
printed [] t = t
printed (p ∷ ps) t = printed ps (t ++ peer_line p)

abbrev pub heading : ℕ → Bytes
heading n = codes "PEERS (" ++ (show_nat n ++ codes "):\n")

printed_longer : (ps : List Peer) (t : Bytes) → length t ≤ length (printed ps t)
printed_longer [] t = omega arith
printed_longer (p ∷ ps) t =
    omega (arith, printed_longer ps (t ++ peer_line p), length-append t (peer_line p))

lines_end :
    (ps : List Peer) (p : Peer) (t : Bytes)
    → peer_lines (ps ++ (p ∷ [])) t
      ≡ (if ltb 4096 (length (printed ps t)) then overrun else done (printed (ps ++ (p ∷ [])) t))
unfolding peer_lines
lines_end [] p t = refl
lines_end (q ∷ ps) p t = elim (Bool-cases (ltb 4096 (length t))) [
  | inl over ↦
      rw
        (
          over,
          lt→ltb 4096 (length (printed ps (t ++ peer_line q)))
              (ground (arith, printed_longer ps (t ++ peer_line q), length-append t (peer_line q))),
        )
        refl
  | inr room ↦ rw room (lines_end ps p (t ++ peer_line q))
]

count : (ps : List Peer) (p : Peer) → length (ps ++ (p ∷ [])) ≡ length ps + 1
count ps p = length-append ps (p ∷ [])

some_peers :
    (d : Daemon) (ps : List Peer) (p : Peer)
    → print_peers d (ps ++ (p ∷ [])) ≡ (
        peer_lines (ps ++ (p ∷ [])) (heading (length ps + 1)) >>= λ t.
        done (say (pos 0) (fit 4096 t), d))
some_peers d [] p = refl
some_peers d (q ∷ ps) p =
    ap
      (λ n.
        peer_lines (q ∷ (ps ++ (p ∷ []))) (heading n) >>= λ t. done (say (pos 0) (fit 4096 t), d))
      (count (q ∷ ps) p)

overrun_or :
    {A B : Type 0} (b : Bool) (a : A) (f : A → Run B)
    → ((if b then overrun else done a) >>= f) ≡ (if b then overrun else f a)
overrun_or true a f = refl
overrun_or false a f = refl

-- With a last peer `p` behind the peers `ps`, `peers` answers with its heading and a line for each peer, cut to 4095 bytes, where the text
-- before the line of the last one has at most 4096 bytes; else it writes behind the end of its buffer.
pub peers_fit :
    (d : Daemon) (ps : List Peer) (p : Peer)
    → state_get_peers d.manager.world.store 128 ≡ ps ++ (p ∷ [])
    → daemon_cmd_peers d ≡ (
        if ltb 4096 (length (printed ps (heading (length ps + 1))))
        then overrun
        else done (say (pos 0) (fit 4096 (printed (ps ++ (p ∷ [])) (heading (length ps + 1)))), d))
unfolding daemon_cmd_peers
peers_fit d ps p e =
    ap (print_peers d) e
    ∙ some_peers d ps p
    ∙ ap (λ r. r >>= λ t. done (say (pos 0) (fit 4096 t), d))
        (lines_end ps p (heading (length ps + 1)))
    ∙ overrun_or (ltb 4096 (length (printed ps (heading (length ps + 1))))) _ _

-- Every type of a command has a name that is read as this type.
parse_type-get_name :
    (type : CommandType) → command_parse_type (some (command_get_name type)) ≡ type
unfolding command_parse_type command_get_name str_eq
parse_type-get_name CommandType.unknown = refl
parse_type-get_name CommandType.register = refl
parse_type-get_name CommandType.identity = refl
parse_type-get_name CommandType.listen = refl
parse_type-get_name CommandType.search = refl
parse_type-get_name CommandType.add = refl
parse_type-get_name CommandType.accept = refl
parse_type-get_name CommandType.reject = refl
parse_type-get_name CommandType.peers = refl
parse_type-get_name CommandType.chat = refl
parse_type-get_name CommandType.ghost = refl
parse_type-get_name CommandType.status = refl
parse_type-get_name CommandType.stop = refl
parse_type-get_name CommandType.reset = refl
parse_type-get_name CommandType.help = refl
