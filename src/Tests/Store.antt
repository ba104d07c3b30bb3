-- ===== src/Tests/Store.antt =====
-- The state manager's theorems on a store of two friends-to-be.
use orcashi.Prelude.{pos, ◌≡◌, ◌≢◌, refl, ok, none, [], ◌∷◌, arith}
use orcashi.CString.Text.{codes, str_eq}
use orcashi.State.Types.{Store}
use orcashi.State.Valid.{IsValid}
use orcashi.State.Ids.{normalize_id, strip, is_same_id}
use orcashi.State.View.{view}
use orcashi.State.Peers.{shift_left, state_get_peer, find_peer, state_add_peer, state_remove_peer}
use orcashi.State.Change.{Adds, Removes, add_peer-Adds, remove_peer-Removes}
use orcashi.State.Ghosts.{state_add_ghost_message}
use orcashi.State.Sending.{Sends, add_ghost_message-Sends}
use orcashi.Events.World.{call, add_peer}
use orcashi.Events.Keeps.{run_calls, run_calls-init, init_world}

abbrev two_peers : Store
two_peers =
    (run_calls ((pos 100, add_peer (codes "7")) ∷ (pos 101, add_peer (codes "8")) ∷ [])
      init_world).store

two_peers-IsValid : IsValid two_peers
two_peers-IsValid =
    (run_calls-init ((pos 100, add_peer (codes "7")) ∷ (pos 101, add_peer (codes "8")) ∷ [])).valid

add_peer-Adds_example :
    Adds (codes "9") (pos 5) (codes "8") two_peers (state_add_peer (codes "9") (pos 5) two_peers)
add_peer-Adds_example = add_peer-Adds (codes "9") (pos 5) (codes "8") two_peers-IsValid

remove_peer-Removes_example :
    Removes (codes "7") (codes "8") two_peers (state_remove_peer (codes "7") two_peers)
remove_peer-Removes_example = remove_peer-Removes (codes "7") (codes "8") two_peers-IsValid

add_ghost_message-Sends_example :
    Sends
      (codes "<8>")
      (codes "7")
      two_peers
      (state_add_ghost_message (codes "<8>") (codes "hi") (pos 5) 12 two_peers)
add_ghost_message-Sends_example =
    add_ghost_message-Sends (codes "<8>") (codes "hi") (codes "7") (pos 5) 12 two_peers-IsValid

known_seven : view two_peers (codes "7") ≢ none
unfolding run_calls call state_add_peer state_get_peer find_peer normalize_id strip is_same_id
    str_eq
known_seven h = ground arith

unknown_nine : view (state_remove_peer (codes "7") two_peers).1 (codes "9") ≡ none
unfolding run_calls call state_add_peer state_get_peer find_peer normalize_id strip is_same_id
    str_eq state_remove_peer shift_left
unknown_nine = refl

added_nine :
    (state_add_peer (codes "9") (pos 102) (state_remove_peer (codes "7") two_peers).1).0 ≡ ok
unfolding run_calls call state_add_peer state_get_peer find_peer normalize_id strip is_same_id
    str_eq state_remove_peer shift_left
added_nine = refl
