-- ===== src/SimOpen/Agreement.antt =====
-- Two sessions, one of which connects and the other accepts: the tokens that they end with, where
-- each recv() gives exactly one packet. The socket is a stream, which does not promise that.
use orcashi.Prelude.{
  ℕ, ◌^◌, ◌<◌, ◌≡◌, refl, sym, ap, ap₂, ◌∙◌, subst, true, ◌||◌, [], get_or, All, All-append, arith,
  ◌⊎◌, inl, inr,
}
use orcashi.CString.Text.{Bytes}
use orcashi.SimOpen.Types.{syncing, is_established, Session, Net, bytes}
use orcashi.SimOpen.Packet.{SimPacket, build_packet}
use orcashi.SimOpen.Session.{
  simultaneous_open_send_packet, take_packet, simultaneous_open_wait_for_sync,
  simultaneous_open_send, type_sync,
}
use orcashi.SimOpen.Cases.{send_packet-cases, wait-cases}
use orcashi.SimOpen.Holds.{
  Carries, nothing-Carries, Holds, sent-Holds, take_sync-Holds, wait-Holds, say-Holds,
}
use orcashi.SimOpen.Waiting.{
  take_packet-sync, IsSync, All-get, nothing-IsSync, built-IsSync, wait_nothing, say_early,
}

-- The session that connects, and the one that accepts.
record Pair : Type 0 where
  first : Session
  second : Session

-- A step of either: the first sends its SYNC again, one of them waits and hears exactly one packet
-- that the other has sent at any time, or sends data. Reading the data is no step.
data Step : Pair → Pair → Type 0 where
  resent :
      (p : Pair) (h : Net)
      → Step p (record p { first = (simultaneous_open_send_packet h type_sync [] p.first).1 })
  first_hears :
      (p : Pair) (h : Net) (i : ℕ)
      → Step p (record p {
        first = (simultaneous_open_wait_for_sync h (bytes (get_or p.second.sent i [])) p.first).1;
      })
  second_hears :
      (p : Pair) (h : Net) (i : ℕ)
      → Step p (record p {
        second = (simultaneous_open_wait_for_sync h (bytes (get_or p.first.sent i [])) p.second).1;
      })
  first_says :
      (p : Pair) (h : Net) (text : Bytes)
      → Step p (record p { first = (simultaneous_open_send h text p.first).1 })
  second_says :
      (p : Pair) (h : Net) (text : Bytes)
      → Step p (record p { second = (simultaneous_open_send h text p.second).1 })

data Reach (p : Pair) : Pair → Type 0 where
  here : Reach p p
  next : {q r : Pair} → Reach p q → Step q r → Reach p r

-- The second has heard nothing yet, and the first has sent nothing but its SYNC.
record IsFresh (t : ℕ) (p : Pair) : Type 0 where
  holds : Holds t p.first
  syncs : All IsSync p.first.sent
  waiting : p.first.state ≡ syncing
  silent : p.second.sent ≡ []
  accepting : p.second.state ≡ syncing

record IsJoined (t : ℕ) (p : Pair) : Type 0 where
  first : Holds t p.first
  second : Holds t p.second

module _ {t : ℕ} (small : t < 2 ^ 32) where
  -- The first SYNC that the second hears.
  join :
      (h : Net) (b : Bytes) {s : Session}
      → Carries t b
      → IsSync b
      → s.sent ≡ []
      → ((simultaneous_open_wait_for_sync h (bytes b) s).1 ≡ s)
        ⊎ Holds t (simultaneous_open_wait_for_sync h (bytes b) s).1
  join h b {s} c k e = elim (wait-cases h b s) [
    | inl u ↦ inl u
    | inr (packet, (payload, (r, u))) ↦
        inr (subst (Holds t) (sym u) (heard packet (k packet payload r) (c packet payload r)))
  ]
    where
      heard :
          (packet : SimPacket)
          → packet.type ≡ 1
          → packet.sync_token ≡ t
          → Holds t (take_packet h packet (record s { last_activity = h.now }))
      heard packet q w =
          subst (Holds t) (sym (take_packet-sync h packet (record s { last_activity = h.now }) q)) (
            take_sync-Holds small h packet.sync_token (record s { last_activity = h.now }) w
              (subst (All (Carries t)) (sym e) tt))

  Step-IsJoined : {p q : Pair} → Step p q → IsJoined t p → IsJoined t q
  Step-IsJoined (resent p h) v = record {
    first = sent-Holds small h type_sync [] (omega arith) v.first;
    second = v.second;
  }
  Step-IsJoined (first_hears p h i) v = record {
    first =
        wait-Holds small h _
          (All-get (Carries t) p.second.sent i [] (nothing-Carries t) v.second.said) v.first;
    second = v.second;
  }
  Step-IsJoined (second_hears p h i) v = record {
    first = v.first;
    second =
        wait-Holds small h _
          (All-get (Carries t) p.first.sent i [] (nothing-Carries t) v.first.said) v.second;
  }
  Step-IsJoined (first_says p h text) v = record {
    first = say-Holds small h text v.first;
    second = v.second;
  }
  Step-IsJoined (second_says p h text) v = record {
    first = v.first;
    second = say-Holds small h text v.second;
  }

  Step-IsFresh : {p q : Pair} → Step p q → IsFresh t p → IsFresh t q ⊎ IsJoined t q
  Step-IsFresh (resent p h) v = elim (send_packet-cases h type_sync [] p.first) [
    | inl e ↦ inl (record {
      holds = keeps;
      syncs = subst (λ s. All IsSync s.sent) (sym e) v.syncs;
      waiting = ap (λ s. s.state) e ∙ v.waiting;
      silent = v.silent;
      accepting = v.accepting;
    })
    | inr e ↦ inl (record {
      holds = keeps;
      syncs =
          subst (λ s. All IsSync s.sent) (sym e)
            (All-append IsSync p.first.sent _ v.syncs (another, tt));
      waiting = ap (λ s. s.state) e ∙ v.waiting;
      silent = v.silent;
      accepting = v.accepting;
    })
  ]
    where
      keeps : Holds t (simultaneous_open_send_packet h type_sync [] p.first).1
      keeps = sent-Holds small h type_sync [] (omega arith) v.holds

      another : IsSync (build_packet h.now type_sync p.first.sync_token [])
      another =
          subst (λ k. IsSync (build_packet h.now type_sync k [])) (sym v.holds.token)
            (built-IsSync h.now t small)
  Step-IsFresh (first_hears p h i) v = inl (
      same (
        ap (λ bs. (simultaneous_open_wait_for_sync h (bytes (get_or bs i [])) p.first).1) v.silent
        ∙ wait_nothing h p.first))
    where
      same : {s : Session} → s ≡ p.first → IsFresh t (record p { first = s })
      same e = subst (λ s. IsFresh t (record p { first = s })) (sym e) v
  Step-IsFresh (second_hears p h i) v =
      elim (join h (get_or p.first.sent i [])
        (All-get (Carries t) p.first.sent i [] (nothing-Carries t) v.holds.said)
        (All-get IsSync p.first.sent i [] nothing-IsSync v.syncs) v.silent) [
          | inl e ↦ inl (subst (λ s. IsFresh t (record p { second = s })) (sym e) v)
          | inr w ↦ inr (record { first = v.holds; second = w })
        ]
  Step-IsFresh (first_says p h text) v =
      inl (
        subst (λ s. IsFresh t (record p { first = s })) (sym (say_early h text p.first v.waiting))
          v)
  Step-IsFresh (second_says p h text) v = inl (
      subst (λ s. IsFresh t (record p { second = s })) (sym (say_early h text p.second v.accepting))
        v)

  Reach-cases : {p q : Pair} → IsFresh t p → Reach p q → IsFresh t q ⊎ IsJoined t q
  Reach-cases v here = inl v
  Reach-cases v (next r s) = elim (Reach-cases v r) [
    | inl w ↦ Step-IsFresh s w
    | inr w ↦ inr (Step-IsJoined s w)
  ]

-- A session connects and another accepts, both wait for the other and have sent nothing. Where each
-- wait hears exactly one packet, whatever is lost, repeated or heard late, and whatever data they
-- send, as long as neither closes nor reads data: once
-- either of them is established, both have the token that the one that connects had at first.
agreed :
    (p q : Pair)
    → p.first.sync_token < 2 ^ 32
    → p.first.state ≡ syncing
    → p.second.state ≡ syncing
    → p.first.sent ≡ []
    → p.second.sent ≡ []
    → Reach p q
    → (is_established q.first.state || is_established q.second.state) ≡ true
    → (q.first.sync_token ≡ p.first.sync_token) × (q.second.sync_token ≡ p.first.sync_token)
agreed p q small w1 w2 s1 s2 r est = elim (Reach-cases small start r) [
  | inl f ↦ absurd (not_yet f)
  | inr j ↦ (j.first.token, j.second.token)
]
  where
    start : IsFresh p.first.sync_token p
    start = record {
      holds = record { token = refl; said = subst (All (Carries p.first.sync_token)) (sym s1) tt };
      syncs = subst (All IsSync) (sym s1) tt;
      waiting = w1;
      silent = s2;
      accepting = w2;
    }

    not_yet : IsFresh p.first.sync_token q → ⊥
    not_yet f = cc (ap₂ (λ x y. is_established x || is_established y) f.waiting f.accepting, est)
