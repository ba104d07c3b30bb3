-- ===== src/Strategy/Fit.antt =====
-- strategy_selector.c: what the filter selects.
use orcashi.Prelude.{
  ℕ, zero, suc, ◌≤◌, ◌≡◌, refl, sym, ◌∙◌, Bool, true, false, List, [], ◌∷◌, ◌++◌, if◌then◌else◌,
  Bool-cases, inl, inr, arith, All, length, get_elem?, some, ◌↔◌, map,
}
use orcashi.Strategy.Types.{
  StrategyType, PeerProfile, no_strategy, ipv6_direct, upnp, udp_punch, ttl_punch,
  simultaneous_open, port_prediction, tcp_punch, friend_relay, turn_relay, manual_port, later_info,
}
use orcashi.Strategy.Select.{
  strategy_is_applicable, filter_priority, filter_from, strategy_filter, strategy_get_priority,
  strategy_get_info, find_info,
}
use orcashi.Strategy.Sort.{IsSorted, sort_sorted, strategy_sort_by_priority}

-- The strategies by priority.
abbrev pub by_priority : List StrategyType
by_priority = map (λ i. i.type) later_info

-- The entries of a list that fit two peers.
unfoldable pub fitting : List StrategyType → PeerProfile → PeerProfile → List StrategyType
fitting [] l r = []
fitting (t ∷ ts) l r =
    let rest = fitting ts l r in if strategy_is_applicable t l r then t ∷ rest else rest

-- A strategy stands in a list.
abbrev pub Has : StrategyType → List StrategyType → Type 0
Has t ts = (i : ℕ) × (get_elem? ts i ≡ some t)

pick :
    (b : Bool) (t : StrategyType) (rest : List StrategyType)
    → (if b then t ∷ [] else []) ++ rest ≡ (if b then t ∷ rest else rest)
pick true t rest = refl
pick false t rest = refl

filter-fitting : (l r : PeerProfile) → strategy_filter l r ≡ fitting by_priority l r
unfolding strategy_filter filter_from filter_priority fitting
filter-fitting l r = simp (pick)

is_applicable_comm :
    (t : StrategyType) (l r : PeerProfile)
    → strategy_is_applicable t l r ≡ strategy_is_applicable t r l
unfolding strategy_is_applicable
is_applicable_comm no_strategy l r = refl
is_applicable_comm ipv6_direct l r = ground arith
is_applicable_comm upnp l r = ground arith
is_applicable_comm udp_punch l r = ground arith
is_applicable_comm ttl_punch l r = refl
is_applicable_comm simultaneous_open l r = ground arith
is_applicable_comm port_prediction l r = ground arith
is_applicable_comm tcp_punch l r = ground arith
is_applicable_comm friend_relay l r = ground arith
is_applicable_comm turn_relay l r = refl
is_applicable_comm manual_port l r = refl

fitting_comm : (ts : List StrategyType) (l r : PeerProfile) → fitting ts l r ≡ fitting ts r l
unfolding fitting
fitting_comm [] l r = refl
fitting_comm (t ∷ ts) l r = rw (is_applicable_comm t l r, fitting_comm ts l r)

-- Two peers that exchange their profiles select the same strategies in the same order,
-- whichever of them is the local one.
pub filter_comm : (l r : PeerProfile) → strategy_filter l r ≡ strategy_filter r l
filter_comm l r = filter-fitting l r ∙ fitting_comm by_priority l r ∙ sym (filter-fitting r l)

module _ (l r : PeerProfile) where
  fitting-All :
      (P : StrategyType → Type 0) (ts : List StrategyType) → All P ts → All P (fitting ts l r)
  unfolding fitting
  fitting-All P [] h = tt
  fitting-All P (t ∷ ts) (ht, h) = elim (Bool-cases (strategy_is_applicable t l r)) [
    | inl e ↦ rw e (ht, fitting-All _ ts h)
    | inr e ↦ rw e (fitting-All _ ts h)
  ]

  fitting-IsSorted : (ts : List StrategyType) → IsSorted ts → IsSorted (fitting ts l r)
  unfolding fitting
  fitting-IsSorted [] h = tt
  fitting-IsSorted (t ∷ ts) (ht, h) = elim (Bool-cases (strategy_is_applicable t l r)) [
    | inl e ↦ rw e (fitting-All _ ts ht, fitting-IsSorted ts h)
    | inr e ↦ rw e (fitting-IsSorted ts h)
  ]

  length-fitting : (ts : List StrategyType) → length (fitting ts l r) ≤ length ts
  unfolding fitting
  length-fitting [] = omega arith
  length-fitting (t ∷ ts) = ground (arith, length-fitting ts)

  fits-Has :
      (t : StrategyType) (ts : List StrategyType) (i : ℕ)
      → get_elem? ts i ≡ some t
      → strategy_is_applicable t l r ≡ true
      → Has t (fitting ts l r)
  unfolding fitting
  fits-Has t [] i e f = absurd (ground arith)
  fits-Has t (x ∷ xs) zero e f = elim (Bool-cases (strategy_is_applicable x l r)) [
    | inl h ↦ rw h (0, e)
    | inr h ↦ absurd (ground arith)
  ]
  fits-Has t (x ∷ xs) (suc i) e f =
      let (j, k) = fits-Has t xs i e f in
      elim (Bool-cases (strategy_is_applicable x l r)) [
        | inl h ↦ rw h (suc j, k)
        | inr h ↦ rw h (j, k)
      ]

  Has-fits :
      (t : StrategyType) (ts : List StrategyType) (i : ℕ)
      → get_elem? (fitting ts l r) i ≡ some t
      → strategy_is_applicable t l r ≡ true
  unfolding fitting
  Has-fits t [] i e = absurd (ground arith)
  Has-fits t (x ∷ xs) i e = elim (Bool-cases (strategy_is_applicable x l r)) [
    | inl h ↦ at_head h (Has-fits t xs) i (rw h at e)
    | inr h ↦ Has-fits t xs i (rw h at e)
  ]
    where
      at_head :
          strategy_is_applicable x l r ≡ true
          → ((j : ℕ) → get_elem? (fitting xs l r) j ≡ some t → strategy_is_applicable t l r ≡ true)
          → (i : ℕ) → get_elem? (x ∷ fitting xs l r) i ≡ some t
          → strategy_is_applicable t l r ≡ true
      at_head h below zero e = ground arith
      at_head h below (suc i) e = below i e

by_priority-Has :
    (t : StrategyType) (l r : PeerProfile) → strategy_is_applicable t l r ≡ true → Has t by_priority
unfolding strategy_is_applicable
by_priority-Has no_strategy l r e = absurd (ground arith)
by_priority-Has ipv6_direct l r e = (0, refl)
by_priority-Has upnp l r e = (1, refl)
by_priority-Has udp_punch l r e = (2, refl)
by_priority-Has ttl_punch l r e = (3, refl)
by_priority-Has simultaneous_open l r e = (4, refl)
by_priority-Has port_prediction l r e = (5, refl)
by_priority-Has tcp_punch l r e = (6, refl)
by_priority-Has friend_relay l r e = (7, refl)
by_priority-Has turn_relay l r e = (8, refl)
by_priority-Has manual_port l r e = (9, refl)

by_priority-IsSorted : IsSorted by_priority
unfolding strategy_get_priority strategy_get_info find_info
by_priority-IsSorted = ground arith

-- A strategy is selected exactly where it fits the two peers. The selected strategies stand
-- in the order of their priorities, which sorting keeps, and are at most ten.
pub filter-selects :
    (t : StrategyType) (l r : PeerProfile)
    → (Has t (strategy_filter l r) ↔ (strategy_is_applicable t l r ≡ true))
      × (IsSorted (strategy_filter l r)
          × ((strategy_sort_by_priority (strategy_filter l r) ≡ strategy_filter l r)
              × (length (strategy_filter l r) ≤ 10)))
filter-selects t l r = rw (filter-fitting l r) (
  (
    (λ (i, e). Has-fits l r t by_priority i e),
    λ f. let (i, e) = by_priority-Has t l r f in fits-Has l r t by_priority i e f,
  ),
  (sorted, (sort_sorted (fitting by_priority l r) sorted, length-fitting l r by_priority)),
)
  where
    sorted : IsSorted (fitting by_priority l r)
    sorted = fitting-IsSorted l r by_priority by_priority-IsSorted
