-- ===== src/Strategy/Sort.antt =====
-- strategy_selector.c: sorting a list of strategies.
use mathlib.Core.List.{Perm}
use mathlib.Core.List.Perm
use orcashi.Prelude.{
  ℕ, zero, suc, ◌-◌, ◌≤◌, ◌≡◌, refl, ap, List, [], ◌∷◌, ltb, if◌then◌else◌, Bool-cases, inl, inr,
  arith, pred, All, length, drop,
}
use orcashi.Strategy.Types.{StrategyType}
use orcashi.Strategy.Select.{strategy_get_priority}

-- Two entries in the order that the comparison leaves.
unfoldable pub swapped : StrategyType → StrategyType → StrategyType × StrategyType
swapped x y = if ltb (strategy_get_priority y) (strategy_get_priority x) then (y, x) else (x, y)

-- The inner loop: `n` comparisons of neighbours from the front.
unfoldable pub bubble : ℕ → List StrategyType → List StrategyType
unfolding swapped
bubble zero xs = xs
bubble (suc n) [] = []
bubble (suc n) (x ∷ []) = x ∷ []
bubble (suc n) (x ∷ y ∷ xs) = (swapped x y).0 ∷ bubble n ((swapped x y).1 ∷ xs)

-- The outer loop: passes of `n`, then `n - 1` and so on comparisons.
unfoldable pub sort_from : ℕ → List StrategyType → List StrategyType
unfolding bubble
sort_from zero xs = xs
sort_from (suc n) xs = sort_from n (bubble (suc n) xs)

unfoldable pub strategy_sort_by_priority : List StrategyType → List StrategyType
unfolding sort_from
strategy_sort_by_priority xs = sort_from (length xs - 1) xs

-- An entry whose priority is not after that of the other.
abbrev pub Before : StrategyType → StrategyType → Type 0
Before x y = strategy_get_priority x ≤ strategy_get_priority y

-- The pairs of entries whose second one is past index `n` are in order.
abbrev pub Settled : ℕ → List StrategyType → Type 0
Settled n [] = Unit
Settled n (x ∷ xs) = All (Before x) (drop n xs) × Settled (pred n) xs

abbrev pub IsSorted : List StrategyType → Type 0
IsSorted xs = Settled 0 xs

swapped-Before : (x y : StrategyType) → Before (swapped x y).0 (swapped x y).1
unfolding swapped
swapped-Before x y = ground arith

swapped-below :
    (x y z : StrategyType)
    → Before z x
    → Before z y
    → Before z (swapped x y).0 × Before z (swapped x y).1
unfolding swapped
swapped-below x y z h k = ground arith

swapped-All :
    (x y : StrategyType) (xs : List StrategyType)
    → All (Before x) xs
    → All (Before y) xs
    → All (Before (swapped x y).0) xs × All (Before (swapped x y).1) xs
unfolding swapped
swapped-All x y xs h k = ground arith

carried-Before : (x y : StrategyType) → Before x (swapped x y).1
unfolding swapped
carried-Before x y = ground arith

drop-nil : (n : ℕ) → drop {A = StrategyType} n [] ≡ []
drop-nil zero = refl
drop-nil (suc n) = refl

All-drop_nil : (x : StrategyType) (n : ℕ) → All (Before x) (drop n [])
All-drop_nil x n = rw (drop-nil n) tt

-- An entry that is before the carried one stays before what follows the comparisons.
bubble-Before :
    (n : ℕ) (low high : StrategyType) (xs : List StrategyType)
    → Before low high
    → All (Before low) (drop n xs)
    → All (Before low) (drop n (bubble n (high ∷ xs)))
unfolding bubble
bubble-Before zero low high xs h a = (h, a)
bubble-Before (suc n) low high [] h a = All-drop_nil low n
bubble-Before (suc n) low high (y ∷ xs) h a =
    bubble-Before n low (swapped high y).1 xs (omega (arith, h, carried-Before high y)) a

-- One pass settles one more place.
bubble-Settled :
    (n : ℕ) (xs : List StrategyType) → Settled (suc n) xs → Settled n (bubble (suc n) xs)
unfolding bubble
bubble-Settled n [] h = tt
bubble-Settled n (x ∷ []) h = (All-drop_nil x n, tt)
bubble-Settled zero (x ∷ y ∷ xs) (hx, (hy, h)) =
    let (low, high) = swapped-All x y xs hx hy in ((swapped-Before x y, low), (high, h))
bubble-Settled (suc n) (x ∷ y ∷ xs) (hx, (hy, h)) =
    let (low, high) = swapped-All x y (drop (suc n) xs) hx hy in
    (
      bubble-Before (suc n) (swapped x y).0 (swapped x y).1 xs (swapped-Before x y) low,
      bubble-Settled n ((swapped x y).1 ∷ xs) (high, h),
    )

sort_from-IsSorted : (n : ℕ) (xs : List StrategyType) → Settled n xs → IsSorted (sort_from n xs)
unfolding sort_from
sort_from-IsSorted zero xs h = h
sort_from-IsSorted (suc n) xs h = sort_from-IsSorted n (bubble (suc n) xs) (bubble-Settled n xs h)

drop_all : (n : ℕ) (xs : List StrategyType) → length xs ≤ n → drop n xs ≡ []
drop_all n [] h = drop-nil n
drop_all zero (x ∷ xs) h = absurd (omega arith)
drop_all (suc n) (x ∷ xs) h = drop_all n xs (omega arith)

start-Settled : (n : ℕ) (xs : List StrategyType) → length xs ≤ suc n → Settled n xs
start-Settled n [] h = tt
start-Settled n (x ∷ xs) h =
    (rw (drop_all n xs (omega arith)) tt, start-Settled (pred n) xs (omega arith))

swapped-perm :
    (x y : StrategyType) (xs : List StrategyType)
    → Perm ((swapped x y).0 ∷ (swapped x y).1 ∷ xs) (x ∷ y ∷ xs)
unfolding swapped
swapped-perm x y xs = elim (Bool-cases (ltb (strategy_get_priority y) (strategy_get_priority x))) [
  | inl e ↦ rw e (Perm.swap x y xs)
  | inr e ↦ rw e Perm.rfl
]

bubble-perm : (n : ℕ) (xs : List StrategyType) → Perm (bubble n xs) xs
unfolding bubble
bubble-perm zero xs = Perm.rfl
bubble-perm (suc n) [] = Perm.rfl
bubble-perm (suc n) (x ∷ []) = Perm.rfl
bubble-perm (suc n) (x ∷ y ∷ xs) =
    Perm.trans (Perm.cons (swapped x y).0 (bubble-perm n ((swapped x y).1 ∷ xs)))
      (swapped-perm x y xs)

sort_from-perm : (n : ℕ) (xs : List StrategyType) → Perm (sort_from n xs) xs
unfolding sort_from
sort_from-perm zero xs = Perm.rfl
sort_from-perm (suc n) xs =
    Perm.trans (sort_from-perm n (bubble (suc n) xs)) (bubble-perm (suc n) xs)

-- Sorting permutes the list, and leaves no entry whose priority is after that of a later one.
pub sort-IsSorted :
    (xs : List StrategyType)
    → IsSorted (strategy_sort_by_priority xs) × Perm (strategy_sort_by_priority xs) xs
unfolding strategy_sort_by_priority
sort-IsSorted xs = (
  sort_from-IsSorted (length xs - 1) xs (start-Settled (length xs - 1) xs (omega arith)),
  sort_from-perm (length xs - 1) xs,
)

swapped_none : (x y : StrategyType) → Before x y → swapped x y ≡ (x, y)
unfolding swapped
swapped_none x y h = ground arith

bubble_none : (n : ℕ) (xs : List StrategyType) → IsSorted xs → bubble n xs ≡ xs
unfolding bubble
bubble_none zero xs h = refl
bubble_none (suc n) [] h = refl
bubble_none (suc n) (x ∷ []) h = refl
bubble_none (suc n) (x ∷ y ∷ xs) ((hx, hxs), h) =
    rw (swapped_none x y hx) (ap (λ t. x ∷ t) (bubble_none n (y ∷ xs) h))

sort_from_none : (n : ℕ) (xs : List StrategyType) → IsSorted xs → sort_from n xs ≡ xs
unfolding sort_from
sort_from_none zero xs h = refl
sort_from_none (suc n) xs h = rw (bubble_none (suc n) xs h) (sort_from_none n xs h)

-- A list that is in order stays as it is.
pub sort_sorted : (xs : List StrategyType) → IsSorted xs → strategy_sort_by_priority xs ≡ xs
unfolding strategy_sort_by_priority
sort_sorted xs h = sort_from_none (length xs - 1) xs h
