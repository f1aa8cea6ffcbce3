-- ===== src/Orders/Sync/Rules.antt =====
-- The rules of `calculate_order_status`, orders/order_status_sync.py, without their order.
use zuvi_web.Prelude.{
  Bool, true, false, not, ◌&&◌, ◌||◌, List, [], ◌∷◌, ◌≡◌, refl, sym, ◌∙◌, subst, inl, inr,
  Bool-cases, any, all, select, if◌then◌else◌, arith,
}
use mathlib.Core.Quot
use mathlib.Core.Quot.{Quot}
use zuvi_web.Orders.Model.{
  OrderStatus, StoreOrderStatus, same_store_order_status, same_store_order_status→eq,
  same_store_order_status_refl,
}
use zuvi_web.Orders.Status.{non_chargeable}
use zuvi_web.Orders.Sync.{
  is_nil, ready_tier, processing, is_completed, is_pending, is_accepted, calculate_order_status,
}

abbrev pub chargeable : StoreOrderStatus → Bool
unfolding non_chargeable
chargeable s = not (non_chargeable s)

-- Active and not yet delivered.
abbrev pub unfinished : StoreOrderStatus → Bool
unfinished s = chargeable s && not (is_completed s)

abbrev pub begun : StoreOrderStatus → Bool
begun s = chargeable s && not (is_pending s)

abbrev pub advanced : StoreOrderStatus → Bool
advanced s = begun s && not (is_accepted s)

-- The status by what occurs among the store orders, wherever it occurs.
abbrev pub described_status : List StoreOrderStatus → OrderStatus
unfolding non_chargeable
described_status ss =
    if any chargeable ss
    then if any unfinished ss
      then if any non_chargeable ss
        then OrderStatus.partially_cancelled
        else if any advanced ss
        then OrderStatus.in_progress
        else if any begun ss
        then OrderStatus.confirmed
        else OrderStatus.placed
      else OrderStatus.completed
    else if any non_chargeable ss
    then OrderStatus.cancelled
    else OrderStatus.placed

abbrev active : List StoreOrderStatus → List StoreOrderStatus
active ss = select chargeable ss

nil-active : (ss : List StoreOrderStatus) → is_nil (active ss) ≡ not (any chargeable ss)
nil-active [] = refl
nil-active (s ∷ ss) = ground (arith, nil-active ss)

nil-all :
    (ss : List StoreOrderStatus)
    → is_nil ss ≡ not (any chargeable ss) && not (any non_chargeable ss)
unfolding non_chargeable
nil-all [] = refl
nil-all (s ∷ ss) = ground (arith, nil-all ss)

all-active :
    (p : StoreOrderStatus → Bool) (ss : List StoreOrderStatus)
    → all p (active ss) ≡ not (any (λ s. chargeable s && not (p s)) ss)
all-active p [] = refl
all-active p (s ∷ ss) = ground (arith, all-active p ss)

any-active :
    (p : StoreOrderStatus → Bool) (ss : List StoreOrderStatus)
    → any p (active ss) ≡ any (λ s. chargeable s && p s) ss
any-active p [] = refl
any-active p (s ∷ ss) = ground (arith, any-active p ss)

-- Where some member passes `p`, and whatever passes `p` passes `q` or `r`.
any-cover :
    (p q r : StoreOrderStatus → Bool)
    → ((s : StoreOrderStatus) → p s ≡ true → (q s || r s) ≡ true)
    → (ss : List StoreOrderStatus) → any p ss ≡ true
    → (any q ss || any r ss) ≡ true
any-cover p q r h [] k = cc
any-cover p q r h (s ∷ ss) k = ground (arith, h s, any-cover p q r h ss)

module _ (ss : List StoreOrderStatus) where
  ready-advanced :
      any chargeable ss ≡ true → all ready_tier (active ss) ≡ true → any advanced ss ≡ true
  unfolding ready_tier non_chargeable
  ready-advanced a r = ground (
    arith,
    all-active ready_tier ss,
    any-cover chargeable (λ s. chargeable s && not (ready_tier s)) advanced (λ s c. ground arith)
        ss,
  )

  processing-advanced : any processing (active ss) ≡ true → any advanced ss ≡ true
  unfolding processing non_chargeable
  processing-advanced p = ground (
    arith,
    any-active processing ss,
    any-cover (λ s. chargeable s && processing s) advanced advanced (λ s c. ground arith) ss,
  )

  begun-accepted : any advanced ss ≡ false → any is_accepted (active ss) ≡ any begun ss
  unfolding non_chargeable
  begun-accepted v = ground (
    arith,
    any-active is_accepted ss,
    any-cover (λ s. chargeable s && is_accepted s) begun begun (λ s c. ground arith) ss,
    any-cover begun (λ s. chargeable s && is_accepted s) advanced (λ s c. ground arith) ss,
  )

  begun-pending : all is_pending (active ss) ≡ not (any begun ss)
  begun-pending = all-active is_pending ss

  advanced-early : all (λ s. is_pending s || is_accepted s) (active ss) ≡ not (any advanced ss)
  unfolding non_chargeable
  advanced-early = ground (
    arith,
    all-active (λ s. is_pending s || is_accepted s) ss,
    any-cover (λ s. chargeable s && not (is_pending s || is_accepted s)) advanced advanced
        (λ s c. ground arith) ss,
    any-cover advanced (λ s. chargeable s && not (is_pending s || is_accepted s))
        (λ s. chargeable s && not (is_pending s || is_accepted s)) (λ s c. ground arith) ss,
  )

  advanced-begun : any advanced ss ≡ true → any begun ss ≡ true
  unfolding non_chargeable
  advanced-begun v = ground (arith, any-cover advanced begun begun (λ s c. ground arith) ss)

-- The rules in their order come to the description, in which rules 5 and 6 are part of the last.
pub calculate_order_status_described :
    (ss : List StoreOrderStatus) → calculate_order_status ss ≡ described_status ss
unfolding calculate_order_status non_chargeable
calculate_order_status_described ss = ground (
  arith,
  nil-active ss,
  nil-all ss,
  all-active is_completed ss,
  ready-advanced ss,
  processing-advanced ss,
  begun-accepted ss,
  begun-pending ss,
  advanced-early ss,
  advanced-begun ss,
)

abbrev pub occurs : StoreOrderStatus → List StoreOrderStatus → Bool
occurs k ss = any (same_store_order_status k) ss

-- The abstract view of an order's store orders: which statuses occur among them.
abbrev pub SameKinds : List StoreOrderStatus → List StoreOrderStatus → Type 0
SameKinds xs ys = (k : StoreOrderStatus) → occurs k xs ≡ occurs k ys

any-occurs :
    (p : StoreOrderStatus → Bool) (xs : List StoreOrderStatus)
    → any p xs ≡ true
    → (k : StoreOrderStatus) × (p k ≡ true) × (occurs k xs ≡ true)
any-occurs p [] h = cc
any-occurs p (x ∷ xs) h = elim (Bool-cases (p x)) [
  | inl here ↦ (x, here, ground (arith, same_store_order_status_refl x))
  | inr other ↦ let (k, pk, there) = any-occurs p xs (ground arith) in (k, pk, ground arith)
]

occurs-any :
    (p : StoreOrderStatus → Bool) (k : StoreOrderStatus) (xs : List StoreOrderStatus)
    → p k ≡ true
    → occurs k xs ≡ true
    → any p xs ≡ true
occurs-any p k [] h m = cc
occurs-any p k (x ∷ xs) h m = elim (Bool-cases (same_store_order_status k x)) [
  | inl here ↦
      let px : p x ≡ true = subst (λ s. p s ≡ true) (same_store_order_status→eq k x here) h in
      ground arith
  | inr other ↦ ground (arith, occurs-any p k xs h)
]

any-kinds :
    (p : StoreOrderStatus → Bool) (xs ys : List StoreOrderStatus)
    → SameKinds xs ys
    → any p xs ≡ true
    → any p ys ≡ true
any-kinds p xs ys e h =
    let (k, pk, there) = any-occurs p xs h in occurs-any p k ys pk (sym (e k) ∙ there)

any-same :
    (p : StoreOrderStatus → Bool) (xs ys : List StoreOrderStatus)
    → SameKinds xs ys
    → any p xs ≡ any p ys
any-same p xs ys e = ground (arith, any-kinds p xs ys e, any-kinds p ys xs (λ k. sym (e k)))

-- Where the same statuses occur, in whatever order and however often, the calculated status is the
-- same.
pub calculate_order_status_kinds :
    (xs ys : List StoreOrderStatus)
    → SameKinds xs ys
    → calculate_order_status xs ≡ calculate_order_status ys
unfolding non_chargeable
calculate_order_status_kinds xs ys e =
    calculate_order_status_described xs
    ∙ ground (
      arith,
      any-same chargeable xs ys e,
      any-same unfinished xs ys e,
      any-same non_chargeable xs ys e,
      any-same advanced xs ys e,
      any-same begun xs ys e,
    )
    ∙ sym (calculate_order_status_described ys)

-- The calculation, on the abstract view.
pub status_of_kinds : Quot SameKinds → OrderStatus
status_of_kinds = Quot.lift (hlevel) calculate_order_status calculate_order_status_kinds
