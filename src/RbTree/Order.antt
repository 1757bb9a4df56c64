-- ===== src/RbTree/Order.antt =====
-- The order of the tree of ngx_metric_module/src/ngx_http_vhost_traffic_status_module.c: by hash,
-- and by name where hashes agree.
use Prim.Native.Nat.Ordering.{lt, eq, gt}
use metrics_server_example.Base.{
  Bool-cases, inl, inr, All-split, All-append, All-mono, ℕ, ◌≡◌, refl, Option, none, some, List, [],
  ◌∷◌, ◌++◌, Ordering, compare, ◌==◌, arith, All,
}
use metrics_server_example.Text.{Bytes}
use metrics_server_example.RbTree.{RbNode, name, Nginx, IsLawful, remove}

abbrev pub or_else {ℓ} : {A : Type ℓ} → Option A → Option A → Option A
or_else none b = b
or_else (some a) b = some a

module _ (ngx : Nginx) where
  abbrev pub order : ℕ → Bytes → RbNode → Ordering
  order h k m = elim (compare h m.key) [ lt ↦ lt | eq ↦ ngx.memn2cmp k (name m) | gt ↦ gt ]

  abbrev pub Lt : RbNode → RbNode → Type 0
  Lt a b = order a.key (name a) b ≡ lt

  abbrev pub Sorted : List RbNode → Type 0
  Sorted [] = Unit
  Sorted (m ∷ ms) = All (Lt m) ms × Sorted ms

  -- The node of a key, wherever it stands.
  unfoldable pub find : List RbNode → Bytes → ℕ → Option RbNode
  find [] k h = none
  find (m ∷ ms) k h = elim (order h k m) [ eq ↦ some m | _ ↦ find ms k h ]

module _ (ngx : Nginx) (law : IsLawful ngx) where
  pub order_trans :
      (h : ℕ) (k : Bytes) (a b : RbNode) → order ngx h k a ≡ lt → Lt ngx a b → order ngx h k b ≡ lt
  order_trans h k a b p q = ground (arith, law.lt_trans k (name a) (name b))

  order-gt_trans :
      (h : ℕ) (k : Bytes) (a b : RbNode) → Lt ngx a b → order ngx h k b ≡ gt → order ngx h k a ≡ gt
  order-gt_trans h k a b p q =
      ground
        (arith, law.lt_of_gt k (name b), law.lt_trans (name a) (name b) k, law.gt_of_lt (name a) k)

  order-eq-gt :
      (h : ℕ) (k : Bytes) (a b : RbNode) → Lt ngx a b → order ngx h k b ≡ eq → order ngx h k a ≡ gt
  order-eq-gt h k a b p q =
      ground
        (arith, law.eq_of_cmp k (name b), law.gt_of_lt (name a) (name b), law.gt_of_lt (name a) k)

  -- A sorted list is sorted on both sides of any of its nodes.
  pub Sorted-append :
      (xs : List RbNode) (m : RbNode) (ys : List RbNode)
      → Sorted ngx (xs ++ m ∷ ys)
      → All (λ x. Lt ngx x m) xs × Sorted ngx xs × All (Lt ngx m) ys × Sorted ngx ys
  Sorted-append [] m ys s = (tt, tt, s.0, s.1)
  Sorted-append (x ∷ xs) m ys s =
      let (rest, over) = All-split (Lt ngx x) xs (m ∷ ys) s.0 in
      let (below, sorted, above, sorted') = Sorted-append xs m ys s.1 in
      ((over.0, below), (rest, sorted), above, sorted')

  -- Nodes below `m` and nodes above it, with `m` between them, are sorted.
  pub Sorted-insert :
      (xs : List RbNode) (m : RbNode) (ys : List RbNode)
      → Sorted ngx (xs ++ ys)
      → All (λ x. Lt ngx x m) xs
      → All (Lt ngx m) ys
      → Sorted ngx (xs ++ m ∷ ys)
  Sorted-insert [] m ys s below above = (above, s)
  Sorted-insert (x ∷ xs) m ys s below above =
      let (rest, over) = All-split (Lt ngx x) xs ys s.0 in
      (
        All-append (Lt ngx x) xs (m ∷ ys) rest (below.0, over),
        Sorted-insert xs m ys s.1 below.1 above,
      )

  pub find-append :
      (xs ys : List RbNode) (k : Bytes) (h : ℕ)
      → find ngx (xs ++ ys) k h ≡ or_else (find ngx xs k h) (find ngx ys k h)
  unfolding find
  find-append [] ys k h = refl
  find-append (x ∷ xs) ys k h = ground (arith, find-append xs ys k h)

  find-none :
      (xs : List RbNode) (k : Bytes) (h : ℕ)
      → All (λ x. order ngx h k x ≡ lt) xs
      → find ngx xs k h ≡ none
  unfolding find
  find-none [] k h a = refl
  find-none (x ∷ xs) k h a = ground (arith, a.0, find-none xs k h a.1)

  -- Where a node is above the key, so is all that follows it.
  pub find_above :
      (m : RbNode) (ms : List RbNode) (k : Bytes) (h : ℕ)
      → order ngx h k m ≡ lt
      → All (Lt ngx m) ms
      → find ngx (m ∷ ms) k h ≡ none
  find_above m ms k h e a =
      find-none (m ∷ ms) k h (e, All-mono (Lt ngx m) ms (λ x. order_trans h k m x e) a)

  -- Where a node is below the key, so is all that stands before it.
  pub find_below :
      (xs : List RbNode) (m : RbNode) (k : Bytes) (h : ℕ)
      → order ngx h k m ≡ gt
      → All (λ x. Lt ngx x m) xs
      → find ngx xs k h ≡ none
  unfolding find
  find_below [] m k h e a = refl
  find_below (x ∷ xs) m k h e a =
      ground (arith, order-gt_trans h k x m a.0 e, find_below xs m k h e a.1)

  -- Nothing before the node of a key has that key.
  pub find_before :
      (xs : List RbNode) (m : RbNode) (k : Bytes) (h : ℕ)
      → order ngx h k m ≡ eq
      → All (λ x. Lt ngx x m) xs
      → find ngx xs k h ≡ none
  unfolding find
  find_before [] m k h e a = refl
  find_before (x ∷ xs) m k h e a =
      ground (arith, order-eq-gt h k x m a.0 e, find_before xs m k h e a.1)

pub All-remove {κ} :
    (P : RbNode → Type κ) (a : ℕ) (ms : List RbNode) → All P ms → All P (remove a ms)
unfolding remove
All-remove P a [] h = tt
All-remove P a (m ∷ ms) h = elim (Bool-cases (m.addr == a)) [
  | inl e ↦ rw e h.1
  | inr e ↦ rw e (h.0, All-remove P a ms h.1)
]

-- What is left of a sorted list is sorted.
pub Sorted-remove :
    (ngx : Nginx) (a : ℕ) (ms : List RbNode) → Sorted ngx ms → Sorted ngx (remove a ms)
unfolding remove
Sorted-remove ngx a [] s = tt
Sorted-remove ngx a (m ∷ ms) s = elim (Bool-cases (m.addr == a)) [
  | inl e ↦ rw e s.1
  | inr e ↦ rw e (All-remove (Lt ngx m) a ms s.0, Sorted-remove ngx a ms s.1)
]
