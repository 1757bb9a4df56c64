-- ===== src/Control/Selected.antt =====
-- What a command of ngx_metric_module/src/ngx_http_vhost_traffic_status_control.c is about: the
-- nodes of its range.
use Prim.Native.Nat.Ordering.{eq}
use mathlib.Core.Path.{subst}
use mathlib.Core.Option.{some-ne-none, none-ne-some, some-injective}
use metrics_server_example.Base.{
  ℕ, ◌≡◌, ◌≢◌, refl, ap, sym, ◌∙◌, inl, inr, ◌⊎◌, Bool, true, false, none, some, List, [], ◌∷◌,
  ◌++◌, arith, if◌then◌else◌, All, All-split, All-mono, Bool-cases, Option-cases, Ordering-cases,
}
use metrics_server_example.Text.{Bytes}
use metrics_server_example.Key.{generate_key}
use metrics_server_example.RbTree.{RbNode, Tree, inorder, name, Nginx, IsLawful}
use metrics_server_example.RbTree.Order.{order, Lt, Sorted, find}
use metrics_server_example.RbTree.Lookup.{lookup-find}
use metrics_server_example.Zone.Update.{Distinct}
use metrics_server_example.Control.{
  Control, Range, range_none, range_all, range_group, range_zone, group_number, in_group, Pool,
  zone_node,
}

-- A node has the hash and the name.
unfoldable pub is_key : Nginx → ℕ → Bytes → RbNode → Bool
is_key ngx h k m = elim (order ngx h k m) [ eq ↦ true | _ ↦ false ]

-- The key of a command for one zone.
unfoldable pub zone_key : Control → Bytes
zone_key c = (generate_key true c.zone (group_number c.selector)).1

-- The node that a command for one zone is about.
unfoldable pub zone_selects : Nginx → Control → RbNode → Bool
unfolding zone_key
zone_selects ngx c m = is_key ngx (ngx.crc32_short (zone_key c)) (zone_key c) m

-- The nodes that a command is about.
unfoldable pub selects : Nginx → Control → RbNode → Bool
unfolding zone_selects
selects ngx c m = elim c.range [
  | range_none ↦ false
  | range_all ↦ true
  | range_group ↦ in_group c.selector m
  | range_zone ↦ zone_selects ngx c m
]

module _ (P : RbNode → Bool) where
  unfoldable pub chosen : List RbNode → List RbNode
  chosen [] = []
  chosen (m ∷ ms) = if P m then m ∷ chosen ms else chosen ms

  unfoldable pub unchosen : List RbNode → List RbNode
  unchosen [] = []
  unchosen (m ∷ ms) = if P m then unchosen ms else m ∷ unchosen ms

  pub chosen-append : (xs ys : List RbNode) → chosen (xs ++ ys) ≡ chosen xs ++ chosen ys
  unfolding chosen
  chosen-append [] ys = refl
  chosen-append (x ∷ xs) ys = ground (arith, chosen-append xs ys)

  pub unchosen-append : (xs ys : List RbNode) → unchosen (xs ++ ys) ≡ unchosen xs ++ unchosen ys
  unfolding unchosen
  unchosen-append [] ys = refl
  unchosen-append (x ∷ xs) ys = ground (arith, unchosen-append xs ys)

  pub chosen-none :
      (xs : List RbNode) → All (λ x. P x ≡ false) xs → (chosen xs ≡ []) × (unchosen xs ≡ xs)
  unfolding chosen unchosen
  chosen-none [] h = (refl, refl)
  chosen-none (x ∷ xs) h = ground (arith, h.0, chosen-none xs h.1)

-- Where a node of the key stands: alone among the others.
pub record Alone (P : RbNode → Bool) (m : RbNode) (ms : List RbNode) : Type 0 where
  pub left : List RbNode
  pub right : List RbNode
  pub whole : ms ≡ left ++ m ∷ right
  pub hit : P m ≡ true
  pub before : All (λ x. P x ≡ false) left
  pub after : All (λ x. P x ≡ false) right

module _ (ngx : Nginx) (law : IsLawful ngx) (h : ℕ) (k : Bytes) where
  find-is_key :
      (m : RbNode) (ms : List RbNode)
      → find ngx (m ∷ ms) k h ≡ (if is_key ngx h k m then some m else find ngx ms k h)
  unfolding find is_key
  find-is_key m ms = elim (Ordering-cases (order ngx h k m)) [
    | inl e ↦ ground (arith, e)
    | inr (inl e) ↦ ground (arith, e)
    | inr (inr e) ↦ ground (arith, e)
  ]

  pub find-none_key :
      (ms : List RbNode) → find ngx ms k h ≡ none → All (λ x. is_key ngx h k x ≡ false) ms
  find-none_key [] e = tt
  find-none_key (m ∷ ms) e =
      let e' = sym (find-is_key m ms) ∙ e in
      elim (Bool-cases (is_key ngx h k m)) [
        | inl hit ↦ absurd (some-ne-none m (ground (arith, hit, e')))
        | inr miss ↦ (miss, find-none_key ms (ground (arith, miss, e')))
      ]

  pub find-missing :
      (ms : List RbNode) → All (λ x. is_key ngx h k x ≡ false) ms → find ngx ms k h ≡ none
  find-missing [] a = unfold find in refl
  find-missing (m ∷ ms) a = find-is_key m ms ∙ ground (arith, a.0, find-missing ms a.1)

  key-after : (a b : RbNode) → is_key ngx h k a ≡ true → Lt ngx a b → is_key ngx h k b ≡ false
  unfolding is_key
  key-after a b p q = ground (arith, law.eq_of_cmp k (name a))

  pub find-Alone :
      (ms : List RbNode) (m : RbNode)
      → Sorted ngx ms
      → find ngx ms k h ≡ some m
      → Alone (is_key ngx h k) m ms
  find-Alone [] m s e = unfold find in absurd (none-ne-some m e)
  find-Alone (x ∷ ms) m s e =
      let e' = sym (find-is_key x ms) ∙ e in
      elim (Bool-cases (is_key ngx h k x)) [
        | inl hit ↦
            let same : x ≡ m = some-injective x m (ground (arith, hit, e')) in
            record {
              left = [];
              right = ms;
              whole = ap (λ y. y ∷ ms) same;
              hit = subst (λ y. is_key ngx h k y ≡ true) same hit;
              before = tt;
              after = All-mono (Lt ngx x) ms (λ y. key-after x y hit) s.0;
            }
        | inr miss ↦
            let rest = find-Alone ms m s.1 (ground (arith, miss, e')) in
            record {
              left = x ∷ rest.left;
              right = rest.right;
              whole = ap (λ ys. x ∷ ys) rest.whole;
              hit = rest.hit;
              before = (miss, rest.before);
              after = rest.after;
            }
      ]

-- With memory for the key, the node of a command for one zone is the one that the list has.
pub zone_node-find :
    (ngx : Nginx) (c : Control) (pool : Pool) (t : Tree)
    → IsLawful ngx
    → Sorted ngx (inorder t)
    → pool.key ≡ true
    → zone_node ngx c pool t ≡ find ngx (inorder t) (zone_key c) (ngx.crc32_short (zone_key c))
unfolding zone_node zone_key generate_key
zone_node-find ngx c pool t law s has =
    rw has (lookup-find ngx t (zone_key c) (ngx.crc32_short (zone_key c)) law s)

-- The command for one zone selects one node or none.
pub zone_node-cases :
    (ngx : Nginx) (c : Control) (pool : Pool) (t : Tree)
    → IsLawful ngx
    → Sorted ngx (inorder t)
    → pool.key ≡ true
    → ((zone_node ngx c pool t ≡ none) × All (λ x. zone_selects ngx c x ≡ false) (inorder t))
      ⊎ ((m : RbNode) × (zone_node ngx c pool t ≡ some m)
          × Alone (zone_selects ngx c) m (inorder t))
unfolding zone_selects
zone_node-cases ngx c pool t law s has =
    let h = ngx.crc32_short (zone_key c) in
    let e = zone_node-find ngx c pool t law s has in
    elim (Option-cases (find ngx (inorder t) (zone_key c) h)) [
      | inl missing ↦ inl (e ∙ missing, find-none_key ngx law h (zone_key c) (inorder t) missing)
      | inr (m, there) ↦ inr (m, e ∙ there, find-Alone ngx law h (zone_key c) (inorder t) m s there)
    ]

pub Range-cases :
    (r : Range) → (r ≡ range_none) ⊎ ((r ≡ range_all) ⊎ ((r ≡ range_group) ⊎ (r ≡ range_zone)))
Range-cases range_none = inl refl
Range-cases range_all = inr (inl refl)
Range-cases range_group = inr (inr (inl refl))
Range-cases range_zone = inr (inr (inr refl))

pub All-true : (ms : List RbNode) → All (λ (x : RbNode). false ≡ false) ms
All-true [] = tt
All-true (m ∷ ms) = (refl, All-true ms)

-- No other node has the address of a node.
pub Distinct-Alone :
    (xs : List RbNode) (m : RbNode) (ys : List RbNode)
    → Distinct (xs ++ m ∷ ys)
    → All (λ x. x.addr ≢ m.addr) xs × All (λ x. x.addr ≢ m.addr) ys
Distinct-Alone [] m ys d = (tt, d.0)
Distinct-Alone (x ∷ xs) m ys d =
    let (a, b) = Distinct-Alone xs m ys d.1 in
    let other = (All-split (λ (y : RbNode). y.addr ≢ x.addr) xs (m ∷ ys) d.0).1.0 in
    ((λ e. other (sym e), a), b)
