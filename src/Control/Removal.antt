-- ===== src/Control/Removal.antt =====
-- Lists of nodes without some of them, for the command `delete` of
-- ngx_metric_module/src/ngx_http_vhost_traffic_status_control.c.
use mathlib.Core.Path.{subst}
use metrics_server_example.Base.{
  ℕ, ◌+◌, ◌≤◌, ◌≡◌, ◌≢◌, refl, ap, sym, ◌∙◌, inl, inr, Bool, true, false, ◌||◌, List, [], ◌∷◌, ◌++◌,
  ◌==◌, arith, length, All, All-mono, Bool-cases,
}
use metrics_server_example.RbTree.{RbNode, Tree, inorder, remove}
use metrics_server_example.Filter.Walk.{Member, preorder, All-inorder, Member-inorder}
use metrics_server_example.Zone.Update.{Distinct, Distinct-only, All-Member}
use metrics_server_example.Control.Selected.{
  Distinct-Alone, chosen, unchosen, chosen-append, unchosen-append, chosen-none, Alone,
}

pub length-remove :
    (m : RbNode) (ms : List RbNode) → Member m ms → length (remove m.addr ms) + 1 ≡ length ms
unfolding remove
length-remove m [] h = absurd h
length-remove m (x ∷ ms) (inl e) =
    let same : x.addr ≡ m.addr = ap (λ (y : RbNode). y.addr) e in ground arith
length-remove m (x ∷ ms) (inr h) = ground (arith, length-remove m ms h)

-- A node of the list has the address of `x`.
unfoldable pub listed : List RbNode → RbNode → Bool
listed [] x = false
listed (m ∷ ms) x = (x.addr == m.addr) || listed ms x

pub unchosen-All :
    (P : RbNode → Bool) (a : ℕ) (ms : List RbNode)
    → All (λ x. x.addr ≢ a) ms
    → All (λ x. x.addr ≢ a) (unchosen P ms)
unfolding unchosen
unchosen-All P a [] h = tt
unchosen-All P a (m ∷ ms) h = ground (arith, h, unchosen-All P a ms h.1)

pub unchosen-Distinct :
    (P : RbNode → Bool) (ms : List RbNode) → Distinct ms → Distinct (unchosen P ms)
unfolding unchosen
unchosen-Distinct P [] d = tt
unchosen-Distinct P (m ∷ ms) d = elim (Bool-cases (P m)) [
  | inl e ↦ rw e (unchosen-Distinct P ms d.1)
  | inr e ↦ rw e (unchosen-All P m.addr ms d.0, unchosen-Distinct P ms d.1)
]

-- Two passes are one.
pub unchosen-unchosen :
    (P Q : RbNode → Bool) (ms : List RbNode)
    → unchosen Q (unchosen P ms) ≡ unchosen (λ x. P x || Q x) ms
unfolding unchosen
unchosen-unchosen P Q [] = refl
unchosen-unchosen P Q (m ∷ ms) = ground (arith, unchosen-unchosen P Q ms)

pub unchosen-same :
    (P Q : RbNode → Bool) (ms : List RbNode)
    → All (λ x. P x ≡ Q x) ms
    → unchosen P ms ≡ unchosen Q ms
unfolding unchosen
unchosen-same P Q [] h = refl
unchosen-same P Q (m ∷ ms) h = rw (h.0, unchosen-same P Q ms h.1)

-- On distinct addresses the first node at an address is the only one.
pub remove-unchosen :
    (a : ℕ) (ms : List RbNode) → Distinct ms → remove a ms ≡ unchosen (λ x. x.addr == a) ms
unfolding remove unchosen
remove-unchosen a [] d = refl
remove-unchosen a (m ∷ ms) d = elim (Bool-cases (m.addr == a)) [
  | inl e ↦ rw e (
      sym
        (chosen-none (λ x. x.addr == a) ms
          (All-mono (λ x. x.addr ≢ m.addr) ms (λ x ne. ground arith) d.0)).1)
  | inr e ↦ rw e (ap (λ ys. m ∷ ys) (remove-unchosen a ms d.1))
]

pub All-self : (ms : List RbNode) → All (λ x. Member x ms) ms
All-self [] = tt
All-self (m ∷ ms) = (inl refl, All-mono (λ x. Member x ms) ms (λ x i. inr i) (All-self ms))

listed-Member :
    (ns : List RbNode) (x : RbNode)
    → listed ns x ≡ true
    → (m : RbNode) × Member m ns × (m.addr ≡ x.addr)
unfolding listed
listed-Member [] x e = cc
listed-Member (n ∷ ns) x e = elim (Bool-cases (x.addr == n.addr)) [
  | inl same ↦ (n, inl refl, ground arith)
  | inr other ↦ let (m, i, a) = listed-Member ns x (ground (arith, other, e)) in (m, inr i, a)
]

Member-chosen :
    (P : RbNode → Bool) (ms : List RbNode) (m : RbNode)
    → Member m (chosen P ms)
    → Member m ms × (P m ≡ true)
unfolding chosen
Member-chosen P [] m i = absurd i
Member-chosen P (x ∷ ms) m i = elim (Bool-cases (P x)) [
  | inl hit ↦
      let e : chosen P (x ∷ ms) ≡ x ∷ chosen P ms = ground (arith, hit) in
      elim (subst (Member m) e i) [
        | inl same ↦ (inl same, ap P (sym same) ∙ hit)
        | inr j ↦ let (k, h) = Member-chosen P ms m j in (inr k, h)
      ]
  | inr miss ↦
      let e : chosen P (x ∷ ms) ≡ chosen P ms = ground (arith, miss) in
      let (k, h) = Member-chosen P ms m (subst (Member m) e i) in (inr k, h)
]

chosen-listed :
    (P : RbNode → Bool) (ms : List RbNode) (x : RbNode)
    → Member x ms
    → P x ≡ true
    → listed (chosen P ms) x ≡ true
unfolding chosen listed
chosen-listed P [] x i e = absurd i
chosen-listed P (m ∷ ms) x (inl same) e =
    let e' : P m ≡ true = ap P same ∙ e in
    let a : m.addr ≡ x.addr = ap (λ (y : RbNode). y.addr) same in ground (arith, e', a)
chosen-listed P (m ∷ ms) x (inr i) e = ground (arith, chosen-listed P ms x i e)

-- The nodes of `P` that a walk found, and no others, have addresses in the list.
pub listed-chosen :
    (P : RbNode → Bool) (t : Tree)
    → Distinct (inorder t)
    → All (λ x. listed (chosen P (preorder t)) x ≡ P x) (inorder t)
listed-chosen P t d =
    let walked = All-inorder (λ (x : RbNode). Member x (preorder t)) t (All-self (preorder t)) in
    All-mono (λ x. Member x (inorder t)) (inorder t)
      (λ x i. elim (Bool-cases (P x)) [
        | inl hit ↦
            chosen-listed P (preorder t) x
              (All-Member (λ (y : RbNode). Member y (preorder t)) (inorder t) x walked i) hit
            ∙ sym hit
        | inr miss ↦ elim (Bool-cases (listed (chosen P (preorder t)) x)) [
          | inr missed ↦ missed ∙ sym miss
          | inl given ↦
              let (m, j, a) = listed-Member (chosen P (preorder t)) x given in
              let (k, hit) = Member-chosen P (preorder t) m j in
              let same =
                All-Member (λ (y : RbNode). y.addr ≡ m.addr → y ≡ m) (inorder t) x
                  (Distinct-only m (inorder t) d (Member-inorder m t k)) i (sym a) in
              given ∙ sym hit ∙ ap P (sym same)
        ]
      ])
      (All-self (inorder t))

pub length-chosen-le : (P : RbNode → Bool) (ms : List RbNode) → length (chosen P ms) ≤ length ms
unfolding chosen
length-chosen-le P [] = omega arith
length-chosen-le P (m ∷ ms) = ground (arith, length-chosen-le P ms)

remove-left :
    (m : RbNode) (xs ys : List RbNode)
    → All (λ x. x.addr ≢ m.addr) xs
    → remove m.addr (xs ++ m ∷ ys) ≡ xs ++ ys
unfolding remove
remove-left m [] ys h = ground arith
remove-left m (x ∷ xs) ys h = ground (arith, h.0, remove-left m xs ys h.1)

-- Without the one node of `P`.
pub remove-Alone :
    (P : RbNode → Bool) (m : RbNode) (ms : List RbNode)
    → Alone P m ms
    → Distinct ms
    → (remove m.addr ms ≡ unchosen P ms) × (length (chosen P ms) ≡ 1)
unfolding chosen unchosen
remove-Alone P m ms alone d =
    let (a, b) = Distinct-Alone alone.left m alone.right (subst Distinct alone.whole d) in
    let none_left = chosen-none P alone.left alone.before in
    let none_right = chosen-none P alone.right alone.after in
    (
      rw
          (
            alone.whole,
            remove-left m alone.left alone.right a,
            unchosen-append P alone.left (m ∷ alone.right),
            none_left.1,
          )
          (ap (λ ys. alone.left ++ ys) (ground (arith, alone.hit, none_right.1))),
      rw (alone.whole, chosen-append P alone.left (m ∷ alone.right), none_left.0)
          (ground (arith, alone.hit, none_right.0)),
    )
