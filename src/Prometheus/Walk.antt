-- ===== src/Prometheus/Walk.antt =====
-- The walks of `display_prometheus_set_server`, `_set_filter` and `_set_upstream` of
-- ngx_metric_module/src/ngx_http_vhost_traffic_status_display_prometheus.c through the tree.
use mathlib.Core.Path.{subst}
use metrics_server_example.Base.{
  ◌≡◌, refl, ap, sym, ◌∙◌, inl, inr, Bool, Option, some, List, [], ◌∷◌, ◌++◌, append_assoc,
  append-nil, All, All-split, Bool-cases,
}
use metrics_server_example.Text.{Bytes}
use metrics_server_example.Node.{Node}
use metrics_server_example.RbTree.{RbNode, Tree, sentinel, fork, name}
use metrics_server_example.Filter.Walk.{preorder}
use metrics_server_example.Control.Selected.{chosen, chosen-append}
use metrics_server_example.Json.{Stats}
use metrics_server_example.Prometheus.Trees.{set_at, set_tree}

-- Texts one after the other.
unfoldable pub texts : (RbNode → Bytes) → List RbNode → Bytes
texts text [] = []
texts text (m ∷ ms) = text m ++ texts text ms

texts-append :
    (text : RbNode → Bytes) (xs ys : List RbNode)
    → texts text (xs ++ ys) ≡ texts text xs ++ texts text ys
unfolding texts
texts-append text [] ys = refl
texts-append text (x ∷ xs) ys =
    ap (λ s. text x ++ s) (texts-append text xs ys)
    ∙ sym (append_assoc (text x) (texts text xs) (texts text ys))

-- A sum after nodes.
unfoldable pub taken : (Node → Stats → Stats) → List RbNode → Stats → Stats
taken sum [] s = s
taken sum (m ∷ ms) s = taken sum ms (sum m.vtsn s)

taken-append :
    (sum : Node → Stats → Stats) (xs ys : List RbNode) (s : Stats)
    → taken sum (xs ++ ys) s ≡ taken sum ys (taken sum xs s)
unfolding taken
taken-append sum [] ys s = refl
taken-append sum (x ∷ xs) ys s = taken-append sum xs ys (sum x.vtsn s)

-- What a walk needs: nodes that are shown print a text and are left, and the sum takes every node in
-- and stays a sum.
pub record Steps (P : RbNode → Bool) (lines : Bytes → Node → Option (Bytes × Node))
    (add : Node → Stats → Option Stats) (IsShown : RbNode → Type 0) (IsSum : Stats → Type 0)
    (text : RbNode → Bytes) (sum : Node → Stats → Stats) : Type 0 where
  pub line : (m : RbNode) → IsShown m → lines (name m) m.vtsn ≡ some (text m, m.vtsn)
  pub added : (v : Node) (s : Stats) → IsSum s → (add v s ≡ some (sum v s)) × IsSum (sum v s)

module _ (P : RbNode → Bool) (lines : Bytes → Node → Option (Bytes × Node))
    (add : Node → Stats → Option Stats) (IsShown : RbNode → Type 0) (IsSum : Stats → Type 0)
    (text : RbNode → Bytes) (sum : Node → Stats → Stats)
    (steps : Steps P lines add IsShown IsSum text sum) where
  -- The output and the sum after nodes.
  unfoldable pub after : List RbNode → Bytes × Stats → Bytes × Stats
  unfolding texts taken
  after ms st = (st.0 ++ texts text (chosen P ms), taken sum (chosen P ms) st.1)

  after-append :
      (xs ys : List RbNode) (st : Bytes × Stats) → after (xs ++ ys) st ≡ after ys (after xs st)
  unfolding after
  after-append xs ys st =
      rw
        (
          chosen-append P xs ys,
          texts-append text (chosen P xs) (chosen P ys),
          taken-append sum (chosen P xs) (chosen P ys) st.1,
        )
        (ap (λ o. (o, taken sum (chosen P ys) (taken sum (chosen P xs) st.1)))
          (sym (append_assoc st.0 (texts text (chosen P xs)) (texts text (chosen P ys)))))

  set_at-after :
      (m : RbNode) (st : Bytes × Stats)
      → IsShown m
      → IsSum st.1
      → (set_at P lines add m st ≡ some (m, after (m ∷ []) st)) × IsSum (after (m ∷ []) st).1
  unfolding set_at after chosen texts taken
  set_at-after m st shown ok = elim (Bool-cases (P m)) [
    | inl e ↦
        let (run, kept) = steps.added m.vtsn st.1 ok in
        (
          rw (e, set_at, steps.line m shown, run)
              (ap (λ o. some (m, (st.0 ++ o, sum m.vtsn st.1))) (sym (append-nil (text m)))),
          rw e kept,
        )
    | inr e ↦ (rw (e, set_at) (ap (λ o. some (m, (o, st.1))) (sym (append-nil st.0))), rw e ok)
  ]

  -- A walk leaves the tree, and prints and takes in its nodes in the order of the walk.
  pub set_tree-after :
      (t : Tree) (st : Bytes × Stats)
      → All IsShown (preorder t)
      → IsSum st.1
      → (set_tree P lines add t st ≡ some (t, after (preorder t) st))
        × IsSum (after (preorder t) st).1
  unfolding set_tree preorder
  set_tree-after sentinel st shown ok =
      unfold after chosen texts taken in
      (ap (λ o. some (sentinel, (o, st.1))) (sym (append-nil st.0)), ok)
  set_tree-after (fork l m r) st shown ok =
      let (left_shown, right_shown) = All-split IsShown (preorder l) (preorder r) shown.1 in
      let (run1, ok1) = set_at-after m st shown.0 ok in
      let st1 = after (m ∷ []) st in
      let (run2, ok2) = set_tree-after l st1 left_shown ok1 in
      let st2 = after (preorder l) st1 in
      let (run3, ok3) = set_tree-after r st2 right_shown ok2 in
      let whole : after (preorder r) st2 ≡ after (m ∷ (preorder l ++ preorder r)) st =
        sym (after-append (preorder l) (preorder r) st1)
        ∙ sym (after-append (m ∷ []) (preorder l ++ preorder r) st) in
      (
        rw (set_tree, run1, run2, run3) (ap (λ o. some (fork l m r, o)) whole),
        subst (λ (o : Bytes × Stats). IsSum o.1) whole ok3,
      )
