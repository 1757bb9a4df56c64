-- ===== src/FilterNodes/Gathered.antt =====
-- What `filter_get_keys` and `filter_get_nodes` of
-- ngx_metric_module/src/ngx_http_vhost_traffic_status_filter.c gather.
use mathlib.Core.Option.{some-injective}
use metrics_server_example.Base.{
  ◌+◌, ◌≡◌, ◌≤◌, ◌<◌, refl, sym, ap, ◌∙◌, true, Option, none, some, List, [], ◌∷◌, ◌++◌,
  append_assoc, arith, inl, inr, ◌==◌, if◌then◌else◌, length, length-append, All, Bool-cases,
  Option-cases, found_with, found_with-append, size, size-found_with,
}
use metrics_server_example.Text.{Bytes, Status, ok, error, memcmp_eq}
use metrics_server_example.Group.{upstream_fg}
use metrics_server_example.RbTree.{RbNode, Tree, sentinel, fork}
use metrics_server_example.Filter.Walk.{preorder}
use metrics_server_example.Control.{Pool}
use metrics_server_example.FilterNodes.{
  push, walk, key_step, get_keys, same_name, node_step, get_nodes,
}
use metrics_server_example.FilterNodes.Named.{
  filter_of, filters, nodes_of, count, same_name-memcmp, length-nodes_of, count-le, filters-append,
  nodes_of-append, field-cases, filters-one, nodes_of-one,
}

module _ {A : Type 0} (pool : Pool) where
  -- With memory, the entries `xs` are added to the array.
  abbrev Gathers : Option (List A) → List A → Option (Status × Option (List A)) → Type 0
  Gathers found xs r =
      pool.array ≡ true
      → pool.key ≡ true
      → size found + length xs ≤ pool.room
      → r ≡ some (ok, found_with found xs)

  push-Gathers :
      (a : A) (found : Option (List A)) → Gathers found (a ∷ []) (some (push pool a found))
  unfolding push
  push-Gathers a none array key room = ground (arith, array)
  push-Gathers a (some as') array key room = ground arith

  module _ (pick : List RbNode → List A)
      (pick-append : (xs ys : List RbNode) → pick (xs ++ ys) ≡ pick xs ++ pick ys)
      (step : RbNode → Option (List A) → Option (Status × Option (List A)))
      (step-Gathers : (m : RbNode) (found : Option (List A))
        → Gathers found (pick (m ∷ [])) (step m found))
      (pick-nil : pick [] ≡ []) where
    walk-Gathers :
        (t : Tree) (found : Option (List A)) → Gathers found (pick (preorder t)) (walk step t found)
    unfolding preorder walk
    walk-Gathers sentinel found array key room =
        ap (λ xs. some (ok, found_with found xs)) (sym pick-nil)
    walk-Gathers (fork l m r) found array key room =
        let here = pick (m ∷ []) in
        let left = pick (preorder l) in
        let right = pick (preorder r) in
        let whole : pick (preorder (fork l m r)) ≡ here ++ (left ++ right) =
          pick-append (m ∷ []) (preorder l ++ preorder r)
          ∙ ap (λ xs. here ++ xs) (pick-append (preorder l) (preorder r)) in
        let sizes : size found + (length here + (length left + length right)) ≤ pool.room = omega (
          arith,
          ap length whole,
          length-append here (left ++ right),
          length-append left right,
          room,
        ) in
        let found₁ = found_with found here in
        let found₂ = found_with found₁ left in
        let size₁ = size-found_with found here in
        let size₂ = size-found_with found₁ left in
        let e₁ = step-Gathers m found array key (omega (arith, sizes)) in
        let e₂ = walk-Gathers l found₁ array key (omega (arith, sizes, size₁)) in
        let e₃ = walk-Gathers r found₂ array key (omega (arith, sizes, size₁, size₂)) in
        rw (walk, e₁, e₂, e₃, whole)
          (ap (λ o. some (ok, o))
            (ap (λ o. found_with o right) (found_with-append found here left)
              ∙ found_with-append found (here ++ left) right
              ∙ ap (found_with found) (append_assoc here left right)))

key_step-filter_of :
    (pool : Pool) (m : RbNode) (found : Option (List Bytes))
    → key_step pool m found ≡ elim (filter_of m) [
      | none ↦ some (ok, found)
      | some g ↦ elim (push pool g found).0 [
        | error ↦ some (push pool g found)
        | ok ↦ if pool.key then some (push pool g found) else none
      ]
    ]
unfolding key_step filter_of
key_step-filter_of pool m found = elim (Bool-cases (m.vtsn.upstream.type == upstream_fg)) [
  | inr other ↦ rw (key_step, filter_of, other) refl
  | inl fg ↦ elim (field-cases m) [
    | inl (e, e') ↦ rw (key_step, filter_of, fg, e, e') refl
    | inr (g, e, e') ↦
        let read : Status × Bytes → Option (Status × Option (List Bytes)) = λ k. elim k.0 [
          | error ↦ some (ok, found)
          | ok ↦ elim (push pool k.1 found).0 [
            | error ↦ some (push pool k.1 found)
            | ok ↦ if pool.key then some (push pool k.1 found) else none
          ]
        ] in
        rw (key_step, filter_of, fg, e') (ap read e)
  ]
]

node_step-filter_of :
    (pool : Pool) (f : Bytes) (m : RbNode) (found : Option (List RbNode))
    → node_step pool f m found ≡ elim (filter_of m) [
      | none ↦ some (ok, found)
      | some g ↦ if same_name f g then some (push pool m found) else some (ok, found)
    ]
unfolding node_step filter_of
node_step-filter_of pool f m found = elim (Bool-cases (m.vtsn.upstream.type == upstream_fg)) [
  | inr other ↦ rw (node_step, filter_of, other) refl
  | inl fg ↦ elim (field-cases m) [
    | inl (e, e') ↦ rw (node_step, filter_of, fg, e, e') refl
    | inr (g, e, e') ↦ rw (node_step, filter_of, fg, e, e, e') refl
  ]
]

key_step-Gathers :
    (pool : Pool) (m : RbNode) (found : Option (List Bytes))
    → Gathers pool found (filters (m ∷ [])) (key_step pool m found)
key_step-Gathers pool m found array key room = elim (Option-cases (filter_of m)) [
  | inl e ↦ rw (filters-one m none e, key_step-filter_of pool m found, e) refl
  | inr (g, e) ↦
      let one = filters-one m (some g) e in
      let pushed = push-Gathers pool g found array key (rw one at room) in
      let done = some-injective (push pool g found) (ok, found_with found (g ∷ [])) pushed in
      rw (one, key_step-filter_of pool m found, e, done, done, key) refl
]

node_step-Gathers :
    (pool : Pool) (f : Bytes)
    → All (λ b. 0 < b) f
    → (m : RbNode) (found : Option (List RbNode))
    → Gathers pool found (nodes_of f (m ∷ [])) (node_step pool f m found)
node_step-Gathers pool f zero_free m found array key room = elim (Option-cases (filter_of m)) [
  | inl e ↦ rw (nodes_of-one f m none e, node_step-filter_of pool f m found, e) refl
  | inr (g, e) ↦
      let one = nodes_of-one f m (some g) e in
      elim (Bool-cases (memcmp_eq f g)) [
        | inl same ↦
            let pushed = push-Gathers pool m found array key (rw (one, same) at room) in
            rw (one, node_step-filter_of pool f m found, e, same_name-memcmp f g zero_free, same)
              pushed
        | inr differs ↦
            rw (one, node_step-filter_of pool f m found, e, same_name-memcmp f g zero_free, differs)
              refl
      ]
]

-- With memory, `filter_get_keys` gives the filter of each node that has one, in the order of the walk,
-- and `filter_get_nodes` the nodes of the given filter; these are as many as the first has entries of
-- that filter. The name of a filter is without a zero byte here, and the pool gives memory for arrays
-- of as many entries as the first has and for the keys.
pub get_nodes-get_keys :
    (pool : Pool) (f : Bytes) (t : Tree)
    → pool.array ≡ true
    → pool.key ≡ true
    → length (filters (preorder t)) ≤ pool.room
    → All (λ b. 0 < b) f
    → (get_keys pool t none ≡ some (ok, found_with none (filters (preorder t))))
      × (get_nodes pool f t none ≡ some (ok, found_with none (nodes_of f (preorder t))))
      × (length (nodes_of f (preorder t)) ≡ count f (filters (preorder t)))
unfolding get_keys get_nodes
get_nodes-get_keys pool f t array key room zero_free =
    let same = length-nodes_of f (preorder t) in
    (
      walk-Gathers pool filters filters-append (key_step pool) (key_step-Gathers pool)
          (unfold filters in refl) t none array key (omega (arith, room)),
      walk-Gathers pool (nodes_of f) (nodes_of-append f) (node_step pool f)
          (node_step-Gathers pool f zero_free) (unfold nodes_of in refl) t none array key
          (omega (arith, same, count-le f (filters (preorder t)), room)),
      same,
    )
