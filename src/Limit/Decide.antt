-- ===== src/Limit/Decide.antt =====
-- A decision about the limits of ngx_metric_module/src/ngx_http_vhost_traffic_status_limit.c that
-- is read off the tree alone, and the loop of `limit_handler_traffic`.
use mathlib.Core.Path.{subst}
use metrics_server_example.Base.{
  ◌≡◌, refl, ap, sym, ◌∙◌, inl, inr, ◌⊎◌, true, false, Option, none, some, List, [], ◌∷◌, arith,
  ltb, ◌==◌, set, All, All-set, Bool-cases, Option-cases,
}
use metrics_server_example.Text.{Bytes}
use metrics_server_example.Node.Member.Table.{table, read_table, node_member_lem}
use metrics_server_example.RbTree.{RbNode, Tree, inorder, Nginx, IsLawful, lookup}
use metrics_server_example.RbTree.Order.{Sorted}
use metrics_server_example.Zone.{Zone, of_lookup, find_node, find_addr}
use metrics_server_example.Filter.Walk.{Member}
use metrics_server_example.Zone.Kept.{lookup-Member}
use metrics_server_example.Zone.Cache.{Live, NoCollision, find_node-lookup}
use metrics_server_example.Limit.{
  Names, Limit, Target, stop, skip, target, limit_target, Decision, declined, rejected, limit_loop,
}

-- No array is an empty one.
abbrev pub all_of : Option (List Limit) → List Limit
all_of none = []
all_of (some ls) = ls

module _ (ngx : Nginx) (names : Names) where
  -- The first limit that the counters in the tree exceed, in the order of the list, up to a limit that
  -- cannot be evaluated.
  unfoldable pub decide : Tree → List Limit → Decision
  unfolding read_table lookup
  decide t [] = declined
  decide t (l ∷ ls) = elim (limit_target names l) [
    | stop ↦ declined
    | skip ↦ decide t ls
    | target key variable ↦ elim (lookup ngx t key (ngx.crc32_short key)) [
      | none ↦ decide t ls
      | some m ↦ elim (ltb l.size (read_table table variable m.vtsn.stat)) [
        | true ↦ rejected l.code
        | false ↦ decide t ls
      ]
    ]
  ]

  -- No array decides nothing.
  unfoldable pub decide_one : Tree → Option (List Limit) → Decision
  unfolding decide
  decide_one t none = declined
  decide_one t (some ls) = decide t ls

  -- The first decision of several lists that is not to decline.
  unfoldable pub decide_all : Tree → List (Option (List Limit)) → Decision
  unfolding decide_one
  decide_all t [] = declined
  decide_all t (o ∷ os) = elim (decide_one t o) [
    | rejected code ↦ rejected code
    | declined ↦ decide_all t os
  ]

  -- No other name in the tree has the hash of the key of the limit.
  abbrev pub SafeTarget : Tree → Target → Type 0
  SafeTarget t (target key variable) = NoCollision (ngx.crc32_short key) key (inorder t)
  SafeTarget t stop = Unit
  SafeTarget t skip = Unit

  abbrev pub Safe : Tree → Limit → Type 0
  Safe t l = SafeTarget t (limit_target names l)

pub find_addr-some :
    (m : RbNode) (ms : List RbNode) → Member m ms → (n : RbNode) × (find_addr m.addr ms ≡ some n)
unfolding find_addr
find_addr-some m [] i = absurd i
find_addr-some m (x ∷ ms) i = elim (Bool-cases (x.addr == m.addr)) [
  | inl e ↦ (x, rw e refl)
  | inr e ↦ elim i [
    | inl same ↦ absurd (ground (arith, ap (λ (y : RbNode). y.addr) same))
    | inr j ↦ let (n, h) = find_addr-some m ms j in (n, rw e h)
  ]
]

-- What a handler leaves: the tree, and pointers to its nodes.
pub record Stays (z z' : Zone) : Type 0 where
  pub tree : z'.tree ≡ z.tree
  pub live : All (Live (inorder z.tree)) z'.node_caches
  pub locked : z'.locked ≡ z.locked

Target-cases :
    (t : Target)
    → (t ≡ stop) ⊎ ((t ≡ skip) ⊎ ((key : Bytes) × (variable : Bytes) × (t ≡ target key variable)))
Target-cases stop = inl refl
Target-cases skip = inr (inl refl)
Target-cases (target key variable) = inr (inr (key, variable, refl))

module _ (ngx : Nginx) (names : Names) (law : IsLawful ngx) where
  -- One round at a limit with a key: what the cache or the walk finds, and what the table reads.
  limit_loop-target :
      (l : Limit) (ls : List Limit) (z : Zone) (key variable : Bytes)
      → limit_target names l ≡ target key variable
      → find_node ngx z key l.type 0 ≡ of_lookup (lookup ngx z.tree key (ngx.crc32_short key))
      → limit_loop ngx names (l ∷ ls) z ≡ elim (lookup ngx z.tree key (ngx.crc32_short key)) [
        | none ↦ limit_loop ngx names ls z
        | some m ↦
            let z' : Zone = record z { node_caches = set z.node_caches l.type (some m.addr) } in
            elim (ltb l.size (read_table table variable m.vtsn.stat)) [
              | true ↦ some (rejected l.code, z')
              | false ↦ limit_loop ngx names ls z'
            ]
      ]
  unfolding limit_loop
  limit_loop-target l ls z key variable e same =
      elim (Option-cases (lookup ngx z.tree key (ngx.crc32_short key))) [
        | inl missing ↦ ground (arith, e, same, missing)
        | inr (m, there) ↦ ground (arith, e, same, there, node_member_lem m.vtsn variable)
      ]

  decide-target :
      (l : Limit) (ls : List Limit) (t : Tree) (key variable : Bytes)
      → limit_target names l ≡ target key variable
      → decide ngx names t (l ∷ ls) ≡ elim (lookup ngx t key (ngx.crc32_short key)) [
        | none ↦ decide ngx names t ls
        | some m ↦ elim (ltb l.size (read_table table variable m.vtsn.stat)) [
          | true ↦ rejected l.code
          | false ↦ decide ngx names t ls
        ]
      ]
  unfolding decide
  decide-target l ls t key variable e = ground (arith, e)

  -- The loop in a state whose cached pointers are live.
  abbrev pub Decides : Zone → List Limit → Type 0
  Decides z ls =
      (z' : Zone) × (limit_loop ngx names ls z ≡ some (decide ngx names z.tree ls, z')) × Stays z z'

  limit_loop-stop :
      (l : Limit) (ls : List Limit) (z : Zone)
      → limit_target names l ≡ stop
      → limit_loop ngx names (l ∷ ls) z ≡ some (decide ngx names z.tree (l ∷ ls), z)
  unfolding limit_loop decide
  limit_loop-stop l ls z e = ground (arith, e)

  limit_loop-skip :
      (l : Limit) (ls : List Limit) (z : Zone)
      → limit_target names l ≡ skip
      → (limit_loop ngx names (l ∷ ls) z ≡ limit_loop ngx names ls z)
        × (decide ngx names z.tree (l ∷ ls) ≡ decide ngx names z.tree ls)
  unfolding limit_loop decide
  limit_loop-skip l ls z e = ground (arith, e)

  pub limit_loop-decide :
      (ls : List Limit) (z : Zone)
      → Sorted ngx (inorder z.tree)
      → All (Live (inorder z.tree)) z.node_caches
      → All (Safe ngx names z.tree) ls
      → Decides z ls
  limit_loop-decide [] z s live safe =
      unfold limit_loop decide in (z, refl, record { tree = refl; live = live; locked = refl })
  limit_loop-decide (l ∷ ls) z s live safe = elim (Target-cases (limit_target names l)) [
    | inl e ↦ (z, limit_loop-stop l ls z e, record { tree = refl; live = live; locked = refl })
    | inr (inl e) ↦
        let (z', run, stays) = limit_loop-decide ls z s live safe.1 in
        let (a, b) = limit_loop-skip l ls z e in
        (z', a ∙ run ∙ ap (λ d. some (d, z')) (sym b), stays)
    | inr (inr (key, variable, e)) ↦
        let alone = subst (SafeTarget ngx names z.tree) e safe.0 in
        let same = find_node-lookup ngx z key l.type law s live alone in
        let step = limit_loop-target l ls z key variable e same in
        let spec = decide-target l ls z.tree key variable e in
        elim (Option-cases (lookup ngx z.tree key (ngx.crc32_short key))) [
          | inl missing ↦
              let (z', run, stays) = limit_loop-decide ls z s live safe.1 in
              (z', rw (step, spec, missing) run, stays)
          | inr (m, there) ↦
              let at_m =
                find_addr-some m (inorder z.tree)
                  (lookup-Member ngx z.tree key (ngx.crc32_short key) m there) in
              let live' =
                All-set (Live (inorder z.tree)) z.node_caches l.type (some m.addr) at_m live in
              let z1 : Zone = record z { node_caches = set z.node_caches l.type (some m.addr) } in
              let (z', run, stays) = limit_loop-decide ls z1 s live' safe.1 in
              elim (Bool-cases (ltb l.size (read_table table variable m.vtsn.stat))) [
                | inl over ↦ (
                  z1,
                  rw (step, spec, there, over) refl,
                  record { tree = refl; live = live'; locked = refl },
                )
                | inr under ↦ (
                  z',
                  rw (step, spec, there, under) run,
                  record { tree = stays.tree; live = stays.live; locked = stays.locked },
                )
              ]
        ]
  ]
