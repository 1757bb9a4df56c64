-- ===== src/Filter/Lru.antt =====
-- `find_lru` of ngx_metric_module/src/ngx_http_vhost_traffic_status_node.c and the node that it is
-- to choose.
use mathlib.Core.Option.{some-ne-none, none-ne-some}
use native.Mathlib.Nat.{le_refl, le_trans}
use metrics_server_example.Base.{
  ltb, ◌%◌, ◌<◌, ◌≤◌, ◌≡◌, ◌≢◌, refl, ap, ◌∙◌, true, false, Option, none, some, List, [], ◌∷◌, ◌++◌,
  arith, if◌then◌else◌, Bool-cases, inl, inr, All, sym, ◌⊎◌,
}
use metrics_server_example.Base.Words.{u64_mod}
use metrics_server_example.RbTree.{RbNode, Tree, sentinel, fork, inorder}
use metrics_server_example.Filter.{
  MainConf, counts, newest, lru_cmp, lru_step, lru_node, find_lru, shm_info, ShmInfo,
}
use metrics_server_example.Filter.Info.{filtered, filtered-append, shm_info_lem}
use metrics_server_example.Filter.Walk.{Member, preorder, All-preorder, All-inorder, Member-inorder}

-- The queue of request times is not empty.
abbrev pub HasRequests : RbNode → Type 0
HasRequests m = m.vtsn.request_times.front ≢ m.vtsn.request_times.rear

module _ (conf : MainConf) where
  lru_list : List RbNode → Option RbNode → Option RbNode
  lru_list [] a = a
  lru_list (m ∷ ms) a = lru_list ms (lru_step conf m a)

  lru_list-append :
      (xs ys : List RbNode) (a : Option RbNode)
      → lru_list (xs ++ ys) a ≡ lru_list ys (lru_list xs a)
  unfolding lru_list
  lru_list-append [] ys a = refl
  lru_list-append (x ∷ xs) ys a = lru_list-append xs ys (lru_step conf x a)

  lru_node-list : (t : Tree) (a : Option RbNode) → lru_node conf t a ≡ lru_list (preorder t) a
  unfolding lru_node lru_list preorder
  lru_node-list sentinel a = refl
  lru_node-list (fork l m r) a =
      rw (lru_node-list l (lru_step conf m a), lru_node-list r)
        (sym (lru_list-append (preorder l) (preorder r) (lru_step conf m a)))

  -- No node that counts is older than `v`.
  abbrev pub Oldest : RbNode → RbNode → Type 0
  Oldest v m = counts conf m ≡ true → newest v.vtsn.request_times ≤ newest m.vtsn.request_times

  -- `v` is the choice among the nodes `ms`, starting from the candidate `a`.
  record IsBest (a : Option RbNode) (ms : List RbNode) (v : RbNode) : Type 0 where
    from : (a ≡ some v) ⊎ (Member v ms × (counts conf v ≡ true))
    start : (x : RbNode) → a ≡ some x → newest v.vtsn.request_times ≤ newest x.vtsn.request_times
    others : All (Oldest v) ms
    ready : HasRequests v

  abbrev Best : Option RbNode → List RbNode → Option RbNode → Type 0
  Best a ms none = (a ≡ none) × (filtered conf ms ≡ 0)
  Best a ms (some v) = IsBest a ms v

  abbrev Ready : Option RbNode → Type 0
  Ready none = Unit
  Ready (some x) = HasRequests x

  lru_cmp-some :
      (x m : RbNode)
      → HasRequests x
      → HasRequests m
      → lru_cmp (some x) m
        ≡ (if ltb (newest x.vtsn.request_times) (newest m.vtsn.request_times) then x else m)
  unfolding lru_cmp
  lru_cmp-some x m hx hm = ground arith

  le-some :
      (v x y : RbNode)
      → newest v.vtsn.request_times ≤ newest x.vtsn.request_times
      → some x ≡ some y
      → newest v.vtsn.request_times ≤ newest y.vtsn.request_times
  le-some v x y h e = ground arith

  lru_step-Best :
      (m : RbNode) (a : Option RbNode)
      → HasRequests m
      → Ready a
      → Best a (m ∷ []) (lru_step conf m a)
  unfolding lru_step filtered
  lru_step-Best m none hm ha = elim (Bool-cases (counts conf m)) [
    | inl e ↦
        rw (e, lru_cmp)
          (record {
            from = inr (inl refl, e);
            start = λ x h. cc;
            others = (λ _. le_refl _, tt);
            ready = hm;
          })
    | inr e ↦ rw e (refl, rw e)
  ]
  lru_step-Best m (some x) hm hx = elim (Bool-cases (counts conf m)) [
    | inl e ↦
        rw (e, lru_cmp-some x m hx hm)
          (elim (Bool-cases (ltb (newest x.vtsn.request_times) (newest m.vtsn.request_times))) [
            | inl older ↦ rw older (record {
              from = inl refl;
              start = λ y h. le-some x x y (le_refl _) h;
              others = (λ _. ground arith, tt);
              ready = hx;
            })
            | inr newer ↦ rw newer (record {
              from = inr (inl refl, e);
              start = λ y h. le-some m x y (ground arith) h;
              others = (λ _. le_refl _, tt);
              ready = hm;
            })
          ])
    | inr e ↦ rw e (record {
      from = inl refl;
      start = λ y h. le-some x x y (le_refl _) h;
      others = (λ h. cc, tt);
      ready = hx;
    })
  ]

  Best-Ready : (a o : Option RbNode) (ms : List RbNode) → Best a ms o → Ready o
  Best-Ready a none ms b = tt
  Best-Ready a (some v) ms b = b.ready

  -- A choice after a choice.
  Best-trans :
      (a b c : Option RbNode) (m : RbNode) (ms : List RbNode)
      → Best a (m ∷ []) b
      → Best b ms c
      → Best a (m ∷ ms) c
  unfolding filtered
  Best-trans a none none m ms p q = (p.0, omega arith)
  Best-trans a none (some w) m ms p q = record {
    from = elim q.from [ inl e ↦ absurd (none-ne-some w e) | inr (i, e) ↦ inr (inr i, e) ];
    start = λ y h. absurd (none-ne-some y (sym p.0 ∙ h));
    others = (λ h. ground (arith, p.1), q.others);
    ready = q.ready;
  }
  Best-trans a (some v) none m ms p q = absurd (some-ne-none v q.0)
  Best-trans a (some v) (some w) m ms p q = record {
    from = elim q.from [
      | inl e ↦ elim p.from [
        | inl f ↦ inl (f ∙ e)
        | inr (inl f, c) ↦ inr (inl (cc), (cc))
        | inr (inr f, c) ↦ absurd f
      ]
      | inr (i, e) ↦ inr (inr i, e)
    ];
    start = λ y h. le_trans (q.start v refl) (p.start y h);
    others = (λ h. le_trans (q.start v refl) (p.others.0 h), q.others);
    ready = q.ready;
  }

  lru_list-Best :
      (ms : List RbNode) (a : Option RbNode)
      → All HasRequests ms
      → Ready a
      → Best a ms (lru_list ms a)
  unfolding lru_list filtered
  lru_list-Best [] none h r = (refl, refl)
  lru_list-Best [] (some x) h r = record {
    from = inl refl;
    start = λ y e. le-some x x y (le_refl _) e;
    others = tt;
    ready = r;
  }
  lru_list-Best (m ∷ ms) a h r =
      let step = lru_step-Best m a h.0 r in
      let next = lru_step conf m a in
      Best-trans a next (lru_list ms next) m ms step
        (lru_list-Best ms next h.1 (Best-Ready a next (m ∷ []) step))

filtered-preorder :
    (conf : MainConf) (t : Tree) → filtered conf (preorder t) ≡ filtered conf (inorder t)
unfolding inorder preorder filtered
filtered-preorder conf sentinel = refl
filtered-preorder conf (fork l m r) = omega (
  arith,
  filtered-append conf (preorder l) (preorder r),
  filtered-append conf (inorder l) (m ∷ inorder r),
  filtered-preorder conf l,
  filtered-preorder conf r,
)

-- The node that gives way: it is in the tree, it counts against the limit, and no other node that
-- counts has an older newest request.
pub record IsVictim (conf : MainConf) (t : Tree) (v : RbNode) : Type 0 where
  pub member : Member v (inorder t)
  pub counted : counts conf v ≡ true
  pub oldest : All (Oldest conf v) (inorder t)

lru_node-IsVictim :
    (conf : MainConf) (t : Tree) (o : Option RbNode)
    → Best conf none (preorder t) o
    → 0 < filtered conf (inorder t)
    → (v : RbNode) × (o ≡ some v) × IsVictim conf t v
lru_node-IsVictim conf t none b h = absurd (omega (arith, filtered-preorder conf t, b.1))
lru_node-IsVictim conf t (some v) b h = elim b.from [
  | inl e ↦ absurd (none-ne-some v e)
  | inr (i, e) ↦ (
    v,
    refl,
    record {
      member = Member-inorder v t i;
      counted = e;
      oldest = All-inorder (Oldest conf v) t b.others;
    },
  )
]

-- `find_lru` gives nothing where the limit is off or there is still room. Where the limit is on and
-- reached and there is memory for the count, it gives a node of the tree that counts and than whose
-- newest request no other such node has an older one. Without that memory it gives nothing, also where
-- the limit is reached. The queues of the nodes are not empty, and there are fewer nodes
-- than a word can count.
pub find_lru_lem :
    (conf : MainConf) (t : Tree)
    → All HasRequests (inorder t)
    → filtered conf (inorder t) < u64_mod
    → ((conf.filter_max_node ≡ 0) ⊎ (filtered conf (inorder t) < conf.filter_max_node)
        → find_lru conf true t ≡ none)
      × (0 < conf.filter_max_node
          → conf.filter_max_node ≤ filtered conf (inorder t)
          → (v : RbNode) × (find_lru conf true t ≡ some v) × IsVictim conf t v)
      × (find_lru conf false t ≡ none)
unfolding find_lru
find_lru_lem conf t h few = (
  λ room. ground (arith, used, word),
  λ on reached.
      let (v, e, w) =
        lru_node-IsVictim conf t (lru_node conf t none)
          (rw lru_node-list
            (lru_list-Best conf (preorder t) none (All-preorder HasRequests t h) tt))
          (omega arith) in
      (v, ground (arith, used, word, e), w),
  ground arith,
)
  where
    used : (shm_info conf t).filter_used_node ≡ filtered conf (inorder t) % u64_mod
    used = ap (λ (i : ShmInfo). i.filter_used_node) (shm_info_lem conf t)

    word : filtered conf (inorder t) % u64_mod ≡ filtered conf (inorder t)
    word = omega arith
