-- ===== src/Limit/Handler.antt =====
-- `limit_handler` of ngx_metric_module/src/ngx_http_vhost_traffic_status_limit.c against the decision
-- that the tree makes.
use mathlib.Core.Path.{subst}
use metrics_server_example.Base.{
  ℕ, ◌≡◌, refl, ap, sym, ◌∙◌, inl, inr, ◌⊎◌, true, false, not, ◌||◌, Option, none, some, List, [],
  ◌∷◌, arith, if◌then◌else◌, All, Bool-cases,
}
use metrics_server_example.RbTree.{Tree, inorder, Nginx, IsLawful}
use metrics_server_example.RbTree.Order.{Sorted}
use metrics_server_example.Zone.{Zone}
use metrics_server_example.Zone.Cache.{Live}
use metrics_server_example.Limit.{
  Names, Limit, Decision, declined, rejected, limit_loop, handler_traffic, LimitConf, handler_chain,
  limit_handler,
}
use metrics_server_example.Limit.Decide.{
  all_of, decide, decide_one, decide_all, Safe, Stays, limit_loop-decide,
}

Decision-cases : (d : Decision) → (d ≡ declined) ⊎ ((code : ℕ) × (d ≡ rejected code))
Decision-cases declined = inl refl
Decision-cases (rejected code) = inr (code, refl)

-- The lists of limits in the order of the handler.
abbrev pub lists : LimitConf → List (Option (List Limit))
lists conf =
    conf.main_traffics ∷ conf.traffics ∷ conf.main_filter_traffics ∷ conf.filter_traffics ∷ []

module _ (ngx : Nginx) (names : Names) (law : IsLawful ngx) where
  handler_traffic-some :
      (ls : List Limit) (z z' : Zone) (d : Decision)
      → limit_loop ngx names ls (record z { locked = true }) ≡ some (d, z')
      → handler_traffic ngx names (some ls) z ≡ some (d, record z' { locked = false })
  unfolding handler_traffic
  handler_traffic-some ls z z' d e = ground (arith, e)

  handler_traffic-decide :
      (o : Option (List Limit)) (z : Zone)
      → Sorted ngx (inorder z.tree)
      → All (Live (inorder z.tree)) z.node_caches
      → All (Safe ngx names z.tree) (all_of o)
      → z.locked ≡ false
      → (z' : Zone) × (handler_traffic ngx names o z ≡ some (decide_one ngx names z.tree o, z'))
        × Stays z z'
  unfolding decide_one
  handler_traffic-decide none z s live safe free =
      (z, unfold handler_traffic in refl, record { tree = refl; live = live; locked = refl })
  handler_traffic-decide (some ls) z s live safe free =
      let (z', run, stays) =
        limit_loop-decide ngx names law ls (record z { locked = true }) s live safe in
      (
        record z' { locked = false },
        handler_traffic-some ls z z' (decide ngx names z.tree ls) run,
        record { tree = stays.tree; live = stays.live; locked = sym free },
      )

  handler_chain-step :
      (d : Decision) (o : Option (List Limit)) (os : List (Option (List Limit))) (z z' : Zone)
      → handler_traffic ngx names o z ≡ some (d, z')
      → handler_chain ngx names (o ∷ os) z ≡ elim d [
        | rejected code ↦ some (rejected code, z')
        | declined ↦ handler_chain ngx names os z'
      ]
  unfolding handler_chain
  handler_chain-step declined o os z z' e = ground (arith, e)
  handler_chain-step (rejected code) o os z z' e = ground (arith, e)

  decide_all-step :
      (d : Decision) (t : Tree) (o : Option (List Limit)) (os : List (Option (List Limit)))
      → decide_one ngx names t o ≡ d
      → decide_all ngx names t (o ∷ os)
        ≡ elim d [ rejected code ↦ rejected code | declined ↦ decide_all ngx names t os ]
  unfolding decide_all
  decide_all-step declined t o os e = ground (arith, e)
  decide_all-step (rejected code) t o os e = ground (arith, e)

  handler_chain-decide :
      (os : List (Option (List Limit))) (z : Zone)
      → Sorted ngx (inorder z.tree)
      → All (Live (inorder z.tree)) z.node_caches
      → All (λ o. All (Safe ngx names z.tree) (all_of o)) os
      → z.locked ≡ false
      → (z' : Zone) × (handler_chain ngx names os z ≡ some (decide_all ngx names z.tree os, z'))
        × Stays z z'
  handler_chain-decide [] z s live safe free = (
    z,
    unfold handler_chain decide_all in refl,
    record { tree = refl; live = live; locked = refl },
  )
  handler_chain-decide (o ∷ os) z s live safe free =
      let (z', run, stays) = handler_traffic-decide o z s live safe.0 free in
      let back = sym stays.tree in
      let (z'', run', stays') =
        handler_chain-decide os z' (subst (λ t. Sorted ngx (inorder t)) back s)
          (subst (λ t. All (Live (inorder t)) z'.node_caches) back stays.live)
          (subst (λ t. All (λ o. All (Safe ngx names t) (all_of o)) os) back safe.1)
          (stays.locked ∙ free) in
      elim (Decision-cases (decide_one ngx names z.tree o)) [
        | inl go ↦ (
          z'',
          handler_chain-step declined o os z z' (run ∙ ap (λ d. some (d, z')) go)
              ∙ run'
              ∙ ap (λ t. some (decide_all ngx names t os, z'')) stays.tree
              ∙ ap (λ d. some (d, z'')) (sym (decide_all-step declined z.tree o os go)),
          record {
            tree = stays'.tree ∙ stays.tree;
            live = subst (λ t. All (Live (inorder t)) z''.node_caches) stays.tree stays'.live;
            locked = stays'.locked ∙ stays.locked;
          },
        )
        | inr (code, end) ↦ (
          z',
          handler_chain-step (rejected code) o os z z' (run ∙ ap (λ d. some (d, z')) end)
              ∙ ap (λ d. some (d, z')) (sym (decide_all-step (rejected code) z.tree o os end)),
          stays,
        )
      ]

  -- The handler of limits ends in a decision and leaves the tree and the lock as they are and every
  -- cached pointer live. It declines where the module or the limits are off or bypassed, and otherwise
  -- decides what the counters in the tree decide, the four lists taken in order. The tree is sorted, the
  -- lock is free, the cached pointers are live, and no other name has the hash of a limit's key.
  pub limit_handler_lem :
      (conf : LimitConf) (z : Zone)
      → Sorted ngx (inorder z.tree)
      → All (Live (inorder z.tree)) z.node_caches
      → All (λ o. All (Safe ngx names z.tree) (all_of o)) (lists conf)
      → z.locked ≡ false
      → (z' : Zone) × (limit_handler ngx names conf z
          ≡ some (
            if not conf.enable || not conf.limit || conf.bypass_limit
                then declined
                else decide_all ngx names z.tree (lists conf),
            z',
          ))
        × Stays z z'
  unfolding limit_handler
  limit_handler_lem conf z s live safe free =
      elim (Bool-cases (not conf.enable || not conf.limit || conf.bypass_limit)) [
        | inl off ↦ (z, rw off refl, record { tree = refl; live = live; locked = refl })
        | inr on ↦
            let (z', run, stays) = handler_chain-decide (lists conf) z s live safe free in
            (z', rw on run, stays)
      ]
