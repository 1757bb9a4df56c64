-- ===== src/Handler/Updates.antt =====
-- `handler` of ngx_metric_module/src/ngx_http_vhost_traffic_status_module.c as a sequence of updates of
-- nodes.
use metrics_server_example.Base.{
  ℕ, ◌≡◌, refl, ap, sym, ◌∙◌, inl, inr, ◌⊎◌, Bool, true, not, ◌||◌, Option, none, some, List, [],
  ◌∷◌, ◌++◌, arith, if◌then◌else◌, Bool-cases, Option-cases,
}
use metrics_server_example.Text.{Bytes, Status, ok}
use metrics_server_example.Group.{upstream_no}
use metrics_server_example.Key.{generate_key}
use metrics_server_example.Node.{Request, LocConf}
use metrics_server_example.RbTree.{Nginx}
use metrics_server_example.Filter.{MainConf}
use metrics_server_example.Zone.{Zone, Memory}
use metrics_server_example.Limit.{find_name}
use metrics_server_example.RequestKeys.{
  Filter, Target, fail, skip, target, filter_target, of_key, upstream_target,
}
use metrics_server_example.Handler.{
  Logged, add, add_server, add_upstream, add_filters, add_filter_node, add_filter, handler,
}

-- One node to update: its key, its group, and the allocations.
pub record Update : Type 0 where
  pub key : Bytes
  pub type : ℕ
  pub memory : Memory

abbrev pub of_target : Target → Memory → List Update
of_target (target key type) mem = record { key = key; type = type; memory = mem } ∷ []
of_target fail mem = []
of_target skip mem = []

-- The filters of a list up to one that fails.
unfoldable pub filter_updates : List Filter → List Update
filter_updates [] = []
filter_updates (f ∷ fs) = elim (filter_target f) [
  | fail ↦ []
  | skip ↦ filter_updates fs
  | target key type ↦ record { key = key; type = type; memory = f.memory } ∷ filter_updates fs
]

abbrev pub list_updates : Option (List Filter) → List Update
list_updates none = []
list_updates (some fs) = filter_updates fs

-- The server's node, then the upstream's, then those of the filters, where these are on.
unfoldable pub request_updates : Logged → List Update
request_updates g =
    of_target (of_key (generate_key g.generate (find_name g.names) upstream_no) upstream_no)
      g.memory
    ++ (of_target (upstream_target g.upstream) g.upstream.memory
        ++ (if g.names.filter then list_updates g.main_filters ++ list_updates g.filters else []))

Target-cases :
    (t : Target) → (t ≡ fail) ⊎ ((t ≡ skip) ⊎ ((key : Bytes) × (type : ℕ) × (t ≡ target key type)))
Target-cases fail = inl refl
Target-cases skip = inr (inl refl)
Target-cases (target key type) = inr (inr (key, type, refl))

abbrev state_of : Option (Status × Zone) → Option Zone
state_of none = none
state_of (some (rc, z)) = some z

module _ (ngx : Nginx) (main : MainConf) (conf : LocConf) (r : Request) (g : Logged) where
  -- One update after another, whatever each returns.
  unfoldable pub add_all : List Update → Zone → Option Zone
  add_all [] z = some z
  add_all (u ∷ us) z = elim (add ngx main conf r g u.memory u.key u.type z) [
    | none ↦ none
    | some (rc, z') ↦ add_all us z'
  ]

  abbrev then_all : List Update → Option Zone → Option Zone
  then_all us none = none
  then_all us (some z) = add_all us z

  add_all-append :
      (us vs : List Update) (z : Zone) → add_all (us ++ vs) z ≡ then_all vs (add_all us z)
  unfolding add_all
  add_all-append [] vs z = refl
  add_all-append (u ∷ us) vs z =
      elim (Option-cases (add ngx main conf r g u.memory u.key u.type z)) [
        | inl e ↦ ground (arith, e)
        | inr ((rc, z'), e) ↦ ground (arith, e, add_all-append us vs z')
      ]

  add_filters-all :
      (fs : List Filter) (z : Zone)
      → state_of (add_filters ngx main conf r g fs z) ≡ add_all (filter_updates fs) z
  unfolding add_filters filter_updates add_all
  add_filters-all [] z = refl
  add_filters-all (f ∷ fs) z = elim (Target-cases (filter_target f)) [
    | inl e ↦ ground (arith, e)
    | inr (inl e) ↦ ground (arith, e, add_filters-all fs z)
    | inr (inr (key, type, e)) ↦ elim (Option-cases (add ngx main conf r g f.memory key type z)) [
      | inl missing ↦ ground (arith, e, missing)
      | inr ((rc, z'), there) ↦ ground (arith, e, there, add_filters-all fs z')
    ]
  ]

  add_server-all :
      (z : Zone)
      → state_of (add_server ngx main conf r g z)
        ≡ add_all
            (of_target
              (of_key (generate_key g.generate (find_name g.names) upstream_no) upstream_no)
              g.memory)
            z
  unfolding add_server add_all
  add_server-all z = ground arith

  add_upstream-all :
      (z : Zone)
      → state_of (add_upstream ngx main conf r g z)
        ≡ add_all (of_target (upstream_target g.upstream) g.upstream.memory) z
  unfolding add_upstream add_all
  add_upstream-all z = ground arith

  add_filter_node-all :
      (o : Option (List Filter)) (z : Zone)
      → state_of (add_filter_node ngx main conf r g o z) ≡ add_all (list_updates o) z
  unfolding add_filter_node
  add_filter_node-all none z = unfold add_all in refl
  add_filter_node-all (some fs) z = add_filters-all fs z

  both-all :
      (o : Option (Status × Zone))
      → state_of (elim o [
        | none ↦ none
        | some (rc, z') ↦ elim (add_filter_node ngx main conf r g g.filters z') [
          | none ↦ none
          | some (rc', z'') ↦ some (ok, z'')
        ]
      ])
        ≡ then_all (list_updates g.filters) (state_of o)
  both-all none = refl
  both-all (some (rc, z')) = elim (Option-cases (add_filter_node ngx main conf r g g.filters z')) [
    | inl missing ↦ ground (arith, missing, add_filter_node-all g.filters z')
    | inr (x, there) ↦ ground (arith, there, add_filter_node-all g.filters z')
  ]

  abbrev filters_on : List Update
  filters_on = if g.names.filter then list_updates g.main_filters ++ list_updates g.filters else []

  add_filter-on :
      (z : Zone)
      → g.names.filter ≡ true
      → add_filter ngx main conf r g z ≡ elim (add_filter_node ngx main conf r g g.main_filters z) [
        | none ↦ none
        | some (rc, z') ↦ elim (add_filter_node ngx main conf r g g.filters z') [
          | none ↦ none
          | some (rc', z'') ↦ some (ok, z'')
        ]
      ]
  unfolding add_filter
  add_filter-on z on = ground (arith, on)

  add_filter-all : (z : Zone) → state_of (add_filter ngx main conf r g z) ≡ add_all filters_on z
  add_filter-all z = elim (Bool-cases g.names.filter) [
    | inr off ↦ unfold add_filter add_all in ground (arith, off)
    | inl on ↦
        ap state_of (add_filter-on z on)
        ∙ both-all (add_filter_node ngx main conf r g g.main_filters z)
        ∙ ap (then_all (list_updates g.filters)) (add_filter_node-all g.main_filters z)
        ∙ sym (add_all-append (list_updates g.main_filters) (list_updates g.filters) z)
        ∙ ap
            (λ b.
              add_all (if b then list_updates g.main_filters ++ list_updates g.filters else []) z)
            (sym on)
  ]

  state-tail :
      (o : Option (Status × Zone)) → elim o [ none ↦ none | some (rc, z) ↦ some z ] ≡ state_of o
  state-tail none = refl
  state-tail (some (rc, z)) = refl

  upstream-tail :
      (o : Option (Status × Zone))
      → elim o [
        | none ↦ none
        | some (rc, z) ↦ elim (add_filter ngx main conf r g z) [
          | none ↦ none
          | some (rc', z') ↦ some z'
        ]
      ]
        ≡ then_all filters_on (state_of o)
  upstream-tail none = refl
  upstream-tail (some (rc, z)) = state-tail (add_filter ngx main conf r g z) ∙ add_filter-all z

  abbrev upstream_on : List Update
  upstream_on = of_target (upstream_target g.upstream) g.upstream.memory

  server-tail :
      (o : Option (Status × Zone))
      → elim o [
        | none ↦ none
        | some (rc, z) ↦ elim (add_upstream ngx main conf r g z) [
          | none ↦ none
          | some (rc', z') ↦ elim (add_filter ngx main conf r g z') [
            | none ↦ none
            | some (rc'', z'') ↦ some z''
          ]
        ]
      ]
        ≡ then_all (upstream_on ++ filters_on) (state_of o)
  server-tail none = refl
  server-tail (some (rc, z)) =
      upstream-tail (add_upstream ngx main conf r g z)
      ∙ ap (then_all filters_on) (add_upstream-all z)
      ∙ sym (add_all-append upstream_on filters_on z)

  abbrev off : Bool
  off = not g.enable || not g.loc_enable || g.bypass_stats || not g.shm_zone

  -- The handler updates, unless the module is off, the location is off or bypassed, or there is no
  -- zone, exactly the nodes of `request_updates`, in that order: the server's, the upstream's, and those
  -- of the filters. A failed update does not keep the others from theirs; a filter that cannot be
  -- evaluated or has no memory ends its list.
  pub handler_lem :
      (z : Zone)
      → handler ngx main conf r g z ≡ (
          if not g.enable || not g.loc_enable || g.bypass_stats || not g.shm_zone
          then some z
          else add_all (request_updates g) z)
  unfolding handler request_updates
  handler_lem z = elim (Bool-cases off) [
    | inl stays ↦ ground (arith, stays)
    | inr on ↦
        let server =
          of_target (of_key (generate_key g.generate (find_name g.names) upstream_no) upstream_no)
            g.memory in
        rw on (
          server-tail (add_server ngx main conf r g z)
          ∙ ap (then_all (upstream_on ++ filters_on)) (add_server-all z)
          ∙ sym (add_all-append server (upstream_on ++ filters_on) z))
  ]
