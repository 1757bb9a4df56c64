-- ===== src/Handler.antt =====
-- What a request updates when it is logged: `handler` of
-- ngx_metric_module/src/ngx_http_vhost_traffic_status_module.c with `shm_add_server`,
-- `shm_add_upstream`, `shm_add_filter` and `shm_add_filter_node` of
-- ngx_http_vhost_traffic_status_shm.c. What nginx answers for the request (the values of variables, the
-- state of the upstream, allocations) is part of the records below. `none` is behaviour that C leaves
-- undefined, as in `Zone`.
pub mod Updates
use metrics_server_example.Base.{
  ℕ, zero, suc, ◌+◌, Bool, true, false, not, ◌&&◌, ◌||◌, Option, none, some, List, [], ◌∷◌, ◌++◌,
  ltb, leb, ◌==◌, if◌then◌else◌, length,
}
use metrics_server_example.Text.{Bytes, Status, ok, error}
use metrics_server_example.Group.{upstream_no, upstream_ua, upstream_ug, upstream_fg}
use metrics_server_example.Key.{separator, generate_key}
use metrics_server_example.Clock.{UpstreamState, upstream_response_time}
use metrics_server_example.Node.{Request, LocConf}
use metrics_server_example.RbTree.{Nginx}
use metrics_server_example.Filter.{MainConf}
use metrics_server_example.Zone.{Zone, Memory, add_node}
use metrics_server_example.Limit.{Names, find_name}
use metrics_server_example.RequestKeys.{
  Filter, Target, fail, skip, target, filter_target, of_key, Server, Resolved, Upstream,
  upstream_target, response_ms,
}

-- What one request brings: the flags of the configuration, the names for `shm_add_server` and its
-- allocations, the upstream, and the filters of the main configuration and of the location.
pub record Logged : Type 0 where
  pub enable : Bool
  pub loc_enable : Bool
  pub bypass_stats : Bool
  pub shm_zone : Bool
  pub names : Names
  pub generate : Bool
  pub memory : Memory
  pub upstream : Upstream
  pub main_filters : Option (List Filter)
  pub filters : Option (List Filter)

module _ (ngx : Nginx) (main : MainConf) (conf : LocConf) (r : Request) (g : Logged) where
  -- `shm_add_node` for a key of this request.
  unfoldable pub add : Memory → Bytes → ℕ → Zone → Option (Status × Zone)
  unfolding add_node upstream_response_time
  add mem key type z = add_node ngx main conf r (response_ms g.upstream) mem z key type

  -- `shm_add_server`
  unfoldable pub add_server : Zone → Option (Status × Zone)
  unfolding add generate_key find_name
  add_server z =
      let key = generate_key g.generate (find_name g.names) upstream_no in
      elim key.0 [ error ↦ some (error, z) | ok ↦ add g.memory key.1 upstream_no z ]

  -- `shm_add_upstream`: the status of `shm_add_node` is only logged.
  unfoldable pub add_upstream : Zone → Option (Status × Zone)
  unfolding add upstream_target
  add_upstream z = elim (upstream_target g.upstream) [
    | fail ↦ some (error, z)
    | skip ↦ some (ok, z)
    | target key type ↦ elim (add g.upstream.memory key type z) [
      | none ↦ none
      | some (rc, z') ↦ some (ok, z')
    ]
  ]

  -- The loop of `shm_add_filter_node`.
  unfoldable pub add_filters : List Filter → Zone → Option (Status × Zone)
  unfolding add filter_target
  add_filters [] z = some (ok, z)
  add_filters (f ∷ fs) z = elim (filter_target f) [
    | fail ↦ some (error, z)
    | skip ↦ add_filters fs z
    | target key type ↦ elim (add f.memory key type z) [
      | none ↦ none
      | some (rc, z') ↦ add_filters fs z'
    ]
  ]

  -- `shm_add_filter_node`
  unfoldable pub add_filter_node : Option (List Filter) → Zone → Option (Status × Zone)
  unfolding add_filters
  add_filter_node none z = some (ok, z)
  add_filter_node (some fs) z = add_filters fs z

  -- `shm_add_filter`: a failure of the first list does not keep the second from its turn.
  unfoldable pub add_filter : Zone → Option (Status × Zone)
  unfolding add_filter_node
  add_filter z =
      if g.names.filter
      then elim (add_filter_node g.main_filters z) [
        | none ↦ none
        | some (rc, z') ↦ elim (add_filter_node g.filters z') [
          | none ↦ none
          | some (rc', z'') ↦ some (ok, z'')
        ]
      ]
      else some (ok, z)

  -- `handler`; it always declines, and the status of each part is only logged.
  unfoldable pub handler : Zone → Option Zone
  unfolding add_server add_upstream add_filter
  handler z =
      if not g.enable || not g.loc_enable || g.bypass_stats || not g.shm_zone
      then some z
      else elim (add_server z) [
        | none ↦ none
        | some (rc, z1) ↦ elim (add_upstream z1) [
          | none ↦ none
          | some (rc', z2) ↦ elim (add_filter z2) [ none ↦ none | some (rc'', z3) ↦ some z3 ]
        ]
      ]
