-- ===== src/SetFilter.antt =====
-- The directive `vhost_traffic_status_set_by_filter` at a request:
-- ngx_metric_module/src/ngx_http_vhost_traffic_status_set.c, with `node_upstream_lookup` of
-- ngx_http_vhost_traffic_status_control.c. How nginx prints a number is a parameter, and what it
-- evaluates is part of a variable here. `none` as a result is a read through a pointer that C leaves
-- undefined.
pub mod Upstream
pub mod Texts
pub mod Value
pub mod Members
pub mod Argument
use metrics_server_example.Base.{
  ℕ, ◌+◌, Bool, true, false, not, ◌&&◌, ◌||◌, Option, none, some, List, [], ◌∷◌, ◌++◌, ◌==◌,
  if◌then◌else◌, length, take, get_or, set,
}
use metrics_server_example.Text.{Bytes, Status, ok, error, replace_chrc}
use metrics_server_example.Text.Replace.{Buffer, replace_strc}
use metrics_server_example.Group.{upstream_no, upstream_ua, upstream_ug, upstream_cc, upstream_fg}
use metrics_server_example.Key.{separator, generate_key}
use metrics_server_example.Node.{Node}
use metrics_server_example.Node.Member.{member_eq}
use metrics_server_example.RequestKeys.{strncasecmp_eq}
use metrics_server_example.RbTree.{RbNode, Nginx}
use metrics_server_example.Zone.{Zone, Found, found, null, dangling, find_node}
use metrics_server_example.Variables.{VariableValue, found_value}
use metrics_server_example.SetFilter.Upstream.{
  ServerConf, UpstreamConf, zero_server, UpstreamLookup, upstream_lookup,
}
use metrics_server_example.SetFilter.Members.{is_upstream, filter_node_member}
use metrics_server_example.SetFilter.Argument.{filter_init, refused, undefined, parsed}

-- Whether the pool gives memory: for the copy of the zone, the key, and the text of the value.
pub record Memory : Type 0 where
  pub copy : Bool
  pub key : Bool
  pub value : Bool

-- The count of the control block and the text of a value, or the error.
abbrev pub Answer : Type 0
Answer = Option (ℕ × Option Bytes)

-- The `switch` of `set_by_filter_node` at a node.
unfoldable pub node_value : (ℕ → Bytes) → List UpstreamConf → ℕ → Bytes → Bytes → ℕ → Node → Answer
unfolding filter_node_member upstream_lookup
node_value print upstreams group zone member count v =
    if is_upstream group
    then (elim (upstream_lookup upstreams group zone
        (record { server = zero_server; name = []; count = count })) [
          | none ↦ none
          | some r ↦ some (
            r.count,
            if r.count == 0
                then none
                else some (print (filter_node_member group member v r.server)),
          )
        ])
    else some (count, some (print (filter_node_member group member v zero_server)))

-- `set_by_filter_node`
unfoldable pub filter_node :
    Nginx → (ℕ → Bytes) → List UpstreamConf → Memory → Zone → ℕ → Bytes → Bytes → ℕ → Answer
unfolding node_value
filter_node ngx print upstreams memory z group zone member count =
    let key = generate_key memory.key zone group in
    elim key.0 [
      | error ↦ some (count, none)
      | ok ↦ elim (find_node ngx z key.1 group 0) [
        | dangling ↦ none
        | null ↦ some (count, none)
        | found m ↦
            if memory.value
            then node_value print upstreams group zone member count m.vtsn
            else some (count, none)
      ]
    ]

-- `filter_variable_t`: its place among the variables, what its text evaluates to, the allocations, and
-- the handler that another module set for it.
pub record FilterVariable : Type 0 where
  pub index : ℕ
  pub value : Option Bytes
  pub memory : Memory
  pub set_handler : List VariableValue → List VariableValue

-- One round of the loop: the count and the answer for one variable.
unfoldable pub filter_answer :
    Nginx → (ℕ → Bytes) → List UpstreamConf → Memory → Zone → Bytes → ℕ → Answer
unfolding filter_init filter_node
filter_answer ngx print upstreams memory z uri count = elim (filter_init memory.copy uri) [
  | refused ↦ some (count, none)
  | undefined ↦ none
  | parsed group zone member ↦ filter_node ngx print upstreams memory z group zone member count
]

abbrev pub blank : VariableValue
blank = record { text = []; valid = false; no_cacheable = false; not_found = false }

-- What a round writes to the value of its variable.
unfoldable pub answer_value : Option Bytes → VariableValue → VariableValue
answer_value none v = record v { not_found = true }
answer_value (some text) v = record v { text = text; valid = true; not_found = false }

-- The loop of `set_by_filter_variables`, with the values of all variables.
unfoldable pub filter_loop :
    Nginx
    → (ℕ → Bytes)
    → List UpstreamConf
    → Zone
    → List FilterVariable
    → ℕ
    → List VariableValue
    → Option (Status × List VariableValue)
unfolding filter_answer answer_value
filter_loop ngx print upstreams z [] count vs = some (ok, vs)
filter_loop ngx print upstreams z (fv ∷ fvs) count vs = elim fv.value [
  | none ↦ some (error, vs)
  | some uri ↦ elim (filter_answer ngx print upstreams fv.memory z uri count) [
    | none ↦ none
    | some (count', answer) ↦
        filter_loop ngx print upstreams z fvs count'
          (fv.set_handler (set vs fv.index (answer_value answer (get_or vs fv.index blank))))
  ]
]

-- `set_by_filter_variables`: whether the pool gives the memory of the control block and of its four
-- texts, and the variables of the location (`none` for no array). The status.
unfoldable pub filter_variables :
    Nginx
    → (ℕ → Bytes)
    → List UpstreamConf
    → Bool
    → Option (List FilterVariable)
    → Zone
    → List VariableValue
    → Option (Status × List VariableValue)
unfolding filter_loop
filter_variables ngx print upstreams memory vars z vs = elim memory [
  | false ↦ some (error, vs)
  | true ↦ elim vars [
    | none ↦ some (ok, vs)
    | some fvs ↦ filter_loop ngx print upstreams z fvs 0 vs
  ]
]

-- `set_handler`, which always declines: the values afterwards.
unfoldable pub set_handler :
    Nginx
    → (ℕ → Bytes)
    → List UpstreamConf
    → Bool
    → Bool
    → Bool
    → Option (List FilterVariable)
    → Zone
    → List VariableValue
    → Option (List VariableValue)
unfolding filter_variables
set_handler ngx print upstreams enable filter memory vars z vs =
    if not enable || not filter
    then some vs
    else elim (filter_variables ngx print upstreams memory vars z vs) [
      | none ↦ none
      | some r ↦ some r.1
    ]
