-- ===== src/Json/Upstream.antt =====
-- The upstreams in the output: `display_set_upstream_node`, `display_set_upstream_alone` and
-- `display_set_upstream_group` of
-- ngx_metric_module/src/ngx_http_vhost_traffic_status_display_json.c, for a nginx above 1.7.1. The
-- configuration of the upstreams and the peers of a shared upstream are nginx's.
pub mod Lines
pub mod Members
use metrics_server_example.Base.{
  ℕ, Bool, true, false, ◌&&◌, ◌||◌, not, Option, none, some, List, [], ◌∷◌, ◌++◌, leb, ◌==◌,
  if◌then◌else◌, length, take, replicate, map, ◌-◌,
}
use metrics_server_example.Text.{Bytes, ok, error, Str, escape_json_pool}
use metrics_server_example.Group.{upstream_ua, upstream_ug}
use metrics_server_example.Key.{separator, generate_key, position_key}
use metrics_server_example.Node.{Node}
use metrics_server_example.RbTree.{RbNode, Tree, sentinel, fork, name, Nginx, lookup}
use metrics_server_example.Zone.{update_at}
use metrics_server_example.SetFilter.Upstream.{ServerConf, zero_server}
use metrics_server_example.Json.{
  fmt_upstream, Value, number, text, Env, max_integer, counter_values, time_values,
}

-- `ngx_http_upstream_server_t`: the configuration and the names of the addresses.
pub record UpstreamServer : Type 0 where
  pub conf : ServerConf
  pub addrs : List Bytes

-- `ngx_http_upstream_rr_peer_t`, the fields that are read.
pub record RrPeer : Type 0 where
  pub name : Bytes
  pub weight : ℕ
  pub max_fails : ℕ
  pub fail_timeout : ℕ
  pub fails : ℕ
  pub down : Bool

-- `ngx_http_upstream_srv_conf_t`: the servers, if any, and the peers where the upstream is shared.
pub record UpstreamSrvConf : Type 0 where
  pub host : Bytes
  pub port : ℕ
  pub servers : Option (List UpstreamServer)
  pub peers : Option (List RrPeer)

-- `boolean_to_string`
abbrev pub boolean_to_string : ℕ → Bytes
boolean_to_string b =
    if b == 0 then b'f' ∷ b'a' ∷ b'l' ∷ b's' ∷ b'e' ∷ [] else b't' ∷ b'r' ∷ b'u' ∷ b'e' ∷ []

-- What `%V` prints of a text: `none` where it has no length in its memory.
unfoldable pub str_value : Str → Option Value
str_value s = elim s.len [ none ↦ none | some n ↦ some (text (take n s.memory)) ]

-- The part of the line that comes from the configuration.
unfoldable pub conf_values : ServerConf → List Value
conf_values us =
    number us.weight
    ∷ number us.max_fails
    ∷ number us.fail_timeout
    ∷ text (boolean_to_string us.backup)
    ∷ text (boolean_to_string us.down)
    ∷ text max_integer
    ∷ []

-- The zeros and empty texts that stand for a queue and a histogram.
abbrev pub no_times : List Value
no_times = number 0 ∷ text [] ∷ text [] ∷ text [] ∷ text [] ∷ []

abbrev pub zeros : ℕ → List Value
zeros n = replicate n (number 0)

-- The line of a server without a node.
unfoldable pub null_values : ServerConf → List Value
unfolding conf_values
null_values us = zeros 9 ++ no_times ++ zeros 1 ++ no_times ++ conf_values us ++ zeros 10

-- The line of a server with a node, and the node with the queues that the averages leave.
unfoldable pub node_values : Env → RbNode → ServerConf → Option (List Value × Node)
unfolding conf_values counter_values time_values
node_values env m us =
    let v = m.vtsn in
    let u = v.upstream in
    elim (time_values env (env.memory m.addr) v.request_times v.request_buckets) [
      | none ↦ none
      | some (request, q) ↦
          elim (time_values env (env.response_memory m.addr) u.response_times u.response_buckets) [
            | none ↦ none
            | some (response, q') ↦ some (
              counter_values v.stat
                  ++ request
                  ++ (number u.response_time_counter ∷ response)
                  ++ conf_values us
                  ++ counter_values v.stat_oc
                  ++ number v.response_time_counter_oc ∷ [],
              record v { request_times = q; upstream = record u { response_times = q' } },
            )
          ]
    ]

-- `display_set_upstream_node` with the name of `us`: the line, and the node as it leaves it.
unfoldable pub set_upstream_node :
    Env → Bytes → ServerConf → Option RbNode → Option (Bytes × Option Node)
unfolding escape_json_pool str_value null_values node_values
set_upstream_node env name us m =
    elim (str_value (escape_json_pool (env.escape_memory name) name).1) [
      | none ↦ none
      | some key ↦ elim m [
        | none ↦ some (env.sprintf fmt_upstream (key ∷ null_values us), none)
        | some m' ↦ elim (node_values env m' us) [
          | none ↦ none
          | some (vs, v) ↦ some (env.sprintf fmt_upstream (key ∷ vs), some v)
        ]
      ]
    ]

-- What `display_set_upstream_alone` does at one node.
unfoldable pub set_alone_at : Env → RbNode → Bytes → Option (RbNode × Bytes)
unfolding position_key set_upstream_node
set_alone_at env m out =
    if m.vtsn.upstream.type == upstream_ua
    then elim (set_upstream_node env (position_key (name m) 1).1 zero_server (some m)) [
      | none ↦ none
      | some (line, none) ↦ some (m, out ++ line)
      | some (line, some v) ↦ some (record m { vtsn = v }, out ++ line)
    ]
    else some (m, out)

-- `display_set_upstream_alone`
unfoldable pub set_upstream_alone : Env → Tree → Bytes → Option (Tree × Bytes)
unfolding set_alone_at
set_upstream_alone env sentinel out = some (sentinel, out)
set_upstream_alone env (fork l m r) out = elim (set_alone_at env m out) [
  | none ↦ none
  | some (m', out1) ↦ elim (set_upstream_alone env l out1) [
    | none ↦ none
    | some (l', out2) ↦ elim (set_upstream_alone env r out2) [
      | none ↦ none
      | some (r', out3) ↦ some (fork l' m' r', out3)
    ]
  ]
]

-- The tree and the output; the first says whether the function goes on, or returns where there is no
-- memory for a key.
abbrev pub Progress : Type 0
Progress = Bool × (Tree × Bytes)

-- One line of a group: the node of the key that the host and the name make, if there is one. The
-- number is the size of `dst`: `none` where the host, the separator and the name are longer.
unfoldable pub set_member :
    Nginx → Env → ℕ → Bytes → Bytes → ServerConf → Tree × Bytes → Option Progress
unfolding generate_key lookup set_upstream_node update_at
set_member ngx env room host name us (t, out) =
    let dst = host ++ separator ∷ name in
    let key = generate_key (env.key_memory dst) dst upstream_ug in
    elim (leb (length dst) room) [
      | false ↦ none
      | true ↦ elim key.0 [
        | error ↦ some (false, (t, out))
        | ok ↦
            let node = lookup ngx t key.1 (ngx.crc32_short key.1) in
            elim (set_upstream_node env name us node) [
              | none ↦ none
              | some (line, v) ↦ some (
                true,
                (
                  elim node [
                    | none ↦ t
                    | some m ↦ elim v [ none ↦ t | some v' ↦ update_at m.addr v' t ]
                  ],
                  out ++ line,
                ),
              )
            ]
      ]
    ]

-- The lines of names with their configurations, in order.
unfoldable pub set_members :
    Nginx → Env → ℕ → Bytes → List (Bytes × ServerConf) → Tree × Bytes → Option Progress
unfolding set_member
set_members ngx env room host [] st = some (true, st)
set_members ngx env room host (s ∷ ss) st = elim (set_member ngx env room host s.0 s.1 st) [
  | none ↦ none
  | some (false, st') ↦ some (false, st')
  | some (true, st') ↦ set_members ngx env room host ss st'
]

-- A peer with what `usn` takes from it.
unfoldable pub of_peer : RrPeer → Bytes × ServerConf
of_peer p = (
  p.name,
  record {
    weight = p.weight;
    max_fails = p.max_fails;
    fail_timeout = p.fail_timeout;
    backup = 0;
    down = if leb p.max_fails p.fails || p.down then 1 else 0;
  },
)

-- The addresses of the servers; beside the peers of a shared upstream, of the backup servers only.
unfoldable pub of_servers : Bool → List UpstreamServer → List (Bytes × ServerConf)
of_servers zone [] = []
of_servers zone (s ∷ ss) =
    if zone && not (s.conf.backup == 1)
    then of_servers zone ss
    else map (λ a. (a, s.conf)) s.addrs ++ of_servers zone ss
