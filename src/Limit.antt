-- ===== src/Limit.antt =====
-- The limits on traffic: `limit_handler` and `limit_handler_traffic` of
-- ngx_metric_module/src/ngx_http_vhost_traffic_status_limit.c, and `find_name` of
-- ngx_http_vhost_traffic_status_node.c. What nginx's `ngx_http_complex_value` answers for the request
-- at hand is part of a limit here.
pub mod Decide
pub mod Handler
use metrics_server_example.Base.{
  ℕ, Bool, true, false, not, ◌&&◌, ◌||◌, Option, none, some, List, [], ◌∷◌, ltb, ◌==◌,
  if◌then◌else◌, length, set,
}
use metrics_server_example.Text.{Bytes, Status, ok, error}
use metrics_server_example.Key.{generate_key}
use metrics_server_example.Node.Member.{node_member}
use metrics_server_example.RbTree.{RbNode, Nginx}
use metrics_server_example.Zone.{Zone, Found, found, null, dangling, find_node}

-- What `find_name` reads: the two flags of the location, the host header and the name of the server.
pub record Names : Type 0 where
  pub filter : Bool
  pub filter_host : Bool
  pub host_header : Bytes
  pub server_name : Bytes

-- `find_name`
unfoldable pub find_name : Names → Bytes
find_name n =
    if n.filter && n.filter_host && ltb 0 (length n.host_header)
    then n.host_header
    else (if length n.server_name == 0 then b'_' ∷ [] else n.server_name)

-- `limit_t`. `has_variable` and `has_key`: whether the directive gave a text. `variable` and `key`: what
-- these evaluate to, `none` on an error. `memory`: whether `node_generate_key` gets memory.
pub record Limit : Type 0 where
  pub has_variable : Bool
  pub variable : Option Bytes
  pub has_key : Bool
  pub key : Option Bytes
  pub memory : Bool
  pub type : ℕ
  pub size : ℕ
  pub code : ℕ

-- How one round of the loop goes on: to `done`, to the next limit, or to the node of a key and its
-- member of the given name.
pub data Target : Type 0 where
  stop skip : Target
  target : Bytes → Bytes → Target

-- The key for the limit of a server.
unfoldable pub server_target : Names → Limit → Bytes → Target
unfolding find_name generate_key
server_target names l variable =
    let (rc, key) = generate_key l.memory (find_name names) l.type in
    elim rc [ error ↦ stop | ok ↦ if length key == 0 then stop else target key variable ]

-- The body of the loop up to `find_node`.
unfoldable pub limit_target : Names → Limit → Target
unfolding server_target
limit_target names l = elim l.has_variable [
  | false ↦ skip
  | true ↦ elim l.variable [
    | none ↦ stop
    | some variable ↦ if length variable == 0 then skip else elim l.has_key [
      | false ↦ server_target names l variable
      | true ↦ elim l.key [
        | none ↦ stop
        | some key ↦ if length key == 0 then skip else target key variable
      ]
    ]
  ]
]

-- `NGX_DECLINED`, or the code of a limit.
pub data Decision : Type 0 where
  declined : Decision
  rejected : ℕ → Decision

-- The loop of `limit_handler_traffic`.
unfoldable pub limit_loop : Nginx → Names → List Limit → Zone → Option (Decision × Zone)
unfolding limit_target find_node node_member
limit_loop ngx names [] z = some (declined, z)
limit_loop ngx names (l ∷ ls) z = elim (limit_target names l) [
  | stop ↦ some (declined, z)
  | skip ↦ limit_loop ngx names ls z
  | target key variable ↦ elim (find_node ngx z key l.type 0) [
    | dangling ↦ none
    | null ↦ limit_loop ngx names ls z
    | found m ↦
        let z' : Zone = record z { node_caches = set z.node_caches l.type (some m.addr) } in
        elim (ltb l.size (node_member m.vtsn variable)) [
          | true ↦ some (rejected l.code, z')
          | false ↦ limit_loop ngx names ls z'
        ]
  ]
]

-- `limit_handler_traffic`: `none` for no array of limits.
unfoldable pub handler_traffic :
    Nginx → Names → Option (List Limit) → Zone → Option (Decision × Zone)
unfolding limit_loop
handler_traffic ngx names none z = some (declined, z)
handler_traffic ngx names (some ls) z =
    elim (limit_loop ngx names ls (record z { locked = true })) [
      | none ↦ none
      | some (d, z') ↦ some (d, record z' { locked = false })
    ]

-- The limits of the main configuration and of the location, for servers and for filters.
pub record LimitConf : Type 0 where
  pub enable : Bool
  pub limit : Bool
  pub bypass_limit : Bool
  pub main_traffics : Option (List Limit)
  pub traffics : Option (List Limit)
  pub main_filter_traffics : Option (List Limit)
  pub filter_traffics : Option (List Limit)

-- One call after another, as long as they decline.
unfoldable pub handler_chain :
    Nginx → Names → List (Option (List Limit)) → Zone → Option (Decision × Zone)
unfolding handler_traffic
handler_chain ngx names [] z = some (declined, z)
handler_chain ngx names (ls ∷ lss) z = elim (handler_traffic ngx names ls z) [
  | none ↦ none
  | some (rejected code, z') ↦ some (rejected code, z')
  | some (declined, z') ↦ handler_chain ngx names lss z'
]

-- `limit_handler`
unfoldable pub limit_handler : Nginx → Names → LimitConf → Zone → Option (Decision × Zone)
unfolding handler_chain
limit_handler ngx names conf z =
    if not conf.enable || not conf.limit || conf.bypass_limit
    then some (declined, z)
    else handler_chain ngx names
        (conf.main_traffics ∷ conf.traffics ∷ conf.main_filter_traffics ∷ conf.filter_traffics ∷ [])
        z
