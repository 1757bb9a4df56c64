-- ===== src/RequestKeys.antt =====
-- The keys of the nodes that a request updates: `shm_add_upstream` and `shm_add_filter_node` of
-- ngx_metric_module/src/ngx_http_vhost_traffic_status_shm.c up to their calls of `shm_add_node`.
-- What nginx answers for the request (the values of variables, the state of the upstream,
-- allocations) is part of the records below.
use metrics_server_example.Base.{
  ℕ, ◌+◌, Bool, true, false, ◌&&◌, ◌||◌, Option, none, some, List, [], ◌∷◌, ◌++◌, leb, ◌==◌,
  if◌then◌else◌, length,
}
use metrics_server_example.Text.{Bytes, Status, ok, error}
use metrics_server_example.Group.{upstream_no, upstream_ua, upstream_ug, upstream_fg}
use metrics_server_example.Key.{separator, generate_key}
use metrics_server_example.Clock.{UpstreamState, upstream_response_time}
use metrics_server_example.Zone.{Memory}

-- A filter of a list: whether its key has a text, what key and name evaluate to (`none` on an error),
-- and the allocations: the joined name, the key, and those of `shm_add_node`.
pub record Filter : Type 0 where
  pub has_key : Bool
  pub key : Option Bytes
  pub name : Option Bytes
  pub copy : Bool
  pub generate : Bool
  pub memory : Memory

-- One update of a node: the key and its group, or how the code goes on without one.
pub data Target : Type 0 where
  fail skip : Target
  target : Bytes → ℕ → Target

abbrev pub of_key : Status × Bytes → ℕ → Target
of_key (ok, key) type = target key type
of_key (error, dst) type = fail

-- One round of the loop of `shm_add_filter_node` up to `shm_add_node`.
unfoldable pub filter_target : Filter → Target
unfolding generate_key
filter_target f = elim f.has_key [
  | false ↦ skip
  | true ↦ elim f.key [
    | none ↦ fail
    | some key ↦ elim f.name [
      | none ↦ fail
      | some name ↦
          if length key == 0
          then skip
          else (if length name == 0
              then of_key (generate_key f.generate key upstream_no) upstream_no
              else (if f.copy
                  then of_key (generate_key f.generate (name ++ separator ∷ key) upstream_fg)
                      upstream_fg
                  else fail))
    ]
  ]
]

-- The host and the port of an upstream.
pub record Server : Type 0 where
  pub host : Bytes
  pub port : ℕ

-- `u->resolved`
pub record Resolved : Type 0 where
  pub server : Server
  pub no_port : Bool

-- What `shm_add_upstream` reads and is given: the states of the request, whether the last one is set,
-- the resolved host, the configured upstream, all upstreams, the peer of the first state, and the
-- allocations: the upstream's record, the joined name, the key, and those of `shm_add_node`.
pub record Upstream : Type 0 where
  pub states : Option (List UpstreamState)
  pub state : Bool
  pub resolved : Option Resolved
  pub configured : Server
  pub upstreams : List Server
  pub peer : Option Bytes
  pub record_memory : Bool
  pub copy : Bool
  pub generate : Bool
  pub memory : Memory

-- `ngx_tolower`
abbrev lower : ℕ → ℕ
lower c = if leb b'A' c && leb c b'Z' then c + 32 else c

-- `ngx_strncasecmp(a, b, n) == 0` on texts of `n` bytes.
unfoldable pub strncasecmp_eq : Bytes → Bytes → Bool
strncasecmp_eq [] b = true
strncasecmp_eq (x ∷ xs) [] = false
strncasecmp_eq (x ∷ xs) (y ∷ ys) =
    let rest = strncasecmp_eq xs ys in
    if lower x == lower y then (if x == 0 then true else rest) else false

-- The loop over the upstreams.
unfoldable pub find_upstream : Resolved → List Server → Option Server
unfolding strncasecmp_eq
find_upstream r [] = none
find_upstream r (s ∷ ss) =
    let rest = find_upstream r ss in
    if length s.host == length r.server.host
      && (s.port == 0 && r.no_port || s.port == r.server.port)
      && strncasecmp_eq s.host r.server.host
    then some s
    else rest

-- The upstream of the request; `none` where there is no memory for its record.
unfoldable pub upstream_server : Upstream → Option Server
unfolding find_upstream
upstream_server u = elim u.resolved [
  | none ↦ some u.configured
  | some r ↦ elim (find_upstream r u.upstreams) [
    | some s ↦ some s
    | none ↦ if u.record_memory then some r.server else none
  ]
]

-- The key of a peer: alone where the upstream has a port, and otherwise with the upstream's name.
unfoldable pub peer_target : Upstream → Server → Bytes → Target
unfolding generate_key
peer_target u s peer =
    if u.copy
    then (if s.port == 0
        then of_key (generate_key u.generate (s.host ++ separator ∷ peer) upstream_ug) upstream_ug
        else of_key (generate_key u.generate peer upstream_ua) upstream_ua)
    else fail

-- `shm_add_upstream` up to `shm_add_node`.
unfoldable pub upstream_target : Upstream → Target
unfolding upstream_server peer_target
upstream_target u = elim u.states [
  | none ↦ skip
  | some [] ↦ skip
  | some (state ∷ states) ↦ elim u.state [
    | false ↦ skip
    | true ↦ elim (upstream_server u) [
      | none ↦ fail
      | some s ↦ elim u.peer [ none ↦ fail | some peer ↦ peer_target u s peer ]
    ]
  ]
]

-- `upstream_response_time` of the request; it is only read where there are states.
abbrev pub response_ms : Upstream → ℕ
response_ms u = elim u.states [ none ↦ 0 | some states ↦ upstream_response_time states ]
