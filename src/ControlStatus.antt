-- ===== src/ControlStatus.antt =====
-- What the control interface answers with: `node_status` with its three ranges in
-- ngx_metric_module/src/ngx_http_vhost_traffic_status_control.c, in the build without statistics of
-- caches, for a nginx above 1.7.1. `none` is an output that does not end,
-- or that C leaves undefined.
pub mod Groups
pub mod Entries
pub mod Zones
pub mod Handler
pub mod Left
use metrics_server_example.Base.{
  ℕ, ◌+◌, Bool, false, ◌&&◌, ◌||◌, not, Option, none, some, List, [], ◌∷◌, ◌++◌, ◌-◌, ◌==◌,
  if◌then◌else◌, map, length, take,
}
use metrics_server_example.Base.Words.{add64}
use metrics_server_example.Text.{Bytes, ok, error}
use metrics_server_example.Group.{upstream_no, upstream_ua, upstream_ug, upstream_fg}
use metrics_server_example.Key.{generate_key, position_key}
use metrics_server_example.Node.{Node}
use metrics_server_example.RbTree.{RbNode, Tree, name, Nginx, lookup}
use metrics_server_example.Filter.{MainConf}
use metrics_server_example.RequestKeys.{strncasecmp_eq}
use metrics_server_example.Zone.{update_at}
use metrics_server_example.SetFilter.Upstream.{
  Peer, UpstreamConf, UpstreamLookup, zero_server, upstream_lookup,
}
use metrics_server_example.Control.{
  Selector, group, group_number, Range, range_none, range_all, range_group, range_zone, Control,
  Pool,
}
use metrics_server_example.Json.{
  fmt_array, Value, text, number, Env, Stats, set_server_node, set_server, closed,
}
use metrics_server_example.Json.Upstream.{
  UpstreamServer, UpstreamSrvConf, boolean_to_string, set_upstream_node, set_upstream_alone,
}
use metrics_server_example.Json.UpstreamGroup.{nogroups, set_upstream_group}
use metrics_server_example.Json.Filters.{set_filter}
use metrics_server_example.Json.Whole.{
  Main, set_main, server_zones_name, filter_zones_name, upstream_zones_name, display_set,
}

-- What the output needs besides the tree: that of `display_set`, the memory of a command, and whether
-- there is memory for the copy of a name in a group.
pub record Output : Type 0 where
  pub env : Env
  pub main : Main
  pub conf : MainConf
  pub pool : Pool
  pub sort : List Bytes → List Bytes
  pub memory : Bool
  pub upstreams : List UpstreamSrvConf

-- The bytes of the heads of the groups of upstreams.
unfoldable pub head_bytes : Env → List UpstreamSrvConf → ℕ
head_bytes env [] = 0
head_bytes env (u ∷ us) = length (env.sprintf fmt_array (text u.host ∷ [])) + head_bytes env us

-- At least the bytes that an output in JSON takes back again: the names of parts and the heads of arrays
-- that turn out to have no entries.
unfoldable pub json_spare : Output → ℕ
unfolding head_bytes
json_spare o =
    length server_zones_name
    + length filter_zones_name
    + length upstream_zones_name
    + head_bytes o.env o.upstreams
    + length (o.env.sprintf fmt_array (text nogroups ∷ []))

-- The tree and the sums as a command leaves them, the answer, and the count of the nodes or members.
pub record Report : Type 0 where
  pub tree : Tree
  pub stats : Stats
  pub buf : Bytes
  pub count : ℕ

abbrev pub report : Tree → Stats → Bytes → ℕ → Report
report t s buf count = record { tree = t; stats = s; buf = buf; count = count }

-- `node_status_all`
unfoldable pub status_all : Nginx → Output → ℕ → Tree → Stats → Option Report
unfolding display_set
status_all ngx o count t s =
    elim (display_set ngx o.env o.main o.conf o.pool o.sort o.memory o.upstreams (t, s)) [
      | none ↦ none
      | some (t', (buf, s')) ↦ some (report t' s' buf count)
    ]

-- What opens the member of a group; there is none for the group of caches.
unfoldable pub group_open : Env → Selector → Bytes
group_open env (group n) =
    if n == upstream_no
    then server_zones_name ++ b'{' ∷ []
    else (if n == upstream_ua
        then env.sprintf fmt_array (text nogroups ∷ [])
        else (if n == upstream_ug
            then upstream_zones_name
            else (if n == upstream_fg then filter_zones_name else [])))
group_open env _ = []

-- The entries of a group, behind an output.
unfoldable pub group_entries :
    Nginx → Output → Selector → Bytes → Tree → Stats → Option (Tree × (Bytes × Stats))
unfolding set_server set_upstream_alone set_upstream_group set_filter
group_entries ngx o (group n) out t s =
    let with_stats : Option (Tree × Bytes) → Option (Tree × (Bytes × Stats)) =
      λ r. elim r [ none ↦ none | some (t', buf) ↦ some (t', (buf, s)) ] in
    if n == upstream_no
    then set_server o.env t (out, s)
    else (if n == upstream_ua
        then with_stats (set_upstream_alone o.env t out)
        else (if n == upstream_ug
            then with_stats (set_upstream_group ngx o.env o.memory o.upstreams (t, out))
            else (if n == upstream_fg
                then with_stats (set_filter o.env o.pool o.sort (t, out))
                else some (t, (out, s)))))
group_entries ngx o _ out t s = some (t, (out, s))

-- What closes the member of a group.
unfoldable pub group_close : Selector → Bytes
group_close (group n) = if n == upstream_ua then b']' ∷ [] else b'}' ∷ []
group_close _ = b'}' ∷ []

-- `node_status_group`
unfoldable pub status_group : Nginx → Output → Selector → ℕ → Tree → Stats → Option Report
unfolding group_open group_entries group_close closed
status_group ngx o g count t s =
    let out = (b'{' ∷ []) ++ group_open o.env g in
    elim (group_entries ngx o g out t s) [
      | none ↦ none
      | some (t', (buf, s')) ↦ some (
          report t' s' (closed (b'{' ∷ []) out buf (group_close g) ++ b'}' ∷ [])
            (if length out == length buf then count else add64 count 1))
    ]

-- The configuration as `node_upstream_lookup` reads it: a server under the name of its first address,
-- which nginx gives every server.
abbrev first_peer : UpstreamServer → Peer
first_peer u = record { address = elim u.addrs [ [] ↦ [] | (a ∷ rest) ↦ a ]; server = u.conf }

abbrev pub lookup_conf : UpstreamSrvConf → UpstreamConf
lookup_conf u = record {
  host = u.host;
  port = u.port;
  servers = elim u.servers [ none ↦ none | some us ↦ some (map first_peer us) ];
}

-- The name of the zone of nginx itself.
abbrev pub main_zone : Bytes
main_zone = b':' ∷ b':' ∷ b'm' ∷ b'a' ∷ b'i' ∷ b'n' ∷ []

-- The test for that zone.
unfoldable pub is_main : Control → Bool
unfolding strncasecmp_eq
is_main c = elim c.selector [
  | group n ↦ n == upstream_no && length c.zone == 6 && strncasecmp_eq c.zone main_zone
  | _ ↦ false
]

-- A group of upstreams, whose servers stand without a brace around them.
abbrev pub is_upstreams : Selector → Bool
is_upstreams (group n) = n == upstream_ug || n == upstream_ua
is_upstreams _ = false

-- The `switch` over the group at the node of the key: what is printed, the node and the count.
unfoldable pub zone_entry :
    Output → Selector → Bytes → Bytes → ℕ → RbNode → Option (Bytes × (Node × ℕ))
unfolding set_server_node upstream_lookup set_upstream_node position_key
zone_entry o (group n) zone key count m =
    let server : Bytes → Option (Bytes × (Node × ℕ)) = λ k.
      elim (set_server_node o.env (o.env.memory m.addr) k m.vtsn) [
        | none ↦ none
        | some (line, v) ↦ some (line, (v, count))
      ] in
    let start : UpstreamLookup = record { server = zero_server; name = []; count = count } in
    let upstream : UpstreamLookup → Option (Bytes × (Node × ℕ)) = λ u.
      elim (set_upstream_node o.env u.name u.server (some m)) [
        | none ↦ none
        | some (line, none) ↦ some (line, (m.vtsn, u.count))
        | some (line, some v) ↦ some (line, (v, u.count))
      ] in
    if n == upstream_no
    then server key
    else (if n == upstream_ua || n == upstream_ug
        then elim (upstream_lookup (map lookup_conf o.upstreams) n zone start) [
          | none ↦ none
          | some u ↦ if u.count == 0 then some ([], (m.vtsn, u.count)) else upstream u
        ]
        else (if n == upstream_fg
            then server (position_key (name m) 2).1
            else some ([], (m.vtsn, count))))
zone_entry o _ zone key count m = some ([], (m.vtsn, count))

-- The answer around the entry of a node: its last byte, a comma, gives way to the brace, where there is
-- one.
unfoldable pub zone_answer : Selector → Bytes → Bytes
zone_answer g line =
    let start : Bytes = if is_upstreams g then [] else b'{' ∷ [] in
    if length line == 0
    then start
    else take (length (start ++ line) - 1) (start ++ line)
      ++ (if is_upstreams g then [] else b'}' ∷ [])

-- `node_status_zone`
unfoldable pub status_zone : Nginx → Output → Control → Tree → Stats → Option Report
unfolding is_main set_main generate_key lookup zone_entry zone_answer update_at
status_zone ngx o c t s =
    let whole = (b'{' ∷ []) ++ set_main o.env o.main o.conf t in
    let key = generate_key o.pool.key c.zone (group_number c.selector) in
    if is_main c
    then some (report t s (take (length whole - 1) whole ++ b'}' ∷ []) (add64 c.count 1))
    else elim key.0 [
      | error ↦ some (report t s [] c.count)
      | ok ↦ elim (lookup ngx t key.1 (ngx.crc32_short key.1)) [
        | none ↦ some (report t s [] c.count)
        | some m ↦ elim (zone_entry o c.selector c.zone key.1 c.count m) [
          | none ↦ none
          | some (line, (v, count)) ↦ some (
              report (update_at m.addr v t) s (zone_answer c.selector line)
                (if length line == 0 then count else add64 count 1))
        ]
      ]
    ]

-- `node_status`
unfoldable pub node_status : Nginx → Output → Control → Tree → Stats → Option Report
unfolding status_all status_group status_zone
node_status ngx o c t s = elim c.range [
  | range_none ↦ some (report t s [] c.count)
  | range_all ↦ status_all ngx o c.count t s
  | range_group ↦ status_group ngx o c.selector c.count t s
  | range_zone ↦ status_zone ngx o c t s
]
