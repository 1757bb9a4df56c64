-- ===== src/SetFilter/Upstream.antt =====
-- The server of an upstream that a key names: `node_upstream_lookup` of
-- ngx_metric_module/src/ngx_http_vhost_traffic_status_control.c.
use metrics_server_example.Base.{
  ℕ, Bool, true, false, ◌&&◌, Option, none, some, List, [], ◌∷◌, ◌==◌, if◌then◌else◌, length,
}
use metrics_server_example.Base.Words.{add64}
use metrics_server_example.Text.{Bytes, ok, error, strncmp_eq}
use metrics_server_example.Group.{upstream_ua}
use metrics_server_example.Key.{position_key}

-- `ngx_http_upstream_server_t`, the fields that are read. The flags are bits.
pub record ServerConf : Type 0 where
  pub weight : ℕ
  pub max_fails : ℕ
  pub fail_timeout : ℕ
  pub backup : ℕ
  pub down : ℕ

abbrev pub zero_server : ServerConf
zero_server = record { weight = 0; max_fails = 0; fail_timeout = 0; backup = 0; down = 0 }

-- A server of an upstream, under the name of its first address.
pub record Peer : Type 0 where
  pub address : Bytes
  pub server : ServerConf

-- `ngx_http_upstream_srv_conf_t`
pub record UpstreamConf : Type 0 where
  pub host : Bytes
  pub port : ℕ
  pub servers : Option (List Peer)

-- `*usn` with its name, and `control->count`.
pub record UpstreamLookup : Type 0 where
  pub server : ServerConf
  pub name : Bytes
  pub count : ℕ

-- Equal lengths and `ngx_strncmp`.
unfoldable pub same_text : Bytes → Bytes → Bool
unfolding strncmp_eq
same_text a b = length a == length b && strncmp_eq (length b) a b

-- The loop over the servers.
unfoldable pub find_peer : List Peer → Bytes → Option Peer
unfolding same_text
find_peer [] ush = none
find_peer (p ∷ ps) ush =
    let rest = find_peer ps ush in if same_text p.address ush then some p else rest

-- The loop over the upstreams; `none` is the read through `NULL` at an upstream without servers.
unfoldable pub find_host :
    List UpstreamConf → Bytes → Bytes → UpstreamLookup → Option UpstreamLookup
unfolding find_peer same_text
find_host [] usg ush usn = some usn
find_host (u ∷ us) usg ush usn = elim u.servers [
  | none ↦ elim (u.port == 0) [ true ↦ none | false ↦ find_host us usg ush usn ]
  | some peers ↦ elim (same_text u.host usg) [
    | false ↦ find_host us usg ush usn
    | true ↦ elim (find_peer peers ush) [
      | none ↦ some usn
      | some p ↦ some (record { server = p.server; name = p.address; count = add64 usn.count 1 })
    ]
  ]
]

-- `node_upstream_lookup`
unfoldable pub upstream_lookup :
    List UpstreamConf → ℕ → Bytes → UpstreamLookup → Option UpstreamLookup
unfolding position_key find_host
upstream_lookup upstreams group zone usn =
    if group == upstream_ua
    then some (record { server = zero_server; name = zone; count = add64 usn.count 1 })
    else (let usg = position_key zone 0 in
        let ush = position_key zone 1 in
        elim usg.0 [
          | error ↦ some usn
          | ok ↦ elim ush.0 [ error ↦ some usn | ok ↦ find_host upstreams usg.1 ush.1 usn ]
        ])
