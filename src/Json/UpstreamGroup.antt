-- ===== src/Json/UpstreamGroup.antt =====
-- The groups of upstream servers in the output: `display_set_upstream_group` of
-- ngx_metric_module/src/ngx_http_vhost_traffic_status_display_json.c, in a build with
-- `NGX_HTTP_UPSTREAM_ZONE`.
pub mod Entries
use Prim.Native.Nat.{max}
use metrics_server_example.Base.{
  ℕ, ◌+◌, length, ◌&&◌, Bool, true, false, Option, none, some, List, [], ◌∷◌, ◌++◌, ◌==◌, map,
}
use metrics_server_example.Text.{Bytes}
use metrics_server_example.RbTree.{Tree, Nginx}
use metrics_server_example.SetFilter.Upstream.{ServerConf}
use metrics_server_example.Json.{fmt_array, text, Env, closed}
use metrics_server_example.Json.Upstream.{
  UpstreamServer, RrPeer, UpstreamSrvConf, Progress, set_members, of_peer, of_servers,
  set_upstream_alone,
}

-- The members of a group: the peers where the upstream is shared, and the addresses of the servers.
unfoldable pub members_of : Option (List RrPeer) → List UpstreamServer → List (Bytes × ServerConf)
unfolding of_peer of_servers
members_of none servers = of_servers false servers
members_of (some peers) servers = map of_peer peers ++ of_servers true servers

abbrev pub array_end : Bytes
array_end = b']' ∷ b',' ∷ []

-- The length of the longest host.
unfoldable pub longest_host : List UpstreamSrvConf → ℕ
longest_host [] = 0
longest_host (u ∷ us) = max (length u.host) (longest_host us)

-- The size of `dst`: the longest host and
-- `@[ffff:ffff:ffff:ffff:ffff:ffff:255.255.255.255]:65535`.
unfoldable pub dst_len : List UpstreamSrvConf → ℕ
unfolding longest_host
dst_len us = longest_host us + 54

-- One round of the loop over the upstreams.
unfoldable pub set_group : Nginx → Env → ℕ → UpstreamSrvConf → Tree × Bytes → Option Progress
unfolding members_of set_members closed
set_group ngx env room u (t, out) = elim u.servers [
  | none ↦ some (true, (t, out))
  | some servers ↦ elim (u.port == 0) [
    | false ↦ some (true, (t, out))
    | true ↦
        let s = out ++ env.sprintf fmt_array (text u.host ∷ []) in
        elim (set_members ngx env room u.host (members_of u.peers servers) (t, s)) [
          | none ↦ none
          | some (false, st) ↦ some (false, st)
          | some (true, (t', buf)) ↦ some (true, (t', closed out s buf array_end))
        ]
  ]
]

-- The loop over the upstreams.
unfoldable pub set_groups : Nginx → Env → ℕ → List UpstreamSrvConf → Tree × Bytes → Option Progress
unfolding set_group
set_groups ngx env room [] st = some (true, st)
set_groups ngx env room (u ∷ us) st = elim (set_group ngx env room u st) [
  | none ↦ none
  | some (false, st') ↦ some (false, st')
  | some (true, st') ↦ set_groups ngx env room us st'
]

abbrev pub nogroups : Bytes
nogroups = b':' ∷ b':' ∷ b'n' ∷ b'o' ∷ b'g' ∷ b'r' ∷ b'o' ∷ b'u' ∷ b'p' ∷ b's' ∷ []

-- `display_set_upstream_group`; the first argument of type `Bool` is whether there is memory for `dst`.
unfoldable pub set_upstream_group :
    Nginx → Env → Bool → List UpstreamSrvConf → Tree × Bytes → Option (Tree × Bytes)
unfolding dst_len set_groups set_upstream_alone closed
set_upstream_group ngx env false us st = some st
set_upstream_group ngx env true us st = elim (set_groups ngx env (dst_len us) us st) [
  | none ↦ none
  | some (false, st') ↦ some st'
  | some (true, (t, out)) ↦
      let s = out ++ env.sprintf fmt_array (text nogroups ∷ []) in
      elim (set_upstream_alone env t s) [
        | none ↦ none
        | some (t', buf) ↦ some (t', closed out s buf array_end)
      ]
]
