-- ===== src/Json/Whole.antt =====
-- The whole output: `display_set_main` and `display_set` of
-- ngx_metric_module/src/ngx_http_vhost_traffic_status_display_json.c, in the build that
-- ngx_http_vhost_traffic_status_module.h fixes, `ADD_SUM_ALL 0`.
pub mod Members
use metrics_server_example.Base.{
  ℕ, ◌-◌, Bool, true, false, Option, none, some, List, [], ◌∷◌, ◌++◌, map, length, take,
  if◌then◌else◌,
}
use metrics_server_example.Text.{Bytes, quote}
use metrics_server_example.RbTree.{Tree, Nginx}
use metrics_server_example.Filter.{MainConf, shm_info}
use metrics_server_example.Control.{Pool}
use metrics_server_example.Json.{fmt_main, number, text, Env, Stats, set_server, init_stats, closed}
use metrics_server_example.Json.Upstream.{UpstreamSrvConf}
use metrics_server_example.Json.UpstreamGroup.{set_upstream_group}
use metrics_server_example.Json.Filters.{set_filter}

-- What nginx counts and knows of itself, the name of the shared memory, and whether there is memory
-- for `shm_info`.
pub record Main : Type 0 where
  pub hostname : Bytes
  pub version : Bytes
  pub start_msec : ℕ
  pub active : ℕ
  pub reading : ℕ
  pub writing : ℕ
  pub waiting : ℕ
  pub accepted : ℕ
  pub handled : ℕ
  pub requests : ℕ
  pub shm_name : Bytes
  pub memory : Bool

-- `display_set_main`: what it prints.
unfoldable pub set_main : Env → Main → MainConf → Tree → Bytes
unfolding shm_info
set_main env m conf t =
    let info = shm_info conf t in
    if m.memory
    then env.sprintf fmt_main (
        text m.hostname
          ∷ text m.version
          ∷ map number (
              m.start_msec ∷ env.now ∷ m.active ∷ m.reading ∷ m.writing ∷ m.waiting ∷ m.accepted
              ∷ m.handled ∷ m.requests ∷ [])
        ++ text m.shm_name ∷ map number (info.max_size ∷ info.used_size ∷ info.used_node ∷ []))
    else []

-- `"serverZones":`, without the brace.
abbrev pub server_zones_name : Bytes
server_zones_name =
    quote ∷ b's' ∷ b'e' ∷ b'r' ∷ b'v' ∷ b'e' ∷ b'r' ∷ b'Z' ∷ b'o' ∷ b'n' ∷ b'e' ∷ b's' ∷ quote
    ∷ b':' ∷ []

-- `"filterZones":{`
abbrev pub filter_zones_name : Bytes
filter_zones_name =
    quote ∷ b'f' ∷ b'i' ∷ b'l' ∷ b't' ∷ b'e' ∷ b'r' ∷ b'Z' ∷ b'o' ∷ b'n' ∷ b'e' ∷ b's' ∷ quote
    ∷ b':' ∷ b'{' ∷ []

-- `"upstreamZones":{`
abbrev pub upstream_zones_name : Bytes
upstream_zones_name =
    quote ∷ b'u' ∷ b'p' ∷ b's' ∷ b't' ∷ b'r' ∷ b'e' ∷ b'a' ∷ b'm' ∷ b'Z' ∷ b'o' ∷ b'n' ∷ b'e' ∷ b's'
    ∷ quote ∷ b':' ∷ b'{' ∷ []

-- The part `serverZones`.
unfoldable pub server_zones : Env → Tree → Bytes × Stats → Option (Tree × (Bytes × Stats))
unfolding set_server
server_zones env t (out, s) = elim (set_server env t (out ++ server_zones_name ++ b'{' ∷ [], s)) [
  | none ↦ none
  | some (t', (buf, s')) ↦ some (t', (take (length buf - 1) buf ++ (b'}' ∷ b',' ∷ []), s'))
]

-- The part `filterZones`.
unfoldable pub filter_zones :
    Env → Pool → (List Bytes → List Bytes) → Tree × Bytes → Option (Tree × Bytes)
unfolding set_filter closed
filter_zones env pool sort (t, out) =
    let s = out ++ filter_zones_name in
    elim (set_filter env pool sort (t, s)) [
      | none ↦ none
      | some (t', buf) ↦ some (t', closed out s buf (b'}' ∷ b',' ∷ []))
    ]

-- The part `upstreamZones`, which takes the comma before it back where it has no entries.
unfoldable pub upstream_zones :
    Nginx → Env → Bool → List UpstreamSrvConf → Tree × Bytes → Option (Tree × Bytes)
unfolding set_upstream_group closed
upstream_zones ngx env memory us (t, out) =
    let s = out ++ upstream_zones_name in
    elim (set_upstream_group ngx env memory us (t, s)) [
      | none ↦ none
      | some (t', buf) ↦ some (t', closed (take (length out - 1) out) s buf (b'}' ∷ []))
    ]

-- `display_set`, from an empty output: the tree, the output and the sums.
unfoldable pub display_set :
    Nginx
    → Env
    → Main
    → MainConf
    → Pool
    → (List Bytes → List Bytes)
    → Bool
    → List UpstreamSrvConf
    → Tree × Stats
    → Option (Tree × (Bytes × Stats))
unfolding set_main server_zones filter_zones upstream_zones init_stats
display_set ngx env main conf pool sort memory us (t, s) =
    elim (server_zones env t ((b'{' ∷ []) ++ set_main env main conf t, init_stats s)) [
      | none ↦ none
      | some (t₁, (out₁, s')) ↦ elim (filter_zones env pool sort (t₁, out₁)) [
        | none ↦ none
        | some st₂ ↦ elim (upstream_zones ngx env memory us st₂) [
          | none ↦ none
          | some (t₃, out₃) ↦ some (t₃, (out₃ ++ b'}' ∷ [], s'))
        ]
      ]
    ]
