-- ===== src/Page/Size.antt =====
-- The size of the buffer of an output: `display_get_size` of
-- ngx_metric_module/src/ngx_http_vhost_traffic_status_display.c.
use metrics_server_example.Base.{
  ℕ, ◌+◌, ◌*◌, ◌/◌, ◌%◌, ◌^◌, ◌≡◌, ◌≢◌, ◌≤◌, ◌<◌, refl, ap, ◌∙◌, inl, inr, Bool, Option, true,
  false, not, ◌&&◌, none, some, List, [], ◌∷◌, arith, ◌==◌, if◌then◌else◌, length, length-append,
  map, length-map, Bool-cases, Option-cases,
}
use metrics_server_example.Base.Words.{u64_mod, add64}
use metrics_server_example.Text.{Bytes}
use metrics_server_example.SetFilter.Upstream.{ServerConf}
use metrics_server_example.RbTree.{Tree, inorder}
use metrics_server_example.Filter.{MainConf, ShmInfo, shm_info}
use metrics_server_example.Filter.Info.{shm_info_lem}
use metrics_server_example.Json.Upstream.{
  UpstreamServer, UpstreamSrvConf, RrPeer, of_peer, of_servers,
}
use metrics_server_example.Json.UpstreamGroup.{members_of}
use metrics_server_example.Page.{
  PageFormat, json, html, jsonp, prometheus, count_addrs, get_upstream_nelts, Sizes, get_size,
}

-- The lines of the groups of upstreams.
unfoldable pub group_lines : List UpstreamSrvConf → ℕ
unfolding members_of
group_lines [] = 0
group_lines (u ∷ us) =
    let rest = group_lines us in
    elim u.servers [
      | none ↦ rest
      | some servers ↦ if u.port == 0 then length (members_of u.peers servers) + rest else rest
    ]

length-of_servers :
    (zone : Bool) (servers : List UpstreamServer)
    → length (of_servers zone servers) ≤ count_addrs servers
unfolding of_servers count_addrs
length-of_servers zone [] = omega arith
length-of_servers zone (s ∷ ss) = elim (Bool-cases (zone && not (s.conf.backup == 1))) [
  | inl e ↦ rw e (omega (arith, length-of_servers zone ss))
  | inr e ↦
      let here : List (Bytes × ServerConf) = map (λ a. (a, s.conf)) s.addrs in
      let size : length here ≡ length s.addrs = length-map (λ a. (a, s.conf)) s.addrs in
      rw e (omega (arith, length-append here (of_servers zone ss), size, length-of_servers zone ss))
]

-- A group has no more members than peers and addresses.
length-members_of :
    (peers : Option (List RrPeer)) (servers : List UpstreamServer)
    → length (members_of peers servers)
      ≤ (elim peers [ none ↦ 0 | some ps ↦ length ps ]) + count_addrs servers
unfolding members_of
length-members_of none servers = omega (arith, length-of_servers false servers)
length-members_of (some ps) servers = omega (
  arith,
  length-append (map of_peer ps) (of_servers true servers),
  length-map of_peer ps,
  length-of_servers true servers,
)

group_lines-le-get_upstream_nelts :
    (us : List UpstreamSrvConf) → group_lines us ≤ get_upstream_nelts us
unfolding group_lines get_upstream_nelts
group_lines-le-get_upstream_nelts [] = omega arith
group_lines-le-get_upstream_nelts (u ∷ us) = elim (Option-cases u.servers) [
  | inl e ↦ rw e (group_lines-le-get_upstream_nelts us)
  | inr (servers, e) ↦ elim (Bool-cases (u.port == 0)) [
    | inl p ↦
        rw (e, p)
          (omega (arith, length-members_of u.peers servers, group_lines-le-get_upstream_nelts us))
    | inr p ↦ rw (e, p) (group_lines-le-get_upstream_nelts us)
  ]
]

-- The bytes for entries, each with 20 for every word of a node and 1024 for names, and for the rest.
abbrev pub bytes_for : Sizes → ℕ → ℕ
bytes_for z un = z.node / 8 * 20 * un + un * 1024 + 4096 + z.metrics

same_size :
    (z : Sizes) (conf : MainConf) (us : List UpstreamSrvConf) (t : Tree) (f : PageFormat)
    → f ≢ html
    → get_size z conf true us t f ≡ get_size z conf true us t json
unfolding get_size
same_size z conf us t json h = refl
same_size z conf us t html h = absurd (h refl)
same_size z conf us t jsonp h = refl
same_size z conf us t prometheus h = refl

-- The size where the numbers fit a word.
pub get_size-bytes_for :
    (z : Sizes) (conf : MainConf) (us : List UpstreamSrvConf) (t : Tree) (f : PageFormat)
    → f ≢ html
    → length (inorder t) + get_upstream_nelts us < u64_mod
    → bytes_for z (length (inorder t) + get_upstream_nelts us) < u64_mod
    → get_size z conf true us t f ≡ some (bytes_for z (length (inorder t) + get_upstream_nelts us))
get_size-bytes_for z conf us t f entries word small =
    let un = length (inorder t) + get_upstream_nelts us in
    let used : (shm_info conf t).used_node ≡ length (inorder t) % u64_mod =
      ap (λ (i : ShmInfo). i.used_node) (shm_info_lem conf t) in
    let sum : add64 (shm_info conf t).used_node (get_upstream_nelts us) ≡ un =
      rw used (omega (arith, word)) in
    let wrapped : bytes_for z un % 2 ^ 64 ≡ bytes_for z un = omega (arith, small) in
    let positive : (bytes_for z un == 0) ≡ false = ground arith in
    let printed : get_size z conf true us t json ≡ some (bytes_for z un) =
      unfold get_size in rw (get_size, sum, wrapped, positive) refl in
    same_size z conf us t f entries ∙ printed

-- Where the numbers fit a word, the size of the buffer for JSON, for JSONP and for Prometheus is made for
-- at least as many entries as the tree has nodes and the groups of upstreams have lines together, though
-- most of these lines have a node in the tree, too.
pub get_size_lem :
    (z : Sizes) (conf : MainConf) (us : List UpstreamSrvConf) (t : Tree) (f : PageFormat)
    → f ≢ html
    → length (inorder t) + get_upstream_nelts us < u64_mod
    → bytes_for z (length (inorder t) + get_upstream_nelts us) < u64_mod
    → (un : ℕ) × (length (inorder t) + group_lines us ≤ un)
      × (get_size z conf true us t f ≡ some (bytes_for z un))
get_size_lem z conf us t f entries word small = (
  length (inorder t) + get_upstream_nelts us,
  omega (arith, group_lines-le-get_upstream_nelts us),
  get_size-bytes_for z conf us t f entries word small,
)
