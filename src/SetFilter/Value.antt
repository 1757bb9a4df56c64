-- ===== src/SetFilter/Value.antt =====
-- The value of a variable of `vhost_traffic_status_set_by_filter`:
-- ngx_metric_module/src/ngx_http_vhost_traffic_status_set.c.
use metrics_server_example.Base.{
  ℕ, ◌≡◌, refl, ap, ◌∙◌, Bool, true, false, none, some, List, ◌∷◌, ◌++◌, inl, inr, if◌then◌else◌,
  All, Option-cases,
}
use metrics_server_example.Text.{Bytes, ok, error, replace_chrc}
use metrics_server_example.Key.{separator, generate_key}
use metrics_server_example.RbTree.{inorder, Nginx, IsLawful, lookup}
use metrics_server_example.RbTree.Order.{Sorted}
use metrics_server_example.Zone.{Zone, found, null, dangling, find_node, of_lookup}
use metrics_server_example.Zone.Cache.{Live, NoCollision, find_node-lookup}
use metrics_server_example.SetFilter.Upstream.{UpstreamConf, zero_server}
use metrics_server_example.SetFilter.{Memory, Answer, node_value, filter_node, filter_answer}
use metrics_server_example.SetFilter.Argument.{find_group, group_names, parsed, filter_init}
use metrics_server_example.SetFilter.Members.{is_upstream, filter_node_member}
use metrics_server_example.SetFilter.Texts.{IsPart, IsPlain, strchr_lem, zone_text-plain}

-- The key of a zone in a group.
abbrev pub zone_key : Bytes → ℕ → Bytes
zone_key zone group = (generate_key true (replace_chrc zone b'@' separator) group).1

-- The text of a variable is taken apart again.
filter_init_lem :
    (name zone member : Bytes) (group : ℕ)
    → IsPart name
    → IsPart zone
    → IsPlain zone
    → find_group group_names name ≡ some group
    → filter_init true (name ++ b'/' ∷ (zone ++ b'/' ∷ member))
      ≡ parsed group (replace_chrc zone b'@' separator) member
unfolding filter_init
filter_init_lem name zone member group part part' plain known =
    rw
      (
        filter_init,
        strchr_lem name (zone ++ b'/' ∷ member) part,
        strchr_lem zone member part',
        known,
        zone_text-plain zone plain,
      )
      refl

-- The node of a key, for a group without servers of upstreams.
filter_node_lem :
    (ngx : Nginx) (print : ℕ → Bytes) (upstreams : List UpstreamConf) (memory : Memory) (z : Zone)
    (group : ℕ) (zone member : Bytes) (count : ℕ)
    → is_upstream group ≡ false
    → memory.key ≡ true
    → memory.value ≡ true
    → find_node ngx z (generate_key true zone group).1 group 0
      ≡ of_lookup (
          lookup ngx z.tree
            (generate_key true zone group).1
            (ngx.crc32_short (generate_key true zone group).1))
    → filter_node ngx print upstreams memory z group zone member count
      ≡ some (
        count,
        elim (lookup ngx z.tree
            (generate_key true zone group).1
            (ngx.crc32_short (generate_key true zone group).1)) [
              | none ↦ none
              | some m ↦ some (print (filter_node_member group member m.vtsn zero_server))
            ],
      )
unfolding filter_node node_value generate_key
filter_node_lem ngx print upstreams memory z group zone member count single key value here =
    let k = (generate_key true zone group).1 in
    let run : Bool → Bool → Answer = λ b c. elim (generate_key b zone group).0 [
      | error ↦ some (count, none)
      | ok ↦ elim (find_node ngx z (generate_key b zone group).1 group 0) [
        | dangling ↦ none
        | null ↦ some (count, none)
        | found m ↦
            if c
            then node_value print upstreams group zone member count m.vtsn
            else some (count, none)
      ]
    ] in
    ap (λ b. run b memory.value) key
    ∙ ap (run true) value
    ∙ elim (Option-cases (lookup ngx z.tree k (ngx.crc32_short k))) [
      | inl missing ↦ rw (here, missing) refl
      | inr (m, there) ↦ rw (here, there, node_value, single) refl
    ]

-- A variable whose text is `group/zone/member`, for the groups server, cache and filter, has the printed
-- value of that member of the node that the tree has for the zone in the group, each `@` of the zone
-- being a separator; where the tree has no such node the variable is not found. The count of upstream
-- servers stays. This is for a lawful nginx core and memory, for a sorted tree with live cached pointers
-- and no collision of the key's hash, for parts without a slash or a zero byte, and for a zone without
-- an opening bracket.
pub filter_answer_lem :
    (ngx : Nginx) (print : ℕ → Bytes) (upstreams : List UpstreamConf) (memory : Memory) (z : Zone)
    (name zone member : Bytes) (group count : ℕ)
    → IsLawful ngx
    → memory.copy ≡ true
    → memory.key ≡ true
    → memory.value ≡ true
    → Sorted ngx (inorder z.tree)
    → All (Live (inorder z.tree)) z.node_caches
    → NoCollision (ngx.crc32_short (zone_key zone group)) (zone_key zone group) (inorder z.tree)
    → IsPart name
    → IsPart zone
    → IsPlain zone
    → find_group group_names name ≡ some group
    → is_upstream group ≡ false
    → filter_answer ngx print upstreams memory z (name ++ b'/' ∷ (zone ++ b'/' ∷ member)) count
      ≡ some (
        count,
        elim (lookup ngx z.tree (zone_key zone group) (ngx.crc32_short (zone_key zone group))) [
          | none ↦ none
          | some m ↦ some (print (filter_node_member group member m.vtsn zero_server))
        ],
      )
unfolding filter_answer
filter_answer_lem ngx print upstreams memory z name zone member group count law copy key value s
      live safe part part' plain known single =
    let uri = name ++ b'/' ∷ (zone ++ b'/' ∷ member) in
    let text = replace_chrc zone b'@' separator in
    let init : filter_init memory.copy uri ≡ parsed group text member =
      rw copy (filter_init_lem name zone member group part part' plain known) in
    let here = find_node-lookup ngx z (zone_key zone group) group law s live safe in
    rw (filter_answer, init)
      (filter_node_lem ngx print upstreams memory z group text member count single key value here)
