-- ===== src/ControlStatus/Left.antt =====
-- The command `status` of ngx_metric_module/src/ngx_http_vhost_traffic_status_control.c ends, and leaves
-- a tree that can be printed.
use metrics_server_example.Base.{
  ℕ, ◌≡◌, refl, ap, inl, inr, ◌⊎◌, true, Option, none, some, List, [], ◌∷◌, ◌++◌, ◌-◌, take, ◌∙◌,
  ◌==◌, if◌then◌else◌, length, map, Bool-cases, Option-cases,
}
use metrics_server_example.Base.Words.{add64}
use metrics_server_example.Text.{Bytes, Status, ok, error}
use metrics_server_example.Text.Pool.{has_printable}
use metrics_server_example.Key.{generate_key}
use metrics_server_example.Node.{Node, zero_counters}
use metrics_server_example.Node.Totals.{Below}
use metrics_server_example.RbTree.{RbNode, Tree, inorder, Nginx, lookup}
use metrics_server_example.Filter.Walk.{preorder}
use metrics_server_example.Zone.{update_at}
use metrics_server_example.Zone.Update.{Distinct-only, All-Member}
use metrics_server_example.Zone.Kept.{lookup-Member}
use metrics_server_example.SetFilter.Upstream.{UpstreamLookup, upstream_lookup}
use metrics_server_example.Control.{
  Selector, unset, any, group, group_number, Range, range_none, range_all, range_group, range_zone,
  Control,
}
use metrics_server_example.Control.Selected.{chosen, zone_key}
use metrics_server_example.Json.{Value, Stats}
use metrics_server_example.Json.Sum.{two_words, sums}
use metrics_server_example.Json.Servers.{is_server}
use metrics_server_example.Json.Upstream
use metrics_server_example.Json.Upstream.Lines.{update_at-same}
use metrics_server_example.Json.Whole.{set_main, display_set}
use metrics_server_example.Json.Whole.Members.{display_set_lem}
use metrics_server_example.ControlStatus.{
  Output, Report, report, is_main, lookup_conf, zone_entry, zone_answer, status_all, status_group,
  status_zone, node_status,
}
use metrics_server_example.ControlStatus.Groups.{CanShow, status_group_lem}
use metrics_server_example.ControlStatus.Entries.{no_server}
use metrics_server_example.ControlStatus.Zones.{zone_entry-entry_text}

-- The lookup of the server that the zone of a command names ends, and finds one whose name can be
-- printed, if any.
unfoldable pub IsKnown : Output → Control → Type 0
IsKnown o c =
    (n : ℕ)
    → c.selector ≡ group n
    → (u : UpstreamLookup) × (upstream_lookup (map lookup_conf o.upstreams) n c.zone
          (no_server c.count)
        ≡ some u)
      × ((has_printable u.name ≡ true) ⊎ (u.count ≡ 0))

module _ (ngx : Nginx) (o : Output) (server_body upstream_body : List Value → Bytes) (t : Tree)
    (s : Stats) (h : CanShow o server_body upstream_body t s) where
  -- The entry of a node ends and leaves the node.
  zone_entry-left :
      (sel : Selector) (zone key : Bytes) (r : Range) (count : ℕ) (m : RbNode)
      → IsKnown o (record { selector = sel; zone = zone; range = r; count = count })
      → Upstream.Lines.IsShown m
      → (line : Bytes) × (k : ℕ) × (zone_entry o sel zone key count m ≡ some (line, (m.vtsn, k)))
  unfolding zone_entry IsKnown
  zone_entry-left unset zone key r count m known shown = ([], count, refl)
  zone_entry-left any zone key r count m known shown = ([], count, refl)
  zone_entry-left (group n) zone key r count m known shown =
      let (u, found, named) = known n refl in
      (
        _,
        _,
        zone_entry-entry_text ngx o server_body upstream_body t s h n count zone key u m shown found
            named,
      )

  status_zone-left :
      (c : Control) → IsKnown o c → (p : Report) × (status_zone ngx o c t s ≡ some p) × (p.tree ≡ t)
  unfolding status_zone
  status_zone-left c known = elim (Bool-cases (is_main c)) [
    | inl e ↦
        let whole = (b'{' ∷ []) ++ set_main o.env o.main o.conf t in
        (
          report t s (take (length whole - 1) whole ++ b'}' ∷ []) (add64 c.count 1),
          rw (status_zone, e) refl,
          refl,
        )
    | inr other ↦
        let key = zone_key c in
        let made : generate_key o.pool.key c.zone (group_number c.selector) ≡ (ok, key) =
          rw h.key (unfold generate_key zone_key in refl) in
        let after : RbNode → Option (Bytes × (Node × ℕ)) → Option Report = λ m r. elim r [
          | none ↦ none
          | some (line, (v, count')) ↦ some (
              report (update_at m.addr v t) s (zone_answer c.selector line)
                (if length line == 0 then count' else add64 count' 1))
        ] in
        let next : Bytes → Option RbNode → Option Report = λ k x. elim x [
          | none ↦ some (report t s [] c.count)
          | some m ↦ after m (zone_entry o c.selector c.zone k c.count m)
        ] in
        let run : Status × Bytes → Option Report = λ k. elim k.0 [
          | error ↦ some (report t s [] c.count)
          | ok ↦ next k.1 (lookup ngx t k.1 (ngx.crc32_short k.1))
        ] in
        let opened : status_zone ngx o c t s ≡ next key (lookup ngx t key (ngx.crc32_short key)) =
          rw (status_zone, other) (ap run made) in
        elim (Option-cases (lookup ngx t key (ngx.crc32_short key))) [
          | inl e ↦ (_, opened ∙ ap (next key) e, refl)
          | inr (m, e) ↦
              let in_tree = lookup-Member ngx t key (ngx.crc32_short key) m e in
              let shown = All-Member Upstream.Lines.IsShown (inorder t) m h.shown in_tree in
              let (line, k, entry) =
                zone_entry-left c.selector c.zone key c.range c.count m known shown in
              (
                _,
                opened ∙ ap (next key) e ∙ ap (after m) entry,
                update_at-same m t (Distinct-only m (inorder t) h.distinct in_tree),
              )
        ]
  ]

  status_all-left :
      (count : ℕ)
      → Below two_words (sums (chosen is_server (preorder t)) zero_counters)
      → (p : Report) × (status_all ngx o count t s ≡ some p) × (p.tree ≡ t)
  unfolding status_all
  status_all-left count small =
      let (s', run, total) =
        display_set_lem ngx o.env server_body upstream_body o.main o.conf o.pool o.sort o.upstreams
          t s h.servers h.upstreams h.array h.key h.room h.distinct h.shown h.zones small h.names
          h.named h.alone in
      let next : Option (Tree × (Bytes × Stats)) → Option Report =
        λ r. elim r [ none ↦ none | some (t', (buf, s')) ↦ some (report t' s' buf count) ] in
      let with_memory =
        ap (λ b. display_set ngx o.env o.main o.conf o.pool o.sort b o.upstreams (t, s)) h.memory in
      (_, ap next (with_memory ∙ run), refl)

  -- The command `status` ends, whatever its range, and leaves the tree.
  pub node_status-left :
      (c : Control)
      → IsKnown o c
      → Below two_words (sums (chosen is_server (preorder t)) zero_counters)
      → (p : Report) × (node_status ngx o c t s ≡ some p) × (p.tree ≡ t)
  unfolding node_status
  node_status-left c known small = by_range c.range refl
    where
      by_range :
          (r : Range)
          → c.range ≡ r
          → (p : Report) × (node_status ngx o c t s ≡ some p) × (p.tree ≡ t)
      by_range range_none e = (report t s [] c.count, rw (node_status, e) refl, refl)
      by_range range_all e =
          let (p, run, left) = status_all-left c.count small in (p, rw (node_status, e) run, left)
      by_range range_group e =
          let (s', run) =
            status_group_lem ngx o server_body upstream_body t s h c.selector c.count in
          let opened : node_status ngx o c t s ≡ status_group ngx o c.selector c.count t s =
            rw (node_status, e) refl in
          (_, opened ∙ run, refl)
      by_range range_zone e =
          let (p, run, left) = status_zone-left c known in
          let opened : node_status ngx o c t s ≡ status_zone ngx o c t s =
            rw (node_status, e) refl in
          (p, opened ∙ run, left)
