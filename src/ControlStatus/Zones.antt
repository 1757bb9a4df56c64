-- ===== src/ControlStatus/Zones.antt =====
-- What the command `status` answers for one zone of
-- ngx_metric_module/src/ngx_http_vhost_traffic_status_control.c: `node_status_zone`.
use metrics_server_example.Base.{
  ℕ, ◌≡◌, ◌⊎◌, refl, ap, ◌∙◌, inl, inr, true, false, Option, none, some, List, [], ◌∷◌, ◌++◌, arith,
  ◌==◌, ==→eq, if◌then◌else◌, ◌||◌, length, map, Bool-cases, Option-cases,
}
use metrics_server_example.Base.Words.{add64}
use metrics_server_example.Text.{Bytes, Status, ok, error}
use metrics_server_example.Text.Pool.{has_printable}
use metrics_server_example.Group.{upstream_no, upstream_ua, upstream_ug, upstream_fg}
use metrics_server_example.Key.{generate_key, position_key}
use metrics_server_example.Node.{Node}
use metrics_server_example.RbTree.{RbNode, Tree, inorder, name, Nginx, lookup}
use metrics_server_example.Zone.{update_at}
use metrics_server_example.Zone.Update.{Distinct-only, All-Member}
use metrics_server_example.Zone.Kept.{lookup-Member}
use metrics_server_example.SetFilter.Upstream.{UpstreamLookup, upstream_lookup}
use metrics_server_example.Control.{group}
use metrics_server_example.Control.Selected.{zone_key}
use metrics_server_example.Display.{comma}
use metrics_server_example.Json.{Value, Stats, set_server_node}
use metrics_server_example.Json.Line.{server_values, server_line, set_server_node-server_line}
use metrics_server_example.Json.Upstream
use metrics_server_example.Json.Upstream.{set_upstream_node}
use metrics_server_example.Json.Upstream.Lines.{
  upstream_line, set_upstream_node-upstream_line, update_at-same,
}
use metrics_server_example.ControlStatus.{
  Output, Report, report, is_main, lookup_conf, zone_entry, zone_answer, status_zone,
}
use metrics_server_example.ControlStatus.Groups.{CanShow, counted}
use metrics_server_example.ControlStatus.Entries.{
  entry_text, answer_text, no_server, entry_count, zone_control, key_node, zone_answer-answer_text,
  counted-empty,
}

module _ (ngx : Nginx) (o : Output) (server_body upstream_body : List Value → Bytes) (t : Tree)
    (s : Stats) (h : CanShow o server_body upstream_body t s) where
  server_node-line :
      (key : Bytes) (m : RbNode)
      → Upstream.Lines.IsShown m
      → set_server_node o.env (o.env.memory m.addr) key m.vtsn
        ≡ some (server_body (server_values o.env key m.vtsn) ++ comma ∷ [], m.vtsn)
  server_node-line key m shown =
      let line : server_line o.env key m.vtsn
          ≡ server_body (server_values o.env key m.vtsn) ++ comma ∷ [] =
        unfold server_line in h.servers.ends (server_values o.env key m.vtsn) in
      rw (h.servers.memory m.addr) (
        set_server_node-server_line o.env key m.vtsn h.servers.law shown.request
        ∙ ap (λ l. some (l, m.vtsn)) line)

  pub zone_entry-entry_text :
      (n count : ℕ) (zone key : Bytes) (u : UpstreamLookup) (m : RbNode)
      → Upstream.Lines.IsShown m
      → upstream_lookup (map lookup_conf o.upstreams) n zone (no_server count) ≡ some u
      → has_printable u.name ≡ true ⊎ (u.count ≡ 0)
      → zone_entry o (group n) zone key count m
        ≡ some (entry_text o server_body upstream_body n key u m, (m.vtsn, entry_count n u count))
  unfolding zone_entry entry_text entry_count
  zone_entry-entry_text n count zone key u m shown found named =
      elim (Bool-cases (n == upstream_no)) [
        | inl e ↦
            let other : (n == upstream_ua || n == upstream_ug) ≡ false =
              rw (==→eq n upstream_no e) refl in
            rw (e, other, server_node-line key m shown) refl
        | inr zone_group ↦ elim (Bool-cases (n == upstream_ua || n == upstream_ug)) [
          | inl e ↦ elim (Bool-cases (u.count == 0)) [
            | inl z ↦ rw (zone_group, e, found, z) refl
            | inr z ↦
                let ok : has_printable u.name ≡ true = ground (arith, named) in
                rw
                  (
                    zone_group,
                    e,
                    found,
                    z,
                    set_upstream_node-upstream_line o.env upstream_body u.name u.server (some m)
                        h.upstreams ok (shown, tt),
                  )
                  refl
          ]
          | inr upstreams ↦ elim (Bool-cases (n == upstream_fg)) [
            | inl e ↦
                rw (zone_group, upstreams, e, server_node-line (position_key (name m) 2).1 m shown)
                  refl
            | inr e ↦ rw (zone_group, upstreams, e) refl
          ]
        ]
      ]

  -- Where a tree can be printed, the command `status` for one zone other than that of nginx itself leaves
  -- the tree. Where no node has the key that its group and zone make, it prints nothing. Where a node
  -- has it, it prints the entry of the node without its comma: between braces for a server zone, under
  -- its key, and for a filter, under its name; without them for an upstream, with the configuration of
  -- the server that the zone names, and nothing where there is no such server. The count goes
  -- up by one where an entry was printed, and by one for a server of an upstream that was found. The
  -- server of an upstream that was found has a name that is not made of control characters only; where none
  -- was found, the count that the command came with is 0.
  pub status_zone_lem :
      (n : ℕ) (zone : Bytes) (count : ℕ) (u : UpstreamLookup)
      → is_main (zone_control n zone count) ≡ false
      → upstream_lookup (map lookup_conf o.upstreams) n zone (no_server count) ≡ some u
      → (has_printable u.name ≡ true) ⊎ (u.count ≡ 0)
      → status_zone ngx o (zone_control n zone count) t s
        ≡ some (elim (key_node ngx t n zone count) [
          | none ↦ report t s [] count
          | some m ↦
              report t s
                (answer_text o server_body upstream_body n
                  (zone_key (zone_control n zone count))
                  u
                  m)
                (counted
                  (entry_text o server_body upstream_body n
                    (zone_key (zone_control n zone count))
                    u
                    m)
                  (entry_count n u count))
        ])
  unfolding status_zone
  status_zone_lem n zone count u other found named =
      let c = zone_control n zone count in
      let key = zone_key c in
      let made : generate_key o.pool.key zone n ≡ (ok, key) =
        rw h.key (unfold generate_key zone_key in refl) in
      let after : RbNode → Option (Bytes × (Node × ℕ)) → Option Report = λ m r. elim r [
        | none ↦ none
        | some (line, (v, count')) ↦ some (
            report (update_at m.addr v t) s (zone_answer (group n) line)
              (if length line == 0 then count' else add64 count' 1))
      ] in
      let next : Bytes → Option RbNode → Option Report = λ k x. elim x [
        | none ↦ some (report t s [] count)
        | some m ↦ after m (zone_entry o (group n) zone k count m)
      ] in
      let run : Status × Bytes → Option Report = λ k. elim k.0 [
        | error ↦ some (report t s [] count)
        | ok ↦ next k.1 (lookup ngx t k.1 (ngx.crc32_short k.1))
      ] in
      let opened : status_zone ngx o c t s ≡ next key (key_node ngx t n zone count) =
        rw (status_zone, other) (ap run made) in
      let entry : RbNode → Bytes = entry_text o server_body upstream_body n key u in
      opened ∙ elim (Option-cases (key_node ngx t n zone count)) [
        | inl e ↦ rw e refl
        | inr (m, e) ↦
            let in_tree = lookup-Member ngx t key (ngx.crc32_short key) m e in
            let shown = All-Member Upstream.Lines.IsShown (inorder t) m h.shown in_tree in
            let same = update_at-same m t (Distinct-only m (inorder t) h.distinct in_tree) in
            let found_entry = zone_entry-entry_text n count zone key u m shown found named in
            let written : after m (some (entry m, (m.vtsn, entry_count n u count)))
                ≡ some (
                    report t s (answer_text o server_body upstream_body n key u m)
                      (counted (entry m) (entry_count n u count))) =
              rw (same, zone_answer-answer_text o server_body upstream_body n key u m)
                (ap (λ k. some (report t s (answer_text o server_body upstream_body n key u m) k))
                  (counted-empty (entry m) (entry_count n u count))) in
            rw e (ap (after m) found_entry ∙ written)
      ]
