-- ===== src/ControlStatus/Groups.antt =====
-- What the command `status` answers for a group of
-- ngx_metric_module/src/ngx_http_vhost_traffic_status_control.c: `node_status_group`.
use metrics_server_example.Base.{
  ℕ, ◌≡◌, ◌<◌, ◌≤◌, refl, ap, sym, inl, inr, true, false, some, List, [], ◌∷◌, ◌++◌, append_assoc,
  append-nil, arith, ◌==◌, if◌then◌else◌, length, length-append, All, All-mono, Bool-cases,
}
use metrics_server_example.Base.Words.{add64}
use metrics_server_example.Text.{Bytes}
use metrics_server_example.Text.Pool.{has_printable}
use metrics_server_example.Group.{upstream_no, upstream_ua, upstream_ug, upstream_fg}
use metrics_server_example.RbTree.{Tree, inorder, Nginx}
use metrics_server_example.Zone.Update.{Distinct}
use metrics_server_example.Filter.Walk.{preorder, All-preorder}
use metrics_server_example.Control.{Selector, unset, any, group}
use metrics_server_example.Control.Selected.{chosen}
use metrics_server_example.FilterNodes.Named.{filters}
use metrics_server_example.Node.Totals.{Below}
use metrics_server_example.Json.{Value, Stats, closed}
use metrics_server_example.Json.Sum.{IsSum, stats_totals, two_words, sums}
use metrics_server_example.Json.Servers
use metrics_server_example.Json.Servers.{is_server, server_lines, set_server_lem}
use metrics_server_example.Json.Upstream
use metrics_server_example.Json.Upstream.Members.{
  is_alone, alone_name, alone_text, set_upstream_alone-alone_text, alone_lines,
}
use metrics_server_example.Json.UpstreamGroup.{nogroups, dst_len}
use metrics_server_example.Json.UpstreamGroup.Entries.{
  Named, array_text, groups_text, set_upstream_group_lem,
}
use metrics_server_example.Json.Filters.{sorted_keys}
use metrics_server_example.Json.Filters
use metrics_server_example.Json.Filters.Entries.{objects_text, set_filter_lem}
use metrics_server_example.Json.Whole.Members.{without_last, closed-append, closed-nil}
use metrics_server_example.ControlStatus.{
  Output, report, group_open, group_entries, group_close, status_group,
}

-- An object of one member, whose entries end in a comma; an empty object where it has none.
unfoldable pub object_text : Bytes → Bytes → Bytes → Bytes
object_text name [] end = b'{' ∷ b'}' ∷ []
object_text name (b ∷ bs) end = (b'{' ∷ []) ++ (name ++ without_last (b ∷ bs)) ++ end ++ b'}' ∷ []

-- The count goes up by one where there are entries.
abbrev pub counted : Bytes → ℕ → ℕ
counted [] count = count
counted (b ∷ bs) count = add64 count 1

-- The end of the answer for a group.
closed-object_text :
    (name entries end : Bytes)
    → closed (b'{' ∷ []) ((b'{' ∷ []) ++ name) ((b'{' ∷ []) ++ name ++ entries) end ++ b'}' ∷ []
      ≡ object_text name entries end
unfolding object_text
closed-object_text name [] end = ap (λ o. o ++ b'}' ∷ []) (closed-nil _ ((b'{' ∷ []) ++ name) end)
closed-object_text name (b ∷ bs) end =
    ap (λ o. o ++ b'}' ∷ []) (closed-append (b'{' ∷ []) (b'{' ∷ []) name b bs end)

counted-length :
    (out entries : Bytes) (count : ℕ)
    → (if length out == length (out ++ entries) then count else add64 count 1)
      ≡ counted entries count
counted-length out [] count =
    let same : (length out == length (out ++ [])) ≡ true =
      ground (arith, ap length (append-nil out)) in
    rw same refl
counted-length out (b ∷ bs) count =
    let more : (length out == length (out ++ b ∷ bs)) ≡ false =
      ground (arith, length-append out (b ∷ bs)) in
    rw more refl

-- A group whose entries are known is answered with the object of its member.
status_group-object_text :
    (ngx : Nginx) (o : Output) (g : Selector) (count : ℕ) (t t' : Tree) (s s' : Stats)
    (entries : Bytes)
    → group_entries ngx o g ((b'{' ∷ []) ++ group_open o.env g) t s
      ≡ some (t', ((b'{' ∷ []) ++ group_open o.env g ++ entries, s'))
    → status_group ngx o g count t s
      ≡ some (
          report t' s'
            (object_text (group_open o.env g) entries (group_close g))
            (counted entries count))
unfolding status_group
status_group-object_text ngx o g count t t' s s' entries run =
    rw
      (
        status_group,
        run,
        closed-object_text (group_open o.env g) entries (group_close g),
        counted-length ((b'{' ∷ []) ++ group_open o.env g) entries count,
      )
      refl

-- What `display_set` needs to print a tree and its sums.
pub record CanShow (o : Output) (server_body upstream_body : List Value → Bytes) (t : Tree)
    (s : Stats) : Type 0 where
  pub servers : Filters.Entries.IsReady o.env server_body
  pub upstreams : Upstream.Lines.IsReady o.env upstream_body
  pub array : o.pool.array ≡ true
  pub key : o.pool.key ≡ true
  pub memory : o.memory ≡ true
  pub room : length (filters (preorder t)) ≤ o.pool.room
  pub distinct : Distinct (inorder t)
  pub shown : All Upstream.Lines.IsShown (inorder t)
  pub zones : All Servers.IsShown (chosen is_server (preorder t))
  pub summed : IsSum s
  pub small : Below two_words (sums (chosen is_server (preorder t)) (stats_totals s))
  pub names :
      All
        (λ k. (has_printable k ≡ true) × All (λ b. 0 < b) k)
        (sorted_keys o.sort (filters (preorder t)))
  pub named : All (Named (dst_len o.upstreams)) o.upstreams
  pub alone : All (λ m. has_printable (alone_name m) ≡ true) (chosen is_alone (preorder t))

module _ (ngx : Nginx) (o : Output) (server_body upstream_body : List Value → Bytes) (t : Tree)
    (s : Stats) (h : CanShow o server_body upstream_body t s) where
  -- The entries of a group in the tree, each with a comma behind it.
  unfoldable pub entries_text : Selector → Bytes
  unfolding server_lines alone_text groups_text array_text objects_text
  entries_text (group n) =
      if n == upstream_no
      then server_lines o.env (chosen is_server (preorder t))
      else (if n == upstream_ua
          then alone_text o.env upstream_body h.upstreams (chosen is_alone (preorder t))
          else (if n == upstream_ug
              then groups_text ngx o.env upstream_body h.upstreams t h.distinct h.shown o.upstreams
                ++ array_text o.env nogroups
                    (alone_lines o.env upstream_body h.upstreams (chosen is_alone (preorder t)))
              else (if n == upstream_fg
                  then objects_text o.env server_body t (sorted_keys o.sort (filters (preorder t)))
                      []
                  else [])))
  entries_text _ = []

  group_entries-entries_text :
      (g : Selector) (out : Bytes)
      → (s' : Stats) × (group_entries ngx o g out t s ≡ some (t, (out ++ entries_text g, s')))
  unfolding group_entries entries_text
  group_entries-entries_text unset out = (s, ap (λ b. some (t, (b, s))) (sym (append-nil out)))
  group_entries-entries_text any out = (s, ap (λ b. some (t, (b, s))) (sym (append-nil out)))
  group_entries-entries_text (group n) out = elim (Bool-cases (n == upstream_no)) [
    | inl e ↦
        let (s', run, total) =
          set_server_lem o.env t out s h.servers.law h.servers.memory h.summed h.zones h.small in
        (s', rw (e, run) refl)
    | inr zone ↦ elim (Bool-cases (n == upstream_ua)) [
      | inl e ↦
          let run =
            set_upstream_alone-alone_text o.env upstream_body h.upstreams t out
              (All-preorder Upstream.Lines.IsShown t h.shown) h.alone in
          (s, rw (zone, e, run) refl)
      | inr ua ↦ elim (Bool-cases (n == upstream_ug)) [
        | inl e ↦
            let run =
              set_upstream_group_lem ngx o.env upstream_body h.upstreams t h.distinct h.shown
                o.upstreams out h.named h.alone in
            (s, rw (zone, ua, e, h.memory, run) (ap (λ b. some (t, (b, s))) (append_assoc out _ _)))
        | inr ug ↦ elim (Bool-cases (n == upstream_fg)) [
          | inl e ↦
              let run =
                set_filter_lem o.env server_body o.pool o.sort t out h.servers h.array h.key h.room
                  h.distinct
                  (All-mono Upstream.Lines.IsShown (inorder t) (λ m shown. shown.request) h.shown)
                  h.names in
              (s, rw (zone, ua, ug, e, run) refl)
          | inr fg ↦ (s, rw (zone, ua, ug, fg) (ap (λ b. some (t, (b, s))) (sym (append-nil out))))
        ]
      ]
    ]
  ]

  -- Where a tree can be printed, and the names of a printed group behind its host fit `dst`, the longest host
  -- and 54 bytes, the command `status` for a group leaves the tree and answers with an object of
  -- one member: the group's server zones, servers without a group, groups of upstreams, or filters,
  -- as they stand in the whole output; the count goes up by one. Where the group has no
  -- entries, and for the group of caches, the object is empty and the count stays.
  pub status_group_lem :
      (g : Selector) (count : ℕ)
      → (s' : Stats) × (status_group ngx o g count t s
          ≡ some (
              report t s'
                (object_text (group_open o.env g) (entries_text g) (group_close g))
                (counted (entries_text g) count)))
  status_group_lem g count =
      let (s', run) = group_entries-entries_text g ((b'{' ∷ []) ++ group_open o.env g) in
      (s', status_group-object_text ngx o g count t t s s' (entries_text g) run)
