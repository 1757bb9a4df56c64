-- ===== src/Json/Whole/Members.antt =====
-- What `display_set` of
-- ngx_metric_module/src/ngx_http_vhost_traffic_status_display_json.c prints, member by member.
use mathlib.Core.Path.{subst}
use metrics_server_example.Base.{
  ℕ, suc, ◌-◌, ◌≡◌, ◌≤◌, ◌<◌, refl, ap, sym, ◌∙◌, true, false, some, List, [], ◌∷◌, ◌++◌,
  append_assoc, append-nil, arith, ◌==◌, length, length-append, take, All, All-mono,
}
use metrics_server_example.Text.{Bytes}
use metrics_server_example.Text.Pool.{has_printable}
use metrics_server_example.RbTree.{Tree, inorder, Nginx}
use metrics_server_example.Zone.Update.{Distinct}
use metrics_server_example.Filter.{MainConf}
use metrics_server_example.Filter.Walk.{preorder}
use metrics_server_example.Control.{Pool}
use metrics_server_example.Control.Selected.{chosen}
use metrics_server_example.FilterNodes.Named.{filters}
use metrics_server_example.Node.{zero_counters}
use metrics_server_example.TimeQueue.Window.{init-IsFull}
use metrics_server_example.Node.Totals.{Below}
use metrics_server_example.Json.{Env, Value, Stats, init_stats, closed, set_server}
use metrics_server_example.Json.Sum.{IsSum, stats_totals, two_words, sums}
use metrics_server_example.Json.Servers
use metrics_server_example.Json.Servers.{is_server, server_lines, set_server_lem}
use metrics_server_example.Json.Upstream.{UpstreamSrvConf}
use metrics_server_example.Json.Upstream
use metrics_server_example.Json.Upstream.Members.{is_alone, alone_name, alone_lines}
use metrics_server_example.Json.UpstreamGroup.{nogroups, dst_len, set_upstream_group}
use metrics_server_example.Json.UpstreamGroup.Entries.{
  Named, array_text, groups_text, set_upstream_group_lem,
}
use metrics_server_example.Json.Filters.{sorted_keys, set_filter}
use metrics_server_example.Json.Filters
use metrics_server_example.Json.Filters.Entries.{objects_text, set_filter_lem}
use metrics_server_example.Json.Whole.{
  Main, set_main, server_zones_name, filter_zones_name, upstream_zones_name, server_zones,
  filter_zones, upstream_zones, display_set,
}

abbrev comma_text : Bytes
comma_text = b',' ∷ []

-- A text without its last byte.
abbrev pub without_last : Bytes → Bytes
without_last text = take (length text - 1) text

pub without_last-append :
    (a : Bytes) (b : ℕ) (bs : Bytes) → without_last (a ++ b ∷ bs) ≡ a ++ without_last (b ∷ bs)
without_last-append [] b bs = refl
without_last-append (x ∷ xs) b bs =
    let size : length (x ∷ (xs ++ b ∷ bs)) - 1 ≡ suc (length (xs ++ b ∷ bs) - 1) =
      omega (arith, length-append xs (b ∷ bs)) in
    rw size (ap (λ s. x ∷ s) (without_last-append xs b bs))

-- A member of the output with its comma_text before it; nothing where it has no entries.
unfoldable pub member_text : Bytes → Bytes → Bytes
member_text name [] = []
member_text name (b ∷ bs) = comma_text ++ (name ++ without_last (b ∷ bs)) ++ b'}' ∷ []

-- The end of a part that begins behind `out`.
pub closed-append :
    (o out name : Bytes) (b : ℕ) (bs end : Bytes)
    → closed o (out ++ name) (out ++ name ++ b ∷ bs) end
      ≡ out ++ (name ++ without_last (b ∷ bs)) ++ end
unfolding closed
closed-append o out name b bs end =
    let longer : (length (out ++ name) == length (out ++ name ++ b ∷ bs)) ≡ false =
      ground (arith, length-append (out ++ name) (b ∷ bs)) in
    rw (longer, without_last-append (out ++ name) b bs)
      (ap (λ w. w ++ end) (append_assoc out name (without_last (b ∷ bs))))

pub closed-nil : (o s end : Bytes) → closed o s (s ++ []) end ≡ o
unfolding closed
closed-nil o s end =
    let same : (length s == length (s ++ [])) ≡ true = ground (arith, ap length (append-nil s)) in
    rw same refl

-- The member of the server zones; the brace is missing where there are none.
unfoldable pub server_member : Bytes → Bytes
server_member [] = server_zones_name ++ b'}' ∷ []
server_member (b ∷ bs) = server_zones_name ++ b'{' ∷ [] ++ without_last (b ∷ bs) ++ b'}' ∷ []

server_zones-server_member :
    (env : Env) (t t' : Tree) (out lines : Bytes) (s s' : Stats)
    → set_server env t (out ++ server_zones_name ++ b'{' ∷ [], s)
      ≡ some (t', (out ++ server_zones_name ++ b'{' ∷ [] ++ lines, s'))
    → server_zones env t (out, s) ≡ some (t', (out ++ server_member lines ++ comma_text, s'))
unfolding server_zones server_member
server_zones-server_member env t t' out [] s s' run =
    let cut : without_last (out ++ server_zones_name ++ b'{' ∷ [] ++ [])
        ≡ out ++ server_zones_name =
      ap without_last (append-nil (out ++ server_zones_name ++ b'{' ∷ []))
      ∙ without_last-append (out ++ server_zones_name) b'{' []
      ∙ append-nil (out ++ server_zones_name) in
    rw (server_zones, run, cut) (simp append_assoc refl)
server_zones-server_member env t t' out (b ∷ bs) s s' run =
    rw (server_zones, run, without_last-append (out ++ server_zones_name ++ b'{' ∷ []) b bs)
      (simp append_assoc refl)

filter_zones-member_text :
    (env : Env) (pool : Pool) (sort : List Bytes → List Bytes) (t t' : Tree) (out text : Bytes)
    → set_filter env pool sort (t, out ++ comma_text ++ filter_zones_name)
      ≡ some (t', out ++ comma_text ++ filter_zones_name ++ text)
    → filter_zones env pool sort (t, out ++ comma_text)
      ≡ some (t', out ++ member_text filter_zones_name text ++ comma_text)
unfolding filter_zones member_text
filter_zones-member_text env pool sort t t' out [] run =
    rw
      (
        filter_zones,
        run,
        closed-nil (out ++ comma_text) (out ++ comma_text ++ filter_zones_name) (b'}' ∷ comma_text),
      )
      (ap (λ o. some (t', o ++ comma_text)) (sym (append-nil out)))
filter_zones-member_text env pool sort t t' out (b ∷ bs) run =
    rw
      (
        filter_zones,
        run,
        closed-append (out ++ comma_text) (out ++ comma_text) filter_zones_name b bs
            (b'}' ∷ comma_text),
      )
      (simp append_assoc refl)

upstream_zones-member_text :
    (ngx : Nginx) (env : Env) (us : List UpstreamSrvConf) (t t' : Tree) (out text : Bytes)
    → set_upstream_group ngx env true us (t, out ++ comma_text ++ upstream_zones_name)
      ≡ some (t', out ++ comma_text ++ upstream_zones_name ++ text)
    → upstream_zones ngx env true us (t, out ++ comma_text)
      ≡ some (t', out ++ member_text upstream_zones_name text)
unfolding upstream_zones member_text
upstream_zones-member_text ngx env us t t' out [] run =
    let cut : without_last (out ++ comma_text) ≡ out =
      without_last-append out b',' [] ∙ append-nil out in
    rw
      (
        upstream_zones,
        run,
        closed-nil (without_last (out ++ comma_text)) (out ++ comma_text ++ upstream_zones_name)
            (b'}' ∷ []),
        cut,
      )
      (ap (λ o. some (t', o)) (sym (append-nil out)))
upstream_zones-member_text ngx env us t t' out (b ∷ bs) run =
    rw
      (
        upstream_zones,
        run,
        closed-append (without_last (out ++ comma_text)) (out ++ comma_text) upstream_zones_name b
            bs (b'}' ∷ []),
      )
      (simp append_assoc refl)

init_stats-IsSum : (s : Stats) → IsSum (init_stats s)
unfolding init_stats
init_stats-IsSum s = record {
  words = record { stat = omega arith; stat_oc = omega arith };
  full = init-IsFull s.request_times;
}

pub stats_totals-init_stats : (s : Stats) → stats_totals (init_stats s) ≡ zero_counters
unfolding init_stats
stats_totals-init_stats s = refl

-- The whole output is one object: the members of nginx and of the memory, the server zones, the filters
-- and the upstreams, with commas between them. The filters and the upstreams are left out where there
-- are none; of the server zones there stays a name without a value then. The tree is left, and
-- the sums are the exact sums of the server zones. All nodes can be printed and stand at different
-- addresses, names are text and not of control characters only, the names of a printed group behind its
-- host fit `dst`, the longest host and 54 bytes, there is memory, and the sums fit two words.
pub display_set_lem :
    (ngx : Nginx) (env : Env) (server_body upstream_body : List Value → Bytes) (main : Main)
    (conf : MainConf) (pool : Pool) (sort : List Bytes → List Bytes) (us : List UpstreamSrvConf)
    (t : Tree) (s : Stats) (servers : Filters.Entries.IsReady env server_body)
    (upstreams : Upstream.Lines.IsReady env upstream_body)
    → pool.array ≡ true
    → pool.key ≡ true
    → length (filters (preorder t)) ≤ pool.room
    → (distinct : Distinct (inorder t)) → (shown : All Upstream.Lines.IsShown (inorder t))
    → All Servers.IsShown (chosen is_server (preorder t))
    → Below two_words (sums (chosen is_server (preorder t)) zero_counters)
    → All
        (λ k. (has_printable k ≡ true) × All (λ b. 0 < b) k)
        (sorted_keys sort (filters (preorder t)))
    → All (Named (dst_len us)) us
    → All (λ m. has_printable (alone_name m) ≡ true) (chosen is_alone (preorder t))
    → (s' : Stats) × (display_set ngx env main conf pool sort true us (t, s)
        ≡ some (
          t,
          (
            (b'{' ∷ [])
                ++ set_main env main conf t
                ++ server_member (server_lines env (chosen is_server (preorder t)))
                ++ member_text filter_zones_name
                    (objects_text env server_body t (sorted_keys sort (filters (preorder t))) [])
                ++ member_text upstream_zones_name (
                    groups_text ngx env upstream_body upstreams t distinct shown us
                    ++ array_text env nogroups
                        (alone_lines env upstream_body upstreams (chosen is_alone (preorder t))))
                ++ b'}' ∷ [],
            s',
          ),
        ))
      × (stats_totals s' ≡ sums (chosen is_server (preorder t)) zero_counters)
unfolding display_set
display_set_lem ngx env server_body upstream_body main conf pool sort us t s servers upstreams array
      key room distinct shown zones small names named alone =
    let start = (b'{' ∷ []) ++ set_main env main conf t in
    let ns = chosen is_server (preorder t) in
    let lines = server_lines env ns in
    let objects = objects_text env server_body t (sorted_keys sort (filters (preorder t))) [] in
    let groups = groups_text ngx env upstream_body upstreams t distinct shown us in
    let alones =
      array_text env nogroups
        (alone_lines env upstream_body upstreams (chosen is_alone (preorder t))) in
    let (s', run1, total) =
      set_server_lem env t (start ++ server_zones_name ++ b'{' ∷ []) (init_stats s) servers.law
        servers.memory (init_stats-IsSum s) zones
        (subst (λ a. Below two_words (sums ns a)) (sym (stats_totals-init_stats s)) small) in
    let out1 = start ++ server_member lines in
    let out2 = out1 ++ member_text filter_zones_name objects in
    let run2 =
      set_filter_lem env server_body pool sort t (out1 ++ comma_text ++ filter_zones_name) servers
        array key room distinct
        (All-mono Upstream.Lines.IsShown (inorder t) (λ m h. h.request) shown) names in
    let run3 : set_upstream_group ngx env true us (t, out2 ++ comma_text ++ upstream_zones_name)
        ≡ some (t, out2 ++ comma_text ++ upstream_zones_name ++ (groups ++ alones)) =
      set_upstream_group_lem ngx env upstream_body upstreams t distinct shown us
        (out2 ++ comma_text ++ upstream_zones_name) named alone
      ∙ ap (λ o. some (t, o))
          (append_assoc (out2 ++ comma_text ++ upstream_zones_name) groups alones) in
    (
      s',
      rw
          (
            display_set,
            server_zones-server_member env t t start lines (init_stats s) s' run1,
            filter_zones-member_text env pool sort t t out1 objects run2,
            upstream_zones-member_text ngx env us t t out2 (groups ++ alones) run3,
          )
          refl,
      total ∙ ap (sums ns) (stats_totals-init_stats s),
    )
