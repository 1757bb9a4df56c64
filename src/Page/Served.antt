-- ===== src/Page/Served.antt =====
-- What a request for a page is answered with: `display_handler_default` of
-- ngx_metric_module/src/ngx_http_vhost_traffic_status_display.c.
use mathlib.Core.Path.{subst}
use metrics_server_example.Base.{
  ℕ, ◌==◌, ◌+◌, leb, length, arith, ◌*◌, ◌≡◌, ◌≤◌, ◌<◌, refl, true, false, none, some, List, [],
  ◌∷◌, ◌++◌, take, All,
}
use metrics_server_example.Base.Words.{u64_mod}
use metrics_server_example.Text.{Bytes}
use metrics_server_example.RbTree.{Tree, inorder, Nginx}
use metrics_server_example.Filter.Walk.{preorder}
use metrics_server_example.Control.Selected.{chosen}
use metrics_server_example.FilterNodes.Named.{filters}
use metrics_server_example.Node.{zero_counters}
use metrics_server_example.Node.Totals.{Below}
use metrics_server_example.Zone.{Zone}
use metrics_server_example.Json.{Value, Stats, init_stats}
use metrics_server_example.Json.Sum.{two_words, sums}
use metrics_server_example.Json.Servers.{is_server, server_lines}
use metrics_server_example.Json.Upstream.Members.{is_alone, alone_lines}
use metrics_server_example.Json.UpstreamGroup.{nogroups}
use metrics_server_example.Json.UpstreamGroup.Entries.{array_text, groups_text}
use metrics_server_example.Json.Filters.{sorted_keys}
use metrics_server_example.Json.Filters.Entries.{objects_text}
use metrics_server_example.Json.Whole.{
  set_main, filter_zones_name, upstream_zones_name, display_set,
}
use metrics_server_example.Json.Whole.Members.{
  server_member, member_text, display_set_lem, stats_totals-init_stats,
}
use metrics_server_example.ControlStatus.Groups.{CanShow}
use metrics_server_example.Prometheus
use metrics_server_example.Prometheus.{fmt_start, of_server, of_filter, of_upstream}
use metrics_server_example.Prometheus.Samples
use metrics_server_example.Prometheus.Collected.{asked, fitting, IsPlain}
use metrics_server_example.Prometheus.Parts
use metrics_server_example.Prometheus.Parts.{part_text, prometheus_set_lem}
use metrics_server_example.Page.{
  PageFormat, json, html, jsonp, prometheus, find_format, get_size, get_upstream_nelts,
}
use metrics_server_example.Page.Size.{bytes_for, get_size-bytes_for}
use metrics_server_example.Page.Formats.{page_result, find_format_lem}
use metrics_server_example.Page.Places.{first_format}
use metrics_server_example.Page.Handler.{
  spare, or_text, in_brackets, get, Site, Visit, page, print_page, show_page, refuses,
  handler_default,
}

-- The output in the format of Prometheus.
abbrev pub metrics_text : Site → Tree → Bytes
metrics_text site t =
    let env = site.metrics in
    Prometheus.set_main env site.output.main
    ++ env.sprintf (fmt_start of_server) []
    ++ Prometheus.Parts.servers env t
    ++ part_text env of_filter (Prometheus.Parts.filters env t)
    ++ part_text env of_upstream (Prometheus.Parts.upstreams env t)
    ++ fitting env.metrics_size 0 (asked site.collectors)

-- What both outputs need to print a tree.
pub record CanPrint (site : Site) (server_body upstream_body : List Value → Bytes) (t : Tree)
    (s : Stats) : Type 0 where
  pub whole : CanShow site.output server_body upstream_body t (init_stats s)
  pub shown : All Prometheus.Samples.IsShown (preorder t)
  pub word : site.metrics.metrics_size * 2 ≤ u64_mod
  pub plain : All (λ c. c.enabled ≡ true → IsPlain site.metrics c) site.collectors

-- The bytes of the buffer of a page.
unfoldable pub buffer_bytes : Site → Tree → PageFormat → ℕ
buffer_bytes site t html = site.sizes.html_data + site.sizes.page
buffer_bytes site t f =
    bytes_for site.sizes (length (inorder t) + get_upstream_nelts site.output.upstreams)

-- The numbers of the size fit a word, and the page with what it takes back fits the buffer.
pub record IsRoomy (site : Site) (t : Tree) (f : PageFormat) (text : Bytes) : Type 0 where
  pub entries : length (inorder t) + get_upstream_nelts site.output.upstreams < u64_mod
  pub word :
      bytes_for site.sizes (length (inorder t) + get_upstream_nelts site.output.upstreams) < u64_mod
  pub html_page : 0 < site.sizes.html_data + site.sizes.page
  pub fits : length text + spare site f ≤ buffer_bytes site t f

get_size-buffer_bytes :
    (site : Site) (t : Tree) (f : PageFormat) (text : Bytes)
    → IsRoomy site t f text
    → get_size site.sizes site.output.conf true site.output.upstreams t f
      ≡ some (buffer_bytes site t f)
unfolding buffer_bytes
get_size-buffer_bytes site t html text h =
    unfold get_size in
    let positive : (site.sizes.html_data + site.sizes.page == 0) ≡ false =
      ground (arith, h.html_page) in
    rw positive refl
get_size-buffer_bytes site t json text h =
    get_size-bytes_for site.sizes site.output.conf site.output.upstreams t json (λ e. cc) h.entries
      h.word
get_size-buffer_bytes site t jsonp text h =
    get_size-bytes_for site.sizes site.output.conf site.output.upstreams t jsonp (λ e. cc) h.entries
      h.word
get_size-buffer_bytes site t prometheus text h =
    get_size-bytes_for site.sizes site.output.conf site.output.upstreams t prometheus (λ e. cc)
      h.entries h.word

-- The request gets as far as the page.
pub record IsServed (site : Site) (v : Visit) : Type 0 where
  pub enable : site.enable ≡ true
  pub verb : v.verb ≡ get
  pub discard : v.discard ≡ none
  pub info : v.info ≡ true
  pub buffer : v.buffer ≡ true
  pub nonzero : All (λ b. 0 < b) (take v.len v.memory)

-- The shared memory after a page: but for HTML the mutex is given back.
abbrev pub served : PageFormat → Zone → Zone
served html z = z
served json z = record z { locked = false }
served jsonp z = record z { locked = false }
served prometheus z = record z { locked = false }

module _ (ngx : Nginx) (site : Site) (server_body upstream_body : List Value → Bytes) (z : Zone)
    (s : Stats) (h : CanPrint site server_body upstream_body z.tree s) where
  -- The output as JSON, behind its brace.
  unfoldable pub members_text : Bytes
  unfolding server_lines objects_text groups_text array_text
  members_text =
      let o = site.output in
      let t = z.tree in
      set_main o.env o.main o.conf t
      ++ server_member (server_lines o.env (chosen is_server (preorder t)))
      ++ member_text filter_zones_name
          (objects_text o.env server_body t (sorted_keys o.sort (filters (preorder t))) [])
      ++ member_text upstream_zones_name (
          groups_text ngx o.env upstream_body h.whole.upstreams t h.whole.distinct h.whole.shown
            o.upstreams
          ++ array_text o.env nogroups
              (alone_lines o.env upstream_body h.whole.upstreams (chosen is_alone (preorder t))))
      ++ b'}' ∷ []

  whole_output :
      (s' : Stats) × (display_set ngx site.output.env site.output.main site.output.conf
          site.output.pool site.output.sort site.output.memory site.output.upstreams
          (z.tree, s)
        ≡ some (z.tree, (b'{' ∷ members_text, s')))
  unfolding members_text
  whole_output =
      let o = site.output in
      let w = h.whole in
      let small : Below two_words (sums (chosen is_server (preorder z.tree)) zero_counters) =
        subst (λ a. Below two_words (sums (chosen is_server (preorder z.tree)) a))
          (stats_totals-init_stats s) w.small in
      let (s', run, total) =
        display_set_lem ngx o.env server_body upstream_body o.main o.conf o.pool o.sort o.upstreams
          z.tree s w.servers w.upstreams w.array w.key w.room w.distinct w.shown w.zones small
          w.names w.named w.alone in
      (s', rw w.memory run)

  -- The page of a format with the text of the page.
  unfoldable pub page_text : PageFormat → Bytes → Bytes
  unfolding members_text
  page_text json uri = b'{' ∷ members_text
  page_text jsonp uri = in_brackets site.jsonp (b'{' ∷ members_text)
  page_text html uri = site.html uri
  page_text prometheus uri = or_text (metrics_text site z.tree) (b'#' ∷ [])

  print_page-page_text :
      (f : PageFormat) (uri : Bytes)
      → (s' : Stats) × (print_page ngx site f uri z s ≡ some (page_text f uri, (served f z, s')))
  unfolding print_page page_text
  print_page-page_text json uri = let (s', run) = whole_output in (s', rw (print_page, run) refl)
  print_page-page_text jsonp uri = let (s', run) = whole_output in (s', rw (print_page, run) refl)
  print_page-page_text html uri = (s, refl)
  print_page-page_text prometheus uri =
      let (s', run) =
        prometheus_set_lem site.metrics site.output.main site.collectors z.tree s h.shown h.word
          h.plain in
      (s', rw (print_page, run) refl)

  show_page-page :
      (v : Visit) (f : PageFormat) (uri : Bytes)
      → IsServed site v
      → find_format site.format v.memory v.len ≡ some (f, uri)
      → IsRoomy site z.tree f (page_text f uri)
      → (s' : Stats) × (show_page ngx site v z s
          ≡ some (page f (page_text f uri), (served f z, s')))
  unfolding show_page
  show_page-page v f uri ok found roomy =
      let (s', run) = print_page-page_text f uri in
      let size : get_size site.sizes site.output.conf v.info site.output.upstreams z.tree f
          ≡ some (buffer_bytes site z.tree f) =
        rw ok.info (get_size-buffer_bytes site z.tree f (page_text f uri) roomy) in
      let within : leb (length (page_text f uri) + spare site f) (buffer_bytes site z.tree f)
          ≡ true =
        ground (arith, roomy.fits) in
      (s', rw (show_page, found, ok.discard, ok.verb, size, ok.buffer, run, within) refl)

  -- A request with the method GET for a page is answered with the page of the format that its text names
  -- first, or else of the format of the configuration: for JSON the whole output, for JSONP this in
  -- brackets behind the name, for HTML the page with the text in front of the format, for Prometheus
  -- the metrics, or a `#` where they are empty. The tree is left, and but for HTML the mutex
  -- is given back. The module is on, there is memory, the tree can be printed, the names of a
  -- printed group behind its host fit `dst`, the longest host and 54 bytes, the request's text has no
  -- zeros, and the page, with what it takes back while it is written, fits the buffer: that of the
  -- page in HTML, or that for as many entries as the tree has nodes and the groups have peers and
  -- addresses, where these numbers fit a word.
  pub handler_default_lem :
      (v : Visit)
      → IsServed site v
      → ((uri : ℕ)
          → let r = page_result site.format v.memory (first_format v.len 0 v.memory) uri in
            IsRoomy site z.tree r.0 (page_text r.0 r.1))
      → (uri : ℕ) × (s' : Stats) × (let r =
            page_result site.format v.memory (first_format v.len 0 v.memory) uri in
          handler_default ngx site v z s ≡ some (page r.0 (page_text r.0 r.1), (served r.0 z, s')))
  unfolding handler_default refuses
  handler_default_lem v ok roomy =
      let (uri, found) = find_format_lem site.format v.memory v.len ok.nonzero in
      let r = page_result site.format v.memory (first_format v.len 0 v.memory) uri in
      let (s', run) = show_page-page v r.0 r.1 ok found (roomy uri) in
      let taken : refuses site v ≡ none = rw (refuses, ok.enable, ok.verb) refl in
      (uri, s', rw (handler_default, taken, run) refl)
