-- ===== src/ControlHandler/Executed.antt =====
-- What a request to the control interface does: `display_handler_control` of
-- ngx_metric_module/src/ngx_http_vhost_traffic_status_display.c.
use metrics_server_example.Base.{
  ℕ, ◌+◌, ◌≡◌, ◌≢◌, ◌≤◌, ◌<◌, refl, ap, ◌∙◌, inl, inr, ◌⊎◌, true, false, Option, none, some, List,
  map, length, leb, arith,
}
use metrics_server_example.Base.Words.{u64_mod, add64}
use metrics_server_example.Text.{Bytes}
use metrics_server_example.Node.{zero_counters}
use metrics_server_example.Node.Totals.{Below}
use metrics_server_example.RbTree.{RbNode, Tree, inorder, Nginx, IsLawful}
use metrics_server_example.RbTree.Order.{Sorted}
use metrics_server_example.Filter.Walk.{preorder}
use metrics_server_example.Zone.{Zone}
use metrics_server_example.Zone.Update.{Distinct}
use metrics_server_example.Control.{Control, Pool}
use metrics_server_example.Control.Selected.{selects, chosen, unchosen}
use metrics_server_example.Control.Reset.{zeroed_if, reset_lem}
use metrics_server_example.Control.Delete.{delete_lem}
use metrics_server_example.Json.{Value, Stats}
use metrics_server_example.Json.Sum.{two_words, sums}
use metrics_server_example.Json.Servers.{is_server}
use metrics_server_example.Page.{json, get_size, get_upstream_nelts}
use metrics_server_example.Page.Size.{bytes_for, get_size-bytes_for}
use metrics_server_example.ControlHandler.{
  Command, cmd_none, cmd_status, cmd_delete, cmd_reset, Args, Memory, sent, parse,
}
use metrics_server_example.ControlHandler.Parsed.{Named, parse-Named, Command-cases}
use metrics_server_example.ControlStatus.{Report, report}
use metrics_server_example.ControlStatus.Groups.{CanShow}
use metrics_server_example.ControlStatus.Left.{IsKnown, node_status-left}
use metrics_server_example.ControlStatus.Handler.{
  Interface, control_values, arg_text, execute, answer_buf, control_size, answer_spare, run_command,
  handler_control,
}

-- The nodes after a command.
unfoldable pub nodes_after : Nginx → Command → Control → List RbNode → List RbNode
nodes_after ngx cmd_delete c ms = unchosen (selects ngx c) ms
nodes_after ngx cmd_reset c ms = map (zeroed_if (selects ngx c)) ms
nodes_after ngx cmd_status c ms = ms
nodes_after ngx cmd_none c ms = ms

-- The count that a command reports, but for `status`.
unfoldable pub IsCounted : Nginx → Command → Control → List RbNode → ℕ → Type 0
IsCounted ngx cmd_delete c ms n = n ≡ add64 c.count (length (chosen (selects ngx c) ms))
IsCounted ngx cmd_reset c ms n = n ≡ add64 c.count (length (chosen (selects ngx c) ms))
IsCounted ngx cmd_none c ms n = n ≡ c.count
IsCounted ngx cmd_status c ms n = Unit

-- The surroundings let the request get as far as the command.
pub record IsServed (mem : Memory) : Type 0 where
  pub control : mem.control ≡ true
  pub zone : mem.zone ≡ true
  pub buffer : mem.buffer ≡ true
  pub body : mem.header_only ≡ false

-- The bytes of the buffer of an answer.
unfoldable pub buffer_bytes : Interface → Args → Tree → Command → ℕ
buffer_bytes i a t cmd_status =
    bytes_for i.sizes (length (inorder t) + get_upstream_nelts i.output.upstreams)
buffer_bytes i a t _ =
    135
    + length (arg_text a a.cmd)
    + length (arg_text a a.group)
    + length (arg_text a a.zone)
    + i.sizes.page

-- What the command `status` needs: the tree can be printed, with sums of two words, the lookup of a server
-- ends, and there is memory for `shm_info`, whose numbers give a size that fits a word.
pub record IsReportable (i : Interface) (server_body upstream_body : List Value → Bytes)
    (mem : Memory) (t : Tree) (s : Stats) (c : Control) : Type 0 where
  pub shown : CanShow i.output server_body upstream_body t s
  pub small : Below two_words (sums (chosen is_server (preorder t)) zero_counters)
  pub known : IsKnown i.output c
  pub info : mem.info ≡ true
  pub entries : length (inorder t) + get_upstream_nelts i.output.upstreams < u64_mod
  pub word :
      bytes_for i.sizes (length (inorder t) + get_upstream_nelts i.output.upstreams) < u64_mod

control_size-buffer_bytes :
    (i : Interface) (sb ub : List Value → Bytes) (mem : Memory) (a : Args) (t : Tree) (s : Stats)
    (c : Control) (command : Command)
    → (command ≡ cmd_status → IsReportable i sb ub mem t s c)
    → control_size i mem a t command ≡ some (buffer_bytes i a t command)
unfolding control_size buffer_bytes
control_size-buffer_bytes i sb ub mem a t s c cmd_status h =
    ap (λ b. get_size i.sizes i.output.conf b i.output.upstreams t json) (h refl).info
    ∙ get_size-bytes_for i.sizes i.output.conf i.output.upstreams t json (λ e. cc) (h refl).entries
        (h refl).word
control_size-buffer_bytes i sb ub mem a t s c cmd_delete h = refl
control_size-buffer_bytes i sb ub mem a t s c cmd_reset h = refl
control_size-buffer_bytes i sb ub mem a t s c cmd_none h = refl

-- The memory of a command suffices.
pub record HasPool (pool : Pool) (t : Tree) : Type 0 where
  pub key : pool.key ≡ true
  pub array : pool.array ≡ true
  pub room : length (inorder t) ≤ pool.room

module _ (ngx : Nginx) (i : Interface) (sb ub : List Value → Bytes) (mem : Memory) (t : Tree)
    (s : Stats) (law : IsLawful ngx) (sorted : Sorted ngx (inorder t))
    (distinct : Distinct (inorder t)) (h : HasPool i.output.pool t) where
  -- Every command ends.
  execute-nodes_after :
      (a : Args) (command : Command) (c : Control)
      → (command ≡ cmd_status → IsReportable i sb ub mem t s c)
      → (command ≢ cmd_none → c.count < u64_mod)
      → (p : Report) × (execute ngx i a command c t s ≡ some p)
        × (inorder p.tree ≡ nodes_after ngx command c (inorder t))
        × IsCounted ngx command c (inorder t) p.count
  unfolding execute nodes_after IsCounted
  execute-nodes_after a cmd_delete c ready word =
      let (t', run, nodes) =
        delete_lem ngx c i.output.pool t law sorted distinct h.key h.array h.room
          (word (ground arith)) in
      let next : Option (Tree × ℕ) → Option Report = λ r. elim r [
        | none ↦ none
        | some (t₁, n) ↦ some (report t₁ s (i.fmt_control (control_values 1 a n)) n)
      ] in
      (_, ap next run, nodes, refl)
  execute-nodes_after a cmd_reset c ready word =
      let (nodes, counted) =
        reset_lem ngx c i.output.pool t law sorted distinct h.key (word (ground arith)) in
      (_, refl, nodes, counted)
  execute-nodes_after a cmd_status c ready word =
      let r = ready refl in
      let (p, run, left) = node_status-left ngx i.output sb ub t s r.shown c r.known r.small in
      (p, run, ap inorder left, tt)
  execute-nodes_after a cmd_none c ready word = (_, refl, refl, refl)

-- Where the surroundings have what it needs and the arguments can be read, a request to the control
-- interface is answered with what its command prints, or `{}`, and gives the mutex back, and its command
-- ends: `delete` unlinks exactly the nodes of the range that the arguments name, `reset` zeroes the
-- counters of exactly those, both with their number modulo 2^64 as the count, and `status` and an unknown command leave
-- the tree. A command other than the unknown one is named by `cmd`, with a known `group` or none, and
-- with a `zone` unless the group is `*`; its zone is the text of that argument with the separator of keys
-- for every `@`, where this has no `[` and no zero; its range is everything for the group `*`, and else
-- nothing for an empty zone, the group for the zone `*`, and the zone for any other. The tree is in
-- order, its nodes stand at different addresses, and nginx's tree code is lawful; the answer, with what it
-- may take back while it is written, fits its buffer; and for `status`, the tree can be printed, with
-- names of printed groups that fit `dst` behind their host, its sums fit two words and its size a word, there is memory for `shm_info`, and the lookup of a server
-- ends with none or one whose name is not of control characters only.
pub handler_control_lem :
    (ngx : Nginx) (i : Interface) (server_body upstream_body : List Value → Bytes) (mem : Memory)
    (a : Args) (z : Zone) (s : Stats) (command : Command) (c : Control)
    → IsLawful ngx
    → Sorted ngx (inorder z.tree)
    → Distinct (inorder z.tree)
    → IsServed mem
    → HasPool i.output.pool z.tree
    → parse mem.copy a ≡ some (command, c)
    → (command ≡ cmd_status → IsReportable i server_body upstream_body mem z.tree s c)
    → ((p : Report)
        → execute ngx i a command c z.tree s ≡ some p
        → length (answer_buf p.buf) + answer_spare i command ≤ buffer_bytes i a z.tree command)
    → (p : Report) × (execute ngx i a command c z.tree s ≡ some p)
      × (handler_control ngx i mem a z s
          ≡ some (sent (answer_buf p.buf), (record z { tree = p.tree; locked = false }, p.stats)))
      × (inorder p.tree ≡ nodes_after ngx command c (inorder z.tree))
      × IsCounted ngx command c (inorder z.tree) p.count
      × ((command ≡ cmd_none) ⊎ Named a command c)
unfolding handler_control run_command
handler_control_lem ngx i sb ub mem a z s command c law sorted distinct ok pool read ready fits =
    let named : (command ≡ cmd_none) ⊎ Named a command c = elim (Command-cases command) [
      | inl e ↦ inl e
      | inr h ↦ inr (parse-Named mem.copy a command c read h)
    ] in
    let word : command ≢ cmd_none → c.count < u64_mod =
      λ h. omega (arith, (parse-Named mem.copy a command c read h).count) in
    let (p, run, nodes, counted) =
      execute-nodes_after ngx i sb ub mem z.tree s law sorted distinct pool a command c ready
        word in
    let size = control_size-buffer_bytes i sb ub mem a z.tree s c command ready in
    let within : leb (length (answer_buf p.buf) + answer_spare i command)
          (buffer_bytes i a z.tree command)
        ≡ true =
      ground (arith, fits p run) in
    let ran : run_command ngx i a command c (buffer_bytes i a z.tree command) z s
        ≡ some (sent (answer_buf p.buf), (record z { tree = p.tree; locked = false }, p.stats)) =
      rw (run_command, run, within) refl in
    (
      p,
      run,
      rw (handler_control, ok.control, ok.zone, read, size, ok.body, ok.buffer) ran,
      nodes,
      counted,
      named,
    )
