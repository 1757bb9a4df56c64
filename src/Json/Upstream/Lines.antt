-- ===== src/Json/Upstream/Lines.antt =====
-- The lines of upstream servers that `display_set_upstream_node` and `display_set_upstream_alone` of
-- ngx_metric_module/src/ngx_http_vhost_traffic_status_display_json.c print.
use metrics_server_example.Base.{
  ℕ, ◌≡◌, refl, ap, sym, ◌∙◌, inl, inr, true, Option, none, some, List, [], ◌∷◌, ◌++◌, ◌==◌, ==→eq,
  length, take-append, replicate, ◌-◌, ◌*◌, All, All-split, Bool-cases,
}
use metrics_server_example.Text.{Bytes, escape_json, escape_json_pool}
use metrics_server_example.Text.Pool.{has_printable, escape_json_pool-measures}
use metrics_server_example.Node.{Node}
use metrics_server_example.RbTree.{RbNode, Tree, sentinel, fork, inorder, name}
use metrics_server_example.Zone.{update_at}
use metrics_server_example.SetFilter.Upstream.{ServerConf}
use metrics_server_example.Display.{comma}
use metrics_server_example.Display.Texts.{IsPrinting}
use metrics_server_example.Json.{
  fmt_upstream, Value, number, text, Env, counter_values, time_values,
}
use metrics_server_example.Json.Line.{all_memory, IsPrintable, time_line, time_values-time_line}
use metrics_server_example.Json.Upstream.{
  str_value, conf_values, null_values, node_values, set_upstream_node,
}

-- The surroundings print, have memory, and end each line of a server with a comma.
pub record IsReady (env : Env) (body : List Value → Bytes) : Type 0 where
  pub law : IsPrinting env.print
  pub memory : (a : ℕ) → env.memory a ≡ all_memory
  pub response_memory : (a : ℕ) → env.response_memory a ≡ all_memory
  pub escape_memory : (s : Bytes) → env.escape_memory s ≡ true
  pub key_memory : (s : Bytes) → env.key_memory s ≡ true
  pub ends : (vs : List Value) → env.sprintf fmt_upstream vs ≡ body vs ++ comma ∷ []

-- A node whose queues and histograms can be printed.
pub record IsShown (m : RbNode) : Type 0 where
  pub request : IsPrintable m.vtsn.request_times m.vtsn.request_buckets
  pub response : IsPrintable m.vtsn.upstream.response_times m.vtsn.upstream.response_buckets

-- What is printed of a server behind its name: its node, or zeros, and its configuration.
unfoldable pub upstream_values : Env → ServerConf → Option RbNode → List Value
unfolding null_values counter_values time_line conf_values
upstream_values env us none = null_values us
upstream_values env us (some m) =
    let v = m.vtsn in
    counter_values v.stat
    ++ time_line env v.request_times v.request_buckets
    ++ (number v.upstream.response_time_counter
        ∷ time_line env v.upstream.response_times v.upstream.response_buckets)
    ++ conf_values us
    ++ counter_values v.stat_oc
    ++ number v.response_time_counter_oc ∷ []

-- All that is printed of a server.
unfoldable pub upstream_line : Env → Bytes → ServerConf → Option RbNode → List Value
unfolding upstream_values
upstream_line env name us m = text (escape_json name) ∷ upstream_values env us m

-- The escaped text of a name that is not made of control characters only.
pub str_value-escape_json :
    (src : Bytes)
    → has_printable src ≡ true
    → str_value (escape_json_pool true src).1 ≡ some (text (escape_json src))
unfolding str_value escape_json_pool escape_json
str_value-escape_json src h =
    let spare : Bytes = replicate (length src * 6 - length (escape_json src)) 0 in
    let whole : (escape_json_pool true src).1.memory ≡ escape_json src ++ spare =
      unfold escape_json_pool in refl in
    let measured : (escape_json_pool true src).1.len ≡ some (length (escape_json src)) =
      escape_json_pool-measures src ∙ rw h refl in
    rw (measured, whole, take-append (escape_json src) spare) refl

node_values-upstream_values :
    (env : Env) (body : List Value → Bytes) (m : RbNode) (us : ServerConf)
    → IsReady env body
    → IsShown m
    → node_values env m us ≡ some (upstream_values env us (some m), m.vtsn)
unfolding upstream_values node_values
node_values-upstream_values env body m us ready shown =
    let q = m.vtsn.request_times in
    let b = m.vtsn.request_buckets in
    let q' = m.vtsn.upstream.response_times in
    let b' = m.vtsn.upstream.response_buckets in
    let request : time_values env (env.memory m.addr) q b ≡ some (time_line env q b, q) =
      rw (ready.memory m.addr) (time_values-time_line env q b ready.law shown.request) in
    let response : time_values env (env.response_memory m.addr) q' b'
        ≡ some (time_line env q' b', q') =
      rw (ready.response_memory m.addr)
        (time_values-time_line env q' b' ready.law shown.response) in
    rw (node_values, time_values, request, time_values, response) refl

-- With what is needed, a server is printed and its node left.
pub set_upstream_node-upstream_line :
    (env : Env) (body : List Value → Bytes) (s : Bytes) (us : ServerConf) (m : Option RbNode)
    → IsReady env body
    → has_printable s ≡ true
    → All IsShown (elim m [ none ↦ [] | some n ↦ n ∷ [] ])
    → set_upstream_node env s us m
      ≡ some (
        body (upstream_line env s us m) ++ comma ∷ [],
        elim m [ none ↦ none | some n ↦ some n.vtsn ],
      )
unfolding upstream_line upstream_values set_upstream_node
set_upstream_node-upstream_line env body s us none ready h shown =
    let key : str_value (escape_json_pool (env.escape_memory s) s).1 ≡ some (text (escape_json s)) =
      rw (ready.escape_memory s) (str_value-escape_json s h) in
    rw (set_upstream_node, str_value, key, ready.ends (upstream_line env s us none)) refl
set_upstream_node-upstream_line env body s us (some n) ready h shown =
    let key : str_value (escape_json_pool (env.escape_memory s) s).1 ≡ some (text (escape_json s)) =
      rw (ready.escape_memory s) (str_value-escape_json s h) in
    rw
      (
        set_upstream_node,
        str_value,
        key,
        node_values-upstream_values env body n us ready shown.0,
        ready.ends (upstream_line env s us (some n)),
      )
      refl

-- A write of what is there.
pub update_at-same :
    (m : RbNode) (t : Tree)
    → All (λ x. x.addr ≡ m.addr → x ≡ m) (inorder t)
    → update_at m.addr m.vtsn t ≡ t
unfolding update_at inorder
update_at-same m sentinel h = refl
update_at-same m (fork l x r) h =
    let (left, here) = All-split (λ y. y.addr ≡ m.addr → y ≡ m) (inorder l) (x ∷ inorder r) h in
    rw (update_at-same m l left, update_at-same m r here.1)
      (elim (Bool-cases (x.addr == m.addr)) [
        | inl e ↦ rw e (
            let same : x ≡ m = here.0 (==→eq x.addr m.addr e) in
            ap (λ (v : Node). fork l (record x { vtsn = v }) r)
              (ap (λ (y : RbNode). y.vtsn) (sym same)))
        | inr e ↦ rw e refl
      ])
