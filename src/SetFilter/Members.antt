-- ===== src/SetFilter/Members.antt =====
-- The members that the directive set_by_filter reads: `set_by_filter_node_member` of
-- ngx_metric_module/src/ngx_http_vhost_traffic_status_set.c.
use metrics_server_example.Base.{
  ℕ, Bool, ◌||◌, Option, none, some, List, [], ◌∷◌, ◌==◌, if◌then◌else◌,
}
use metrics_server_example.Text.{Bytes}
use metrics_server_example.Group.{upstream_ua, upstream_ug}
use metrics_server_example.Node.{Node}
use metrics_server_example.Node.Member.{member_eq}
use metrics_server_example.SetFilter.Upstream.{ServerConf}

-- The members of every node, in the order of the tests of `set_by_filter_node_member`.
unfoldable pub members : List (Bytes × (Node → ℕ))
members =
    (
      b'r' ∷ b'e' ∷ b'q' ∷ b'u' ∷ b'e' ∷ b's' ∷ b't' ∷ b'C' ∷ b'o' ∷ b'u' ∷ b'n' ∷ b't' ∷ b'e'
          ∷ b'r' ∷ [],
      λ (v : Node). v.stat.request_counter,
    )
    ∷ (
      b'r' ∷ b'e' ∷ b'q' ∷ b'u' ∷ b'e' ∷ b's' ∷ b't' ∷ b'M' ∷ b's' ∷ b'e' ∷ b'c' ∷ b'C' ∷ b'o'
          ∷ b'u' ∷ b'n' ∷ b't' ∷ b'e' ∷ b'r' ∷ [],
      λ (v : Node). v.stat.request_time_counter,
    )
    ∷ (
      b'r' ∷ b'e' ∷ b'q' ∷ b'u' ∷ b'e' ∷ b's' ∷ b't' ∷ b'M' ∷ b's' ∷ b'e' ∷ b'c' ∷ [],
      λ (v : Node). v.request_time,
    )
    ∷ (
      b'r' ∷ b'e' ∷ b's' ∷ b'p' ∷ b'o' ∷ b'n' ∷ b's' ∷ b'e' ∷ b'M' ∷ b's' ∷ b'e' ∷ b'c' ∷ b'C'
          ∷ b'o' ∷ b'u' ∷ b'n' ∷ b't' ∷ b'e' ∷ b'r' ∷ [],
      λ (v : Node). v.upstream.response_time_counter,
    )
    ∷ (
      b'r' ∷ b'e' ∷ b's' ∷ b'p' ∷ b'o' ∷ b'n' ∷ b's' ∷ b'e' ∷ b'M' ∷ b's' ∷ b'e' ∷ b'c' ∷ [],
      λ (v : Node). v.upstream.response_time,
    )
    ∷ (b'i' ∷ b'n' ∷ b'B' ∷ b'y' ∷ b't' ∷ b'e' ∷ b's' ∷ [], λ (v : Node). v.stat.in_bytes)
    ∷ (b'o' ∷ b'u' ∷ b't' ∷ b'B' ∷ b'y' ∷ b't' ∷ b'e' ∷ b's' ∷ [], λ (v : Node). v.stat.out_bytes)
    ∷ (b'1' ∷ b'x' ∷ b'x' ∷ [], λ (v : Node). v.stat.counter_1xx)
    ∷ (b'2' ∷ b'x' ∷ b'x' ∷ [], λ (v : Node). v.stat.counter_2xx)
    ∷ (b'3' ∷ b'x' ∷ b'x' ∷ [], λ (v : Node). v.stat.counter_3xx)
    ∷ (b'4' ∷ b'x' ∷ b'x' ∷ [], λ (v : Node). v.stat.counter_4xx)
    ∷ (b'5' ∷ b'x' ∷ b'x' ∷ [], λ (v : Node). v.stat.counter_5xx)
    ∷ []

-- The members of an upstream server.
unfoldable pub server_members : List (Bytes × (ServerConf → ℕ))
server_members =
    (b'w' ∷ b'e' ∷ b'i' ∷ b'g' ∷ b'h' ∷ b't' ∷ [], λ (u : ServerConf). u.weight)
    ∷ (b'm' ∷ b'a' ∷ b'x' ∷ b'F' ∷ b'a' ∷ b'i' ∷ b'l' ∷ b's' ∷ [], λ (u : ServerConf). u.max_fails)
    ∷ (
      b'f' ∷ b'a' ∷ b'i' ∷ b'l' ∷ b'T' ∷ b'i' ∷ b'm' ∷ b'e' ∷ b'o' ∷ b'u' ∷ b't' ∷ [],
      λ (u : ServerConf). u.fail_timeout,
    )
    ∷ (b'b' ∷ b'a' ∷ b'c' ∷ b'k' ∷ b'u' ∷ b'p' ∷ [], λ (u : ServerConf). u.backup)
    ∷ (b'd' ∷ b'o' ∷ b'w' ∷ b'n' ∷ [], λ (u : ServerConf). u.down)
    ∷ []

-- One test after another; `none` where no name agrees.
unfoldable pub first_member {ℓ} : {A : Type ℓ} → List (Bytes × (A → ℕ)) → Bytes → A → Option ℕ
unfolding member_eq
first_member [] member a = none
first_member (e ∷ es) member a =
    let rest = first_member es member a in if member_eq member e.0 then some (e.1 a) else rest

abbrev pub is_upstream : ℕ → Bool
is_upstream group = group == upstream_ua || group == upstream_ug

-- `set_by_filter_node_member`
unfoldable pub filter_node_member : ℕ → Bytes → Node → ServerConf → ℕ
unfolding first_member members server_members
filter_node_member group member v us = elim (first_member members member v) [
  | some n ↦ n
  | none ↦
      if is_upstream group
      then (elim (first_member server_members member us) [ some n ↦ n | none ↦ 0 ])
      else 0
]
