-- ===== src/Node/Member/Table.antt =====
-- `node_member` of ngx_metric_module/src/ngx_http_vhost_traffic_status_node.c against a table of
-- names.
use metrics_server_example.Base.{
  ℕ, ◌<◌, ◌≡◌, refl, Bool, true, false, ◌&&◌, List, [], ◌∷◌, ◌==◌, arith, if◌then◌else◌, All,
}
use metrics_server_example.Text.{Bytes, strncmp_eq}
use metrics_server_example.Node.{Node, Counters}
use metrics_server_example.Node.Member.{
  member_eq, node_member, request_name, in_name, out_name, class_name,
}

abbrev same_bytes : Bytes → Bytes → Bool
same_bytes [] [] = true
same_bytes [] (b ∷ bs) = false
same_bytes (a ∷ as') [] = false
same_bytes (a ∷ as') (b ∷ bs) = a == b && same_bytes as' bs

-- On a C string the comparison of the source is that of the bytes.
member_eq-same_bytes :
    (member name : Bytes) → All (λ b. 0 < b) name → member_eq member name ≡ same_bytes member name
unfolding member_eq strncmp_eq
member_eq-same_bytes [] [] h = refl
member_eq-same_bytes [] (b ∷ bs) h = ground arith
member_eq-same_bytes (a ∷ as') [] h = ground arith
member_eq-same_bytes (a ∷ as') (b ∷ bs) h = ground (arith, h.0, member_eq-same_bytes as' bs h.1)

-- The names that a limit or a directive can read, with their counters.
unfoldable pub table : List (Bytes × (Counters → ℕ))
table =
    (request_name, λ (c : Counters). c.request_counter)
    ∷ (in_name, λ (c : Counters). c.in_bytes)
    ∷ (out_name, λ (c : Counters). c.out_bytes)
    ∷ (class_name b'1', λ (c : Counters). c.counter_1xx)
    ∷ (class_name b'2', λ (c : Counters). c.counter_2xx)
    ∷ (class_name b'3', λ (c : Counters). c.counter_3xx)
    ∷ (class_name b'4', λ (c : Counters). c.counter_4xx)
    ∷ (class_name b'5', λ (c : Counters). c.counter_5xx)
    ∷ []

-- The counter of a name, 0 where the table has no such name.
unfoldable pub read_table : List (Bytes × (Counters → ℕ)) → Bytes → Counters → ℕ
read_table [] member c = 0
read_table (e ∷ es) member c = if same_bytes member e.0 then e.1 c else read_table es member c

-- `node_member` reads the counter whose name has exactly the bytes of the text, and is 0 for every
-- other text.
pub node_member_lem :
    (v : Node) (member : Bytes) → node_member v member ≡ read_table table member v.stat
unfolding node_member read_table table
node_member_lem v member =
    rw
      (
        member_eq-same_bytes member request_name (omega arith),
        member_eq-same_bytes member in_name (omega arith),
        member_eq-same_bytes member out_name (omega arith),
        member_eq-same_bytes member (class_name b'1') (omega arith),
        member_eq-same_bytes member (class_name b'2') (omega arith),
        member_eq-same_bytes member (class_name b'3') (omega arith),
        member_eq-same_bytes member (class_name b'4') (omega arith),
        member_eq-same_bytes member (class_name b'5') (omega arith),
      )
      refl
