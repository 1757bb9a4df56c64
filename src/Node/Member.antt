-- ===== src/Node/Member.antt =====
-- The counters of a node by name: `node_member` and `node_member_cmp` of
-- ngx_metric_module/src/ngx_http_vhost_traffic_status_node.c.
pub mod Table
use metrics_server_example.Base.{ℕ, Bool, ◌&&◌, List, [], ◌∷◌, ◌==◌, if◌then◌else◌, length}
use metrics_server_example.Text.{Bytes, strncmp_eq}
use metrics_server_example.Node.{Node}

-- `node_member_cmp(member, name) == 0`; the name is a C string.
unfoldable pub member_eq : Bytes → Bytes → Bool
unfolding strncmp_eq
member_eq member name = length member == length name && strncmp_eq (length member) name member

abbrev pub request_name : Bytes
request_name = b'r' ∷ b'e' ∷ b'q' ∷ b'u' ∷ b'e' ∷ b's' ∷ b't' ∷ []

abbrev pub in_name : Bytes
in_name = b'i' ∷ b'n' ∷ []

abbrev pub out_name : Bytes
out_name = b'o' ∷ b'u' ∷ b't' ∷ []

-- The name of the counter of a class of responses, by its digit.
abbrev pub class_name : ℕ → Bytes
class_name digit = digit ∷ b'x' ∷ b'x' ∷ []

-- `node_member`
unfoldable pub node_member : Node → Bytes → ℕ
unfolding member_eq
node_member v member =
    if member_eq member request_name
    then v.stat.request_counter
    else (if member_eq member in_name
        then v.stat.in_bytes
        else (if member_eq member out_name
            then v.stat.out_bytes
            else (if member_eq member (class_name b'1')
                then v.stat.counter_1xx
                else (if member_eq member (class_name b'2')
                    then v.stat.counter_2xx
                    else (if member_eq member (class_name b'3')
                        then v.stat.counter_3xx
                        else (if member_eq member (class_name b'4')
                            then v.stat.counter_4xx
                            else (if member_eq member (class_name b'5')
                                then v.stat.counter_5xx
                                else 0)))))))
