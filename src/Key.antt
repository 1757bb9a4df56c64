-- ===== src/Key.antt =====
-- The keys of nodes: a group, a separator and a name, whose fields are separated too.
-- ngx_metric_module/src/ngx_http_vhost_traffic_status_node.c: `node_generate_key` and
-- `node_position_key`.
pub mod Fields
use metrics_server_example.Base.{
  ℕ, zero, suc, ◌+◌, ◌-◌, ◌*◌, Bool, true, false, ◌||◌, List, [], ◌∷◌, ◌++◌, ltb, ◌==◌,
  if◌then◌else◌, length, take, drop,
}
use metrics_server_example.Text.{Bytes, Status, ok, error}
use metrics_server_example.Group.{group_to_string}

-- `NGX_HTTP_VHOST_TRAFFIC_STATUS_KEY_SEPARATOR`
abbrev pub separator : ℕ
separator = 0x1f

-- `node_generate_key`: whether `ngx_pcalloc` gave memory, the name and the group. What it leaves in
-- `buf` stands beside the status.
unfoldable pub generate_key : Bool → Bytes → ℕ → Status × Bytes
unfolding group_to_string
generate_key false dst type = (error, dst)
generate_key true dst type = (ok, group_to_string type ++ separator ∷ dst)

-- Where the loop of `node_position_key` stops: the start `s` of a field as a place in the buffer,
-- the field's number `c` and its length `len`.
pub record Position : Type 0 where
  pub start : ℕ
  pub count : ℕ
  pub len : ℕ

-- The loop over the bytes from `p` on.
unfoldable pub position_loop : Bytes → ℕ → ℕ → ℕ → ℕ → ℕ → Position
position_loop [] pos s p c len = record { start = s; count = c; len = len }
position_loop (b ∷ rest) pos s p c len = elim (b == separator) [
  | true ↦ elim (pos == c) [
    | true ↦ record { start = s; count = c; len = len }
    | false ↦ position_loop rest pos (p + 1) (p + 1) (c + 1) (p + 1 - (p + 1))
  ]
  | false ↦ position_loop rest pos s (p + 1) c (p + 1 - s)
]

-- `node_position_key`: on an error `buf` stays as it is.
unfoldable pub position_key : Bytes → ℕ → Status × Bytes
unfolding position_loop
position_key buf pos =
    let r = position_loop buf pos 0 0 0 0 in
    if ltb r.count pos || r.len == 0 then (error, buf) else (ok, take r.len (drop r.start buf))
