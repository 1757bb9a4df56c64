-- ===== src/Variables.antt =====
-- The variables `$vts_*`: `node_variable` of
-- ngx_metric_module/src/ngx_http_vhost_traffic_status_variables.c and the table of the variables, in the
-- build without statistics of caches. How nginx prints a number (`%uA` of `ngx_sprintf`) is a parameter.
pub mod Read
use metrics_server_example.Base.{
  ℕ, Bool, true, false, Option, none, some, List, [], ◌∷◌, ◌++◌, ◌==◌, if◌then◌else◌, length, set,
}
use metrics_server_example.Text.{Bytes, Status, ok, error}
use metrics_server_example.Group.{upstream_no}
use metrics_server_example.Key.{generate_key}
use metrics_server_example.Node.{Node}
use metrics_server_example.RbTree.{RbNode, Nginx}
use metrics_server_example.Zone.{Zone, Found, found, null, dangling, find_node}
use metrics_server_example.Limit.{Names, find_name}

-- `ngx_http_variable_value_t`; `text` is `data` with `len`.
pub record VariableValue : Type 0 where
  pub text : Bytes
  pub valid : Bool
  pub no_cacheable : Bool
  pub not_found : Bool

-- Whether the pool gives memory for the key and for the text of the value.
pub record Memory : Type 0 where
  pub key : Bool
  pub value : Bool

-- `stat_request_counter`, `stat_in_bytes` and so on, by the names of their variables.
unfoldable pub vars : List (Bytes × (Node → ℕ))
vars =
    (
      b'v' ∷ b't' ∷ b's' ∷ b'_' ∷ b'r' ∷ b'e' ∷ b'q' ∷ b'u' ∷ b'e' ∷ b's' ∷ b't' ∷ b'_' ∷ b'c'
          ∷ b'o' ∷ b'u' ∷ b'n' ∷ b't' ∷ b'e' ∷ b'r' ∷ [],
      λ (v : Node). v.stat.request_counter,
    )
    ∷ (
      b'v' ∷ b't' ∷ b's' ∷ b'_' ∷ b'i' ∷ b'n' ∷ b'_' ∷ b'b' ∷ b'y' ∷ b't' ∷ b'e' ∷ b's' ∷ [],
      λ (v : Node). v.stat.in_bytes,
    )
    ∷ (
      b'v' ∷ b't' ∷ b's' ∷ b'_' ∷ b'o' ∷ b'u' ∷ b't' ∷ b'_' ∷ b'b' ∷ b'y' ∷ b't' ∷ b'e' ∷ b's' ∷ [],
      λ (v : Node). v.stat.out_bytes,
    )
    ∷ (
      b'v' ∷ b't' ∷ b's' ∷ b'_' ∷ b'1' ∷ b'x' ∷ b'x' ∷ b'_' ∷ b'c' ∷ b'o' ∷ b'u' ∷ b'n' ∷ b't'
          ∷ b'e' ∷ b'r' ∷ [],
      λ (v : Node). v.stat.counter_1xx,
    )
    ∷ (
      b'v' ∷ b't' ∷ b's' ∷ b'_' ∷ b'2' ∷ b'x' ∷ b'x' ∷ b'_' ∷ b'c' ∷ b'o' ∷ b'u' ∷ b'n' ∷ b't'
          ∷ b'e' ∷ b'r' ∷ [],
      λ (v : Node). v.stat.counter_2xx,
    )
    ∷ (
      b'v' ∷ b't' ∷ b's' ∷ b'_' ∷ b'3' ∷ b'x' ∷ b'x' ∷ b'_' ∷ b'c' ∷ b'o' ∷ b'u' ∷ b'n' ∷ b't'
          ∷ b'e' ∷ b'r' ∷ [],
      λ (v : Node). v.stat.counter_3xx,
    )
    ∷ (
      b'v' ∷ b't' ∷ b's' ∷ b'_' ∷ b'4' ∷ b'x' ∷ b'x' ∷ b'_' ∷ b'c' ∷ b'o' ∷ b'u' ∷ b'n' ∷ b't'
          ∷ b'e' ∷ b'r' ∷ [],
      λ (v : Node). v.stat.counter_4xx,
    )
    ∷ (
      b'v' ∷ b't' ∷ b's' ∷ b'_' ∷ b'5' ∷ b'x' ∷ b'x' ∷ b'_' ∷ b'c' ∷ b'o' ∷ b'u' ∷ b'n' ∷ b't'
          ∷ b'e' ∷ b'r' ∷ [],
      λ (v : Node). v.stat.counter_5xx,
    )
    ∷ (
      b'v' ∷ b't' ∷ b's' ∷ b'_' ∷ b'r' ∷ b'e' ∷ b'q' ∷ b'u' ∷ b'e' ∷ b's' ∷ b't' ∷ b'_' ∷ b't'
          ∷ b'i' ∷ b'm' ∷ b'e' ∷ b'_' ∷ b'c' ∷ b'o' ∷ b'u' ∷ b'n' ∷ b't' ∷ b'e' ∷ b'r' ∷ [],
      λ (v : Node). v.stat.request_time_counter,
    )
    ∷ (
      b'v' ∷ b't' ∷ b's' ∷ b'_' ∷ b'r' ∷ b'e' ∷ b'q' ∷ b'u' ∷ b'e' ∷ b's' ∷ b't' ∷ b'_' ∷ b't'
          ∷ b'i' ∷ b'm' ∷ b'e' ∷ [],
      λ (v : Node). v.request_time,
    )
    ∷ []

-- The value of a variable whose node was found.
unfoldable pub found_value : (ℕ → Bytes) → ℕ → VariableValue
found_value print n = record {
  text = print n;
  valid = true;
  no_cacheable = false;
  not_found = false;
}

-- `node_variable` at the node that `find_node` gave, under the mutex: the value, and the new entry of
-- `node_caches`.
unfoldable pub variable_of :
    (ℕ → Bytes) → Bool → (Node → ℕ) → VariableValue → Option RbNode → VariableValue × Option ℕ
unfolding found_value
variable_of print memory field v none = (record v { not_found = true }, none)
variable_of print memory field v (some m) = (
  if memory then found_value print (field m.vtsn) else record v { not_found = true },
  some m.addr,
)

-- The rest of `node_variable`, under the mutex, for the key that was generated.
unfoldable pub keyed_variable :
    Nginx
    → (ℕ → Bytes)
    → Bool
    → (Node → ℕ)
    → VariableValue
    → Zone
    → Bytes
    → Option (Status × VariableValue × Zone)
unfolding variable_of
keyed_variable ngx print memory field v z key =
    let finish : Option RbNode → Option (Status × VariableValue × Zone) = λ m.
      let r = variable_of print memory field v m in
      some
        (ok, r.0, record z { node_caches = set z.node_caches upstream_no r.1; locked = false }) in
    if length key == 0
    then some (error, v, z)
    else elim (find_node ngx (record z { locked = true }) key upstream_no 0) [
      | dangling ↦ none
      | null ↦ finish none
      | found m ↦ finish (some m)
    ]

-- `node_variable`; `field` is the counter at the offset of the variable.
unfoldable pub node_variable :
    Nginx
    → (ℕ → Bytes)
    → Names
    → Memory
    → (Node → ℕ)
    → VariableValue
    → Zone
    → Option (Status × VariableValue × Zone)
unfolding find_name generate_key keyed_variable
node_variable ngx print names memory field v z =
    let key = generate_key memory.key (find_name names) upstream_no in
    elim key.0 [
      | error ↦ some (error, v, z)
      | ok ↦ keyed_variable ngx print memory.value field v z key.1
    ]
