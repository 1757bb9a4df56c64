-- ===== src/Histogram.antt =====
-- The histogram of a node: ngx_metric_module/src/ngx_http_vhost_traffic_status_node.c
-- (`node_histogram_*`) and its types in ngx_http_vhost_traffic_status_node.h.
pub mod Counts
use metrics_server_example.Base.{
  ℕ, zero, suc, ◌+◌, Option, none, some, List, [], ◌∷◌, leb, if◌then◌else◌, length, get_or, set,
}
use metrics_server_example.Base.Words.{add64}

-- `NGX_HTTP_VHOST_TRAFFIC_STATUS_DEFAULT_BUCKET_LEN`
abbrev pub bucket_len : ℕ
bucket_len = 32

-- `node_histogram_t`
pub record Bucket : Type 0 where
  pub msec : ℕ
  pub counter : ℕ

-- `node_histogram_bucket_t`: the array has `bucket_len` places, of which `len` are in use.
pub record Histogram : Type 0 where
  pub buckets : List Bucket
  pub len : ℕ

-- The loop of `bucket_init` from place `i` on.
unfoldable pub init_loop : List Bucket → ℕ → List ℕ → List Bucket
init_loop bs i [] = bs
init_loop bs i (m ∷ ms) = init_loop (set bs i (record { msec = m; counter = 0 })) (i + 1) ms

-- `node_histogram_bucket_init`: the bounds are those of the directive, `none` where there is none.
unfoldable pub init : Option (List ℕ) → Histogram → Histogram
unfolding init_loop
init none b = record b { len = 0 }
init (some bounds) b = record { buckets = init_loop b.buckets 0 bounds; len = length bounds }

abbrev zero_bucket : Bucket
zero_bucket = record { msec = 0; counter = 0 }

-- One round of the loop of `observe`.
unfoldable pub bump : ℕ → Bucket → Bucket
bump x b = if leb x b.msec then record b { counter = add64 b.counter 1 } else b

-- The loop of `observe` over the `n` places from `i` on.
unfoldable pub observe_loop : ℕ → ℕ → List Bucket → ℕ → List Bucket
unfolding bump
observe_loop zero i bs x = bs
observe_loop (suc n) i bs x = observe_loop n (i + 1) (set bs i (bump x (get_or bs i zero_bucket))) x

-- `node_histogram_observe`
unfoldable pub observe : Histogram → ℕ → Histogram
observe b x = record b { buckets = observe_loop b.len 0 b.buckets x }
