-- ===== src/Display.antt =====
-- The texts of a time queue and of a histogram, for the output:
-- ngx_metric_module/src/ngx_http_vhost_traffic_status_display.c. A text is the memory of a C string, the
-- empty one a zero alone. How nginx prints a number (`%M` and `%uA` of `ngx_sprintf`) is a parameter.
-- `none` is a write past the memory that was given, or a loop that does not end.
pub mod Texts
use metrics_server_example.Base.{
  ℕ, zero, suc, ◌+◌, ◌-◌, ◌*◌, ◌%◌, Bool, true, false, Option, none, some, List, [], ◌∷◌, ◌++◌, ltb,
  ◌==◌, if◌then◌else◌, length, get_or, set, replicate,
}
use metrics_server_example.Text.{Bytes}
use metrics_server_example.TimeQueue.{NodeTime, zero_time, TimeQueue}
use metrics_server_example.Histogram.{Bucket, Histogram}

-- `NGX_INT_T_LEN` on a 64-bit machine.
abbrev pub int_t_len : ℕ
int_t_len = 20

abbrev pub comma : ℕ
comma = b','

abbrev pub empty_text : Bytes
empty_text = 0 ∷ []

-- The bytes `s` at the start of zeroed memory, the last of them overwritten with a zero.
unfoldable pub text_in : ℕ → Bytes → Option Bytes
text_in size s =
    if ltb size (length s)
    then none
    else some
        ((if ltb 0 (length s) then set s (length s - 1) 0 else s) ++ replicate (size - length s) 0)

-- The loop of `display_get_time_queue`, on fuel: what it writes. `field` is the part of an entry at the
-- offset.
unfoldable pub time_queue_loop : (ℕ → Bytes) → ℕ → TimeQueue → (NodeTime → ℕ) → ℕ → Option Bytes
time_queue_loop number zero q field i = none
time_queue_loop number (suc f) q field i =
    let rest = time_queue_loop number f q field ((i + 1) % q.len) in
    if i == q.rear then some [] else elim rest [
      | none ↦ none
      | some s ↦ some (number (field (get_or q.times i zero_time)) ++ comma ∷ s)
    ]

-- `display_get_time_queue`, of which `_times` and `_msecs` are the two uses.
unfoldable pub get_time_queue : (ℕ → Bytes) → Bool → TimeQueue → (NodeTime → ℕ) → Option Bytes
unfolding time_queue_loop text_in
get_time_queue number memory q field = if q.front == q.rear then some empty_text else elim memory [
  | false ↦ some empty_text
  | true ↦ elim (time_queue_loop number (suc q.len) q field q.front) [
    | none ↦ none
    | some s ↦ text_in (q.len * int_t_len) s
  ]
]

abbrev pub no_bucket : Bucket
no_bucket = record { msec = 0; counter = 0 }

-- The loop of `display_get_histogram_bucket` over the `n` places from `i` on.
unfoldable pub histogram_loop : (ℕ → Bytes) → ℕ → List Bucket → (Bucket → ℕ) → ℕ → Bytes
histogram_loop number zero bs field i = []
histogram_loop number (suc n) bs field i =
    number (field (get_or bs i no_bucket)) ++ comma ∷ histogram_loop number n bs field (i + 1)

-- `display_get_histogram_bucket`, of which `_msecs` and `_counters` are the two uses.
unfoldable pub get_histogram_bucket : (ℕ → Bytes) → Bool → Histogram → (Bucket → ℕ) → Option Bytes
unfolding histogram_loop text_in
get_histogram_bucket number memory b field = if b.len == 0 then some empty_text else elim memory [
  | false ↦ some empty_text
  | true ↦ text_in (b.len * int_t_len) (histogram_loop number b.len b.buckets field 0)
]
