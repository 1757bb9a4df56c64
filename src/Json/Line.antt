-- ===== src/Json/Line.antt =====
-- What `display_set_server_node` of
-- ngx_metric_module/src/ngx_http_vhost_traffic_status_display_json.c prints of a node.
use metrics_server_example.Base.{
  ◌^◌, ◌≡◌, ◌≤◌, ◌<◌, refl, true, some, List, [], ◌∷◌, ◌++◌, map, length, take, All,
}
use metrics_server_example.Text.{Bytes}
use metrics_server_example.TimeQueue.{NodeTime, TimeQueue}
use metrics_server_example.TimeQueue.Window.{IsFull, contents}
use metrics_server_example.TimeQueue.Average.{mean, average-mean}
use metrics_server_example.Histogram.{Bucket, Histogram}
use metrics_server_example.Node.{Node}
use metrics_server_example.Display.Texts.{joined, IsPrinting, texts_lem}
use metrics_server_example.Json.{
  fmt_server, Value, number, text, Memory, Env, max_integer, counter_values, printed_text,
  all_values, time_values, set_server_node,
}

-- There is memory for every text.
abbrev pub all_memory : Memory
all_memory = record { times = true; msecs = true; bucket_msecs = true; bucket_counters = true }

-- A full queue and a histogram in its places, of numbers up to 19 digits.
pub record IsPrintable (q : TimeQueue) (b : Histogram) : Type 0 where
  pub full : IsFull q
  pub places : b.len ≤ length b.buckets
  pub times : All (λ e. e.time < 10 ^ 19) (contents q)
  pub msecs : All (λ e. e.msec < 10 ^ 19) (contents q)
  pub bounds : All (λ c. c.msec < 10 ^ 19) (take b.len b.buckets)
  pub counters : All (λ c. c.counter < 10 ^ 19) (take b.len b.buckets)

-- The average of the window, and the lists of its entries and of the buckets.
unfoldable pub time_line : Env → TimeQueue → Histogram → List Value
time_line env q b =
    number (mean env.average_method env.now env.average_period q)
    ∷ text (joined (map (λ (e : NodeTime). env.print e.time) (contents q)))
    ∷ text (joined (map (λ (e : NodeTime). env.print e.msec) (contents q)))
    ∷ text (joined (map (λ (c : Bucket). env.print c.msec) (take b.len b.buckets)))
    ∷ text (joined (map (λ (c : Bucket). env.print c.counter) (take b.len b.buckets)))
    ∷ []

pub time_values-time_line :
    (env : Env) (q : TimeQueue) (b : Histogram)
    → IsPrinting env.print
    → IsPrintable q b
    → time_values env all_memory q b ≡ some (time_line env q b, q)
unfolding time_values time_line all_values printed_text
time_values-time_line env q b law ok =
    let first =
      texts_lem env.print q b (λ e. e.time) (λ c. c.msec) law ok.full ok.places ok.times
        ok.bounds in
    let second =
      texts_lem env.print q b (λ e. e.msec) (λ c. c.counter) law ok.full ok.places ok.msecs
        ok.counters in
    rw
      (
        time_values,
        average-mean q env.average_method env.now env.average_period ok.full,
        first.0.1,
        second.0.1,
        first.1.1,
        second.1.1,
        first.0.2,
        second.0.2,
        first.1.2,
        second.1.2,
      )
      refl

-- All that is printed of a node under a name.
unfoldable pub server_values : Env → Bytes → Node → List Value
unfolding time_line counter_values
server_values env key v =
    text key
    ∷ (counter_values v.stat
        ++ time_line env v.request_times v.request_buckets
        ++ text max_integer ∷ counter_values v.stat_oc)

-- The line of a node under a name.
unfoldable pub server_line : Env → Bytes → Node → Bytes
unfolding server_values
server_line env key v = env.sprintf fmt_server (server_values env key v)

pub set_server_node-server_line :
    (env : Env) (key : Bytes) (v : Node)
    → IsPrinting env.print
    → IsPrintable v.request_times v.request_buckets
    → set_server_node env all_memory key v ≡ some (server_line env key v, v)
unfolding set_server_node server_line server_values
set_server_node-server_line env key v law ok =
    rw (set_server_node, time_values-time_line env v.request_times v.request_buckets law ok) refl
