-- ===== src/Prometheus/Whole.antt =====
-- The whole output in the format of Prometheus: `display_prometheus_set` of
-- ngx_metric_module/src/ngx_http_vhost_traffic_status_display_prometheus.c, in the build that
-- ngx_http_vhost_traffic_status_module.h fixes, `ADD_SUM_ALL 0`. The collectors of
-- ngx_metric_module/collector are parameters by what they write.
use metrics_server_example.Base.{
  ℕ, Bool, true, false, Option, none, some, List, [], ◌∷◌, ◌++◌, ltb, ◌==◌, if◌then◌else◌, length,
}
use metrics_server_example.Base.Words.{add64}
use metrics_server_example.Text.{Bytes}
use metrics_server_example.RbTree.{Tree}
use metrics_server_example.Json.{Stats, init_stats}
use metrics_server_example.Json.Whole.{Main}
use metrics_server_example.Prometheus.{
  Family, of_server, of_filter, of_upstream, fmt_start, Env, set_main,
}
use metrics_server_example.Prometheus.Trees.{set_server, set_filter, set_upstream}

-- The rest of a part that begins at `o` and whose entries begin at `s`: nothing of it stays where there
-- are no entries.
abbrev pub part : Bytes → Bytes → Bytes → Bytes
part o s buf = if length s == length buf then o else buf

-- A part of the output: its start and the entries that a function prints.
unfoldable pub set_part :
    Env
    → Family
    → (Tree → Bytes × Stats → Option (Tree × (Bytes × Stats)))
    → Tree
    → Bytes × Stats
    → Option (Tree × (Bytes × Stats))
set_part env f walk t (out, s) =
    let start = out ++ env.sprintf (fmt_start f) [] in
    elim (walk t (start, s)) [
      | none ↦ none
      | some (t', (buf, s')) ↦ some (t', (part out start buf, s'))
    ]

-- A collector: whether the configuration asks for it, whether there is memory for its buffer, and the
-- text that it writes there.
pub record Collector : Type 0 where
  pub enabled : Bool
  pub memory : Bool
  pub text : Bytes

-- The collectors one after the other, each in a buffer of `metrics_size` zeros that it fills without a
-- look at the size: a text that leaves no zero there is read or written behind the buffer. The
-- buffer then stands in the place of the format.
unfoldable pub collect : Env → List Collector → ℕ → Bytes → Option Bytes
collect env [] size out = some out
collect env (c ∷ cs) size out = elim c.enabled [
  | false ↦ collect env cs size out
  | true ↦ elim c.memory [
    | false ↦ none
    | true ↦ elim (ltb (length c.text) env.metrics_size) [
      | false ↦ none
      | true ↦ elim (ltb env.metrics_size (add64 size (length c.text))) [
        | true ↦ some out
        | false ↦ elim (env.as_format c.text) [
          | none ↦ none
          | some text ↦ collect env cs (add64 size (length c.text)) (out ++ text)
        ]
      ]
    ]
  ]
]

-- `display_prometheus_set`, from an empty output: the tree, the output and the sums.
unfoldable pub prometheus_set :
    Env → Main → List Collector → Tree × Stats → Option (Tree × (Bytes × Stats))
unfolding set_main set_server set_filter set_upstream set_part collect init_stats
prometheus_set env m cs (t, s) =
    elim (set_server env t (set_main env m ++ env.sprintf (fmt_start of_server) [], init_stats s)) [
      | none ↦ none
      | some (t₁, st₁) ↦ elim (set_part env of_filter (set_filter env) t₁ st₁) [
        | none ↦ none
        | some (t₂, st₂) ↦ elim (set_part env of_upstream (set_upstream env) t₂ st₂) [
          | none ↦ none
          | some (t₃, (out, s')) ↦ elim (collect env cs 0 out) [
            | none ↦ none
            | some out' ↦ some (t₃, (out', s'))
          ]
        ]
      ]
    ]
