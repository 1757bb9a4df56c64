-- ===== src/Prometheus/Collected.antt =====
-- What `display_prometheus_set` of
-- ngx_metric_module/src/ngx_http_vhost_traffic_status_display_prometheus.c prints of the collectors.
use metrics_server_example.Base.{
  ℕ, ◌+◌, ◌*◌, ◌≡◌, ◌≤◌, ◌<◌, refl, ap, sym, ◌∙◌, inl, inr, true, false, some, List, [], ◌∷◌, ◌++◌,
  append_assoc, append-nil, arith, ltb, leb, if◌then◌else◌, length, length-append, All, Bool-cases,
}
use metrics_server_example.Base.Words.{u64_mod, add64}
use metrics_server_example.Text.{Bytes}
use metrics_server_example.Prometheus.{Env}
use metrics_server_example.Prometheus.Whole.{Collector, collect}

-- The texts of the collectors that are asked for.
unfoldable pub asked : List Collector → List Bytes
asked [] = []
asked (c ∷ cs) = if c.enabled then c.text ∷ asked cs else asked cs

-- The texts up to the first that does not fit any more.
unfoldable pub fitting : ℕ → ℕ → List Bytes → Bytes
fitting max size [] = []
fitting max size (x ∷ xs) =
    let rest = fitting max (size + length x) xs in
    if leb (size + length x) max then x ++ rest else []

-- A collector whose text fits its buffer and is no format.
pub record IsPlain (env : Env) (c : Collector) : Type 0 where
  pub memory : c.memory ≡ true
  pub short : length c.text < env.metrics_size
  pub plain : env.as_format c.text ≡ some c.text

pub length-fitting :
    (max size : ℕ) (xs : List Bytes) → size ≤ max → size + length (fitting max size xs) ≤ max
unfolding fitting
length-fitting max size [] h = omega (arith, h)
length-fitting max size (x ∷ xs) h = elim (Bool-cases (leb (size + length x) max)) [
  | inl e ↦ rw e (
      let small : size + length x ≤ max = ground (arith, e) in
      omega (
        arith,
        length-fitting max (size + length x) xs small,
        length-append x (fitting max (size + length x) xs),
      ))
  | inr e ↦ rw e (omega (arith, h))
]

-- Where the texts that are asked for fit their buffers and are no formats, exactly those are printed in
-- order up to the first with which all texts together are longer than `metrics_size`.
pub collect-fitting :
    (env : Env) (cs : List Collector) (size : ℕ) (out : Bytes)
    → env.metrics_size * 2 ≤ u64_mod
    → size ≤ env.metrics_size
    → All (λ c. c.enabled ≡ true → IsPlain env c) cs
    → collect env cs size out ≡ some (out ++ fitting env.metrics_size size (asked cs))
unfolding collect asked fitting
collect-fitting env [] size out word h plain = ap some (sym (append-nil out))
collect-fitting env (c ∷ cs) size out word h plain = elim (Bool-cases c.enabled) [
  | inr e ↦ rw (e, collect-fitting env cs size out word h plain.1) refl
  | inl e ↦
      let ok = plain.0 e in
      let short : ltb (length c.text) env.metrics_size ≡ true = ground (arith, ok.short) in
      let sum : add64 size (length c.text) ≡ size + length c.text =
        omega (arith, word, h, ok.short) in
      elim (Bool-cases (leb (size + length c.text) env.metrics_size)) [
        | inl fits ↦
            let more : ltb env.metrics_size (size + length c.text) ≡ false = ground (arith, fits) in
            let small : size + length c.text ≤ env.metrics_size = ground (arith, fits) in
            rw (e, ok.memory, short, sum, more, ok.plain, fits)
              (ap (λ k. collect env cs k (out ++ c.text)) sum
                ∙ collect-fitting env cs (size + length c.text) (out ++ c.text) word small plain.1
                ∙ ap some (
                    append_assoc out c.text
                      (fitting env.metrics_size (size + length c.text) (asked cs))))
        | inr over ↦
            let more : ltb env.metrics_size (size + length c.text) ≡ true = ground (arith, over) in
            rw (e, ok.memory, short, sum, more, over) (ap some (sym (append-nil out)))
      ]
]
