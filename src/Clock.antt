-- ===== src/Clock.antt =====
-- The clock functions of ngx_metric_module/src/ngx_http_vhost_traffic_status_module.c. They compute
-- on 64-bit patterns, as C does where `ngx_msec_t` meets a signed operand; a signed result is read
-- from its pattern.
pub mod Elapsed
use metrics_server_example.Base.{
  ℕ, ◌+◌, ◌*◌, ◌/◌, ◌%◌, ◌^◌, List, [], ◌∷◌, ltb, ◌==◌, if◌then◌else◌,
}
use metrics_server_example.Base.Words.{u64_mod, add64, sub64}

-- A second of the clock and the milliseconds past it: `ngx_time_t`, and the start of a request.
pub record Instant : Type 0 where
  pub sec : ℕ
  pub msec : ℕ

-- `ngx_max(ms, 0)` on the pattern of a signed word.
abbrev pub max_zero : ℕ → ℕ
max_zero ms = if ltb ms (2 ^ 63) then ms else 0

-- `current_msec`, from the two fields that `ngx_gettimeofday` fills.
unfoldable pub current_msec : ℕ → ℕ → ℕ
current_msec tv_sec tv_usec = add64 (tv_sec * 1000 % u64_mod) (tv_usec / 1000)

-- `request_time`: the time of the event loop, and the start of the request.
unfoldable pub request_time : Instant → Instant → ℕ
request_time tp start =
    max_zero (add64 (sub64 tp.sec start.sec * 1000 % u64_mod) (sub64 tp.msec start.msec))

-- `ngx_http_upstream_state_t`, its fields `status` and `response_time`.
pub record UpstreamState : Type 0 where
  pub status : ℕ
  pub response_time : ℕ

-- The loop of `upstream_response_time`.
unfoldable pub response_loop : ℕ → List UpstreamState → ℕ
response_loop ms [] = ms
response_loop ms (s ∷ ss) =
    response_loop (if s.status == 0 then ms else add64 ms s.response_time) ss

-- `upstream_response_time` (nginx 1.9.1 or later). The callers see to it that there is a state.
unfoldable pub upstream_response_time : List UpstreamState → ℕ
unfolding response_loop
upstream_response_time states = max_zero (response_loop 0 states)
