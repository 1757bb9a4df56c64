-- ===== src/Clock/Elapsed.antt =====
-- The times of a request and of its upstreams, of
-- ngx_metric_module/src/ngx_http_vhost_traffic_status_module.c, as numbers of milliseconds.
use metrics_server_example.Base.{
  ℕ, ◌+◌, ◌-◌, ◌*◌, ◌^◌, ◌<◌, ◌≡◌, List, [], ◌∷◌, arith, ◌==◌, if◌then◌else◌,
}
use metrics_server_example.Base.Words.{u64_mod, add64}
use metrics_server_example.Clock.{
  Instant, request_time, UpstreamState, response_loop, upstream_response_time,
}

abbrev to_msec : Instant → ℕ
to_msec t = t.sec * 1000 + t.msec

-- The time of a request is the milliseconds from its start to now, and 0 if the clock went back, as
-- long as the seconds fit 48 bits and the milliseconds are below a second.
pub request_time_lem :
    (tp start : Instant)
    → tp.sec < 2 ^ 48
    → start.sec < 2 ^ 48
    → tp.msec < 1000
    → start.msec < 1000
    → request_time tp start ≡ tp.sec * 1000 + tp.msec - (start.sec * 1000 + start.msec)
unfolding request_time
request_time_lem tp start h1 h2 h3 h4 = ground arith

-- The response times of the upstreams that answered.
unfoldable pub answered : List UpstreamState → ℕ
answered [] = 0
answered (s ∷ ss) = (if s.status == 0 then 0 else s.response_time) + answered ss

response_loop-answered :
    (ms : ℕ) (ss : List UpstreamState)
    → ms + answered ss < u64_mod
    → response_loop ms ss ≡ ms + answered ss
unfolding response_loop answered
response_loop-answered ms [] h = omega arith
response_loop-answered ms (s ∷ ss) h =
    ground
      (arith, response_loop-answered ms ss, response_loop-answered (add64 ms s.response_time) ss)

-- The response time of a request is the sum over the upstreams with a status, if that sum fits the
-- signed word.
pub upstream_response_time_lem :
    (ss : List UpstreamState) → answered ss < 2 ^ 63 → upstream_response_time ss ≡ answered ss
unfolding upstream_response_time
upstream_response_time_lem ss h = ground (arith, response_loop-answered 0 ss)
