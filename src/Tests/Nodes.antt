-- ===== src/Tests/Nodes.antt =====
-- The statistics of one node.
use metrics_server_example.Base.{◌-◌, ◌^◌, ◌≡◌, arith, some, [], ◌∷◌, All, length, replicate}
use metrics_server_example.TimeQueue
use metrics_server_example.TimeQueue.{TimeQueue, zero_time, weighted}
use metrics_server_example.Histogram.{Histogram, bucket_len}
use metrics_server_example.Node
use metrics_server_example.Node.{Counters, zero_counters, Node, Request, LocConf}
use metrics_server_example.Node.Totals.{totals, charge, FitsWord}
use metrics_server_example.Node.Init.{set_all, charges, Countable, class_total, set_all-init}

abbrev pub test_conf : LocConf
test_conf = record {
  average_method = weighted;
  average_period = 60000;
  histogram_buckets = some (10 ∷ 50 ∷ []);
}

abbrev full : TimeQueue
full = TimeQueue.init (record { times = []; front = 0; rear = 0; len = 0 })

abbrev blank : Histogram
blank = record { buckets = replicate bucket_len (record { msec = 0; counter = 0 }); len = 0 }

-- A node one byte short of the wrap of `stat_in_bytes`.
abbrev pub test_memory : Node
test_memory = record {
  stat = record zero_counters { in_bytes = 2 ^ 64 - 1 };
  request_time = 0;
  request_times = full;
  request_buckets = blank;
  stat_oc = zero_counters;
  response_time_counter_oc = 0;
  upstream = record {
    type = 4;
    response_time_counter = 0;
    response_time = 0;
    response_times = full;
    response_buckets = blank;
  };
  len = 1;
  name = b'a' ∷ [];
}

abbrev pub test_request : Request
test_request = record { status = 404; request_length = 100; sent = 7; ms = 30; now = 1000 }

abbrev later : Request
later = record { status = 200; request_length = 5; sent = 8; ms = 60; now = 1100 }

test_request-FitsWord : FitsWord test_request
test_request-FitsWord = omega arith

both-FitsWord : All FitsWord (test_request ∷ later ∷ [])
both-FitsWord = omega arith

both-Countable : Countable (charges (test_request ∷ later ∷ []))
unfolding charges charge
both-Countable = omega arith

set_all-init_example :
    (v' : Node) × (set_all test_conf (later ∷ []) (Node.init test_conf test_request test_memory)
      ≡ some v')
    × (totals v' ≡ charges (test_request ∷ later ∷ []))
    × (class_total (totals v') ≡ (totals v').request_counter)
    × ((totals v').request_counter ≡ length (test_request ∷ later ∷ []))
set_all-init_example =
    set_all-init test_conf test_request (later ∷ []) test_memory both-FitsWord both-Countable
