-- ===== src/Tests/Displays.antt =====
-- The output.
use mathlib.Core.Path.{subst}
use metrics_server_example.Base.{
  ℕ, zero, suc, ◌+◌, ◌%◌, ◌^◌, ◌≡◌, ◌<◌, refl, sym, arith, true, some, [], ◌∷◌, map, take,
  replicate, All,
}
use metrics_server_example.Text.{Bytes}
use metrics_server_example.Group.{c_string}
use metrics_server_example.Key.{separator}
use metrics_server_example.TimeQueue.{NodeTime, zero_time, TimeQueue, arithmetic, init}
use metrics_server_example.TimeQueue.Window.{contents, init-IsFull, contents-init}
use metrics_server_example.Histogram.{Bucket, Histogram}
use metrics_server_example.Node.{Node, zero_counters}
use metrics_server_example.Node.Totals.{Below}
use metrics_server_example.RbTree.{RbNode, Tree, sentinel, fork, inorder}
use metrics_server_example.Filter.Walk.{preorder}
use metrics_server_example.Zone.Update.{Distinct}
use metrics_server_example.RbTree.Order.{Sorted}
use metrics_server_example.Control.Selected.{chosen}
use metrics_server_example.Display.{get_time_queue, get_histogram_bucket}
use metrics_server_example.Display.Texts.{joined, IsPrinting, texts_lem}
use metrics_server_example.Json.{Env, Stats}
use metrics_server_example.Json.Line.{all_memory}
use metrics_server_example.Json.Sum.{stats_totals, two_words, sums}
use metrics_server_example.Json.Servers.{is_server, IsShown}
use metrics_server_example.Tests.Instances.{test_nginx}
use metrics_server_example.Tests.Nodes.{test_memory}

-- The last digit of a number.
abbrev pub digit : ℕ → Bytes
digit n = (48 + n % 10) ∷ []

pub digit-IsPrinting : IsPrinting digit
digit-IsPrinting = record { short = λ n h. omega arith; nonzero = λ n. omega arith }

abbrev pub nothing : TimeQueue
nothing = record { times = []; front = 0; rear = 0; len = 0 }

abbrev pub queue : TimeQueue
queue = init nothing

zeros-small :
    (n : ℕ)
    → All (λ (e : NodeTime). e.time < 10 ^ 19) (replicate n zero_time)
      × All (λ (e : NodeTime). e.msec < 10 ^ 19) (replicate n zero_time)
zeros-small zero = (tt, tt)
zeros-small (suc n) = let (a, b) = zeros-small n in ((omega arith, a), (omega arith, b))

pub queue-small :
    All (λ (e : NodeTime). e.time < 10 ^ 19) (contents queue)
    × All (λ (e : NodeTime). e.msec < 10 ^ 19) (contents queue)
queue-small =
    subst
      (λ es.
        All (λ (e : NodeTime). e.time < 10 ^ 19) es × All (λ (e : NodeTime). e.msec < 10 ^ 19) es)
      (sym (contents-init nothing)) (zeros-small 63)

abbrev pub buckets : Histogram
buckets = record {
  buckets = record { msec = 10; counter = 3 } ∷ record { msec = 50; counter = 7 } ∷ [];
  len = 2;
}

texts_lem_example :
    ((m : Bytes) × (get_time_queue digit true queue (λ (e : NodeTime). e.msec) ≡ some m)
      × (c_string m ≡ joined (map (λ (e : NodeTime). digit e.msec) (contents queue))))
    × ((m : Bytes) × (get_histogram_bucket digit true buckets (λ (c : Bucket). c.counter) ≡ some m)
        × (c_string m
            ≡ joined (map (λ (c : Bucket). digit c.counter) (take buckets.len buckets.buckets))))
texts_lem_example =
    texts_lem digit queue buckets (λ e. e.msec) (λ c. c.counter) digit-IsPrinting
      (init-IsFull nothing) (omega arith) queue-small.1 (omega arith)

-- A tree of a filter and, below it, a server zone whose received bytes are about to wrap.
abbrev pub server_name : Bytes
server_name = b'N' ∷ b'O' ∷ separator ∷ b'a' ∷ []

abbrev pub server_vtsn : Node
server_vtsn = record test_memory {
  upstream = record (test_memory.upstream) { type = 0 };
  request_buckets = buckets;
  len = 4;
  name = server_name;
}

abbrev pub filter_node : RbNode
filter_node = record {
  addr = 40;
  key = 4;
  vtsn = record test_memory {
    len = 6;
    name = b'F' ∷ b'G' ∷ separator ∷ b'f' ∷ separator ∷ b'z' ∷ [];
  };
}

abbrev pub server_node : RbNode
server_node = record { addr = 30; key = 1; vtsn = server_vtsn }

abbrev pub tree : Tree
tree = fork (fork sentinel server_node sentinel) filter_node sentinel

abbrev pub env : Env
env = record {
  sprintf = λ f vs. b'{' ∷ b'}' ∷ b',' ∷ [];
  print = digit;
  average_method = arithmetic;
  average_period = 0;
  now = 1000;
  memory = λ a. all_memory;
  response_memory = λ a. all_memory;
  escape_memory = λ s. true;
  key_memory = λ s. true;
}

abbrev pub stats : Stats
stats = record {
  stat = record zero_counters { in_bytes = 5 };
  stat_oc = zero_counters;
  request_times = queue;
}

pub tree-IsShown : All IsShown (chosen is_server (preorder tree))
unfolding chosen is_server preorder
tree-IsShown = (
  record {
    printable = record {
      full = init-IsFull nothing;
      places = omega arith;
      times = queue-small.0;
      msecs = queue-small.1;
      bounds = omega arith;
      counters = omega arith;
    };
    words = record { stat = omega arith; stat_oc = omega arith };
  },
  tt,
)

pub tree-Below : Below two_words (sums (chosen is_server (preorder tree)) (stats_totals stats))
unfolding chosen is_server preorder sums
tree-Below = omega arith

pub tree-Sorted : Sorted test_nginx (inorder tree)
unfolding inorder
tree-Sorted = ((refl, tt), (tt, tt))

pub tree-Distinct : Distinct (inorder tree)
unfolding inorder
tree-Distinct = ((omega arith, tt), (tt, tt))
