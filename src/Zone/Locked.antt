-- ===== src/Zone/Locked.antt =====
-- The mutex of the slab pool during `shm_add_node` of
-- ngx_metric_module/src/ngx_http_vhost_traffic_status_shm.c.
use metrics_server_example.Base.{ℕ, ◌≡◌, ◌≢◌, Bool, false, not, none, some, arith, length}
use metrics_server_example.Text.{Bytes, Status}
use metrics_server_example.Node.{Request, LocConf}
use metrics_server_example.RbTree.{Nginx}
use metrics_server_example.Filter.{MainConf}
use metrics_server_example.Zone.{Zone, Found, null, find_node, Memory, add_node}

-- The path that returns with the mutex held: the key has no node, the slab has no memory, and
-- neither has the pool for the message.
pub leaks_lock : Found → Memory → Bool
leaks_lock null mem = elim mem.slab [ none ↦ not mem.error_info | some _ ↦ false ]
leaks_lock _ mem = false

-- Whenever `shm_add_node` returns for a key that is not empty, from whatever state, the mutex is held
-- exactly if the key had no node, the slab gave no memory for a new one, and `ngx_pcalloc` none for the
-- message: that return forgets the unlocking.
pub locked-add_node :
    (ngx : Nginx) (main : MainConf) (conf : LocConf) (r : Request) (ms : ℕ) (mem : Memory)
    (z z' : Zone) (key : Bytes) (type : ℕ) (rc : Status)
    → length key ≢ 0
    → add_node ngx main conf r ms mem z key type ≡ some (rc, z')
    → z'.locked ≡ leaks_lock (find_node ngx z key type (ngx.crc32_short key)) mem
unfolding add_node leaks_lock
locked-add_node ngx main conf r ms mem z z' key type rc ne e = ground arith
