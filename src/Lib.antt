-- ===== src/Lib.antt =====
-- A verification library for the metric module of an nginx build: an nginx module, written in C, that
-- counts the requests of server zones, of upstream servers and of filters in shared memory.
--
-- A request, when it is logged, updates one node of statistics for each key that it belongs to. A key
-- is a group (server zone, upstream, filter) and a name. The nodes stand in a red-black tree in shared
-- memory, under the mutex of a slab pool; they are found by the CRC of the key, and by the key itself.
-- A node has counters with counters of their overflows, a ring of the times of the last requests, from
-- which an average is made, and a histogram. The number of nodes for filters can be limited: the node
-- whose last request is oldest gives way to a new one.
--
-- Files, and what they model of ngx_metric_module/src (the names there start with
-- ngx_http_vhost_traffic_status_):
--   Text       ngx_http_vhost_traffic_status_string.c: escape_json, escape_json_pool, copy_str,
--              replace_chrc, replace_strc
--   TimeQueue  ngx_http_vhost_traffic_status_node.c: node_time_queue_*
--   Histogram  ngx_http_vhost_traffic_status_node.c: node_histogram_*
--   Group      ngx_http_vhost_traffic_status_module.h: the groups and their names
--   Key        ngx_http_vhost_traffic_status_node.c: node_generate_key, node_position_key
--   Clock      ngx_http_vhost_traffic_status_module.c: current_msec, request_time,
--              upstream_response_time
--   Node       ngx_http_vhost_traffic_status_node.c: node_zero, node_init, node_set, and in Node/Member
--              node_member
--   RbTree     ngx_http_vhost_traffic_status_node.c: node_lookup;
--              ngx_http_vhost_traffic_status_module.c: rbtree_insert_value
--   Filter     ngx_http_vhost_traffic_status_filter.c: filter_max_node_match;
--              ngx_http_vhost_traffic_status_shm.c: shm_info;
--              ngx_http_vhost_traffic_status_node.c: find_lru and what it calls
--   Zone       ngx_http_vhost_traffic_status_shm.c: shm_add_node, shm_add_node_upstream;
--              ngx_http_vhost_traffic_status_node.c: find_node
--   Control    ngx_http_vhost_traffic_status_control.c: node_control_range_set, node_delete, node_reset
--              and what these call
--   Limit      ngx_http_vhost_traffic_status_limit.c: limit_handler, limit_handler_traffic;
--              ngx_http_vhost_traffic_status_node.c: find_name
--   RequestKeys, Handler
--              ngx_http_vhost_traffic_status_module.c: handler;
--              ngx_http_vhost_traffic_status_shm.c: shm_add_server, shm_add_upstream, shm_add_filter,
--              shm_add_filter_node
--   Dump       ngx_http_vhost_traffic_status_dump.c: dump_header_read, dump_header_write,
--              dump_node_write, dump_execute, dump_update_valid, dump_handler, dump_restore and
--              dump_restore_add_node
--   Unique     ngx_http_vhost_traffic_status_filter.c: filter_unique, filter_cmp_hashs;
--              ngx_http_vhost_traffic_status_limit.c: limit_traffic_unique, limit_cmp_hashs
--   FilterNodes
--              ngx_http_vhost_traffic_status_filter.c: filter_get_keys, filter_get_nodes
--   Variables  ngx_http_vhost_traffic_status_variables.c: node_variable and the table of variables
--   SetFilter  ngx_http_vhost_traffic_status_set.c: the directive set_by_filter at a request;
--              ngx_http_vhost_traffic_status_control.c: node_upstream_lookup
--   Display    ngx_http_vhost_traffic_status_display.c: display_get_time_queue,
--              display_get_histogram_bucket
--   ControlHandler
--              ngx_http_vhost_traffic_status_display.c: the arguments of display_handler_control
--   Json       ngx_http_vhost_traffic_status_display_json.c: display_set and what it calls: the
--              server zones, in Json/Upstream and Json/UpstreamGroup the upstreams, in Json/Filters the
--              filters, and in Json/Whole the output as a whole
--   ControlStatus
--              ngx_http_vhost_traffic_status_control.c: node_status, node_status_all,
--              node_status_group, node_status_zone;
--              ngx_http_vhost_traffic_status_display.c: in ControlStatus/Handler the commands and
--              the answers of display_handler_control
--   Prometheus ngx_http_vhost_traffic_status_display_prometheus.c: display_prometheus_set and what it
--              calls
--   Page       ngx_http_vhost_traffic_status_display.c: display_handler, display_handler_default,
--              display_get_size, display_get_upstream_nelts
--   Base       what the files share: library names, tests, lists, 64-bit words
--   Tests      the runs of theorems at concrete values, and a concrete nginx core for them
--
-- A C function becomes a function of the state that it reads and changes. Numbers are natural numbers,
-- with the wrap of a 64-bit word written out where C has one (`add64`, `sub64`); the signed sums of the
-- averages and of the merge are such words in two's complement. What the surroundings
-- answer (allocators, the clock, the response) is an argument. nginx's tree code (rebalancing and
-- deletion), its comparison of texts and its CRC are the record `RbTree.Nginx`, and what the theorems
-- need of them is the record `RbTree.IsLawful`. `none` as a result of a state change is behaviour that
-- C leaves undefined, or a loop that does not end within its fuel.
--
-- The rest of the surroundings are parameters too: nginx's sort of arrays (`Unique.Core`), the layout of
-- a structure in memory and the files of the operating system (`Dump.Layout`, `Dump.Files`), the slab
-- and the tree that a restoration fills (`Dump.Core`), `ngx_sprintf`, and what the collectors of system
-- statistics write (`Prometheus.Whole.Collector`).
--
-- A page or a command reads the tree under the mutex: `Page` chooses between the outputs of `Json` and
-- `Prometheus`, and `ControlStatus` prints parts of that of `Json`, whose members it shares.
--
-- An output is written without a look at the end of its buffer, and the key of a member of a group into
-- a buffer of fixed size: what does not fit is `none`. An output is also refused there where it would fit,
-- but not together with all names of parts and heads of arrays that it may take back while it is
-- written (`Page.Handler.spare`, `ControlStatus.Handler.answer_spare`).
--
-- Bounds and fuel: the loops of the averages, of the merge and of the texts of a ring run on the length
-- of the ring plus one as fuel (a full ring, `TimeQueue.Window.IsFull`, has 63 entries in 64 places),
-- the loop of `node_delete_all` on the number of nodes plus one, the search for a format on the
-- length of the request's text plus one, the loop of `dump_restore` on the length
-- of the file plus one, since each round moves on in the file, and the loop of `replace_strc` on the
-- length of the memory plus one. All other loops are structural.
--
-- Not modelled: the parsing of directives and the life of processes, which are calls of the nginx core,
-- the statistics of caches, which `CACHE_STATS 0` in the module's header compiles out, and
-- the collectors of system statistics, which read files and call the system.
pub mod Base
pub mod Text
pub mod TimeQueue
pub mod Histogram
pub mod Group
pub mod Key
pub mod Clock
pub mod Node
pub mod RbTree
pub mod Dump
pub mod Filter
pub mod Unique
pub mod FilterNodes
pub mod Variables
pub mod SetFilter
pub mod Zone
pub mod Control
pub mod Limit
pub mod RequestKeys
pub mod Handler
pub mod Tests
pub mod Display
pub mod ControlHandler
pub mod Json
pub mod ControlStatus
pub mod Prometheus
pub mod Page
