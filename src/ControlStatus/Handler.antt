-- ===== src/ControlStatus/Handler.antt =====
-- The command of a request to the control interface and its answer: the second half of
-- `display_handler_control` of ngx_metric_module/src/ngx_http_vhost_traffic_status_display.c. How nginx
-- sends the answer is left out. `none` is a command that does not end, or a read or write that C leaves
-- undefined, such as an answer that is longer than its buffer.
use metrics_server_example.Base.{
  ℕ, ◌+◌, true, false, ◌&&◌, Option, none, some, List, [], ◌∷◌, leb, if◌then◌else◌, length,
}
use metrics_server_example.Text.{Bytes}
use metrics_server_example.RbTree.{Tree, Nginx}
use metrics_server_example.Zone.{Zone}
use metrics_server_example.Control.{Control, delete, reset}
use metrics_server_example.Json.{Value, text, number, Stats}
use metrics_server_example.Json.Upstream.{boolean_to_string}
use metrics_server_example.Page.{json, Sizes, get_size}
use metrics_server_example.ControlHandler.{
  Command, cmd_none, cmd_status, cmd_delete, cmd_reset, Args, Memory, Answer, server_error, header,
  sent, parse,
}
use metrics_server_example.ControlStatus.{Output, json_spare, Report, report, node_status}

-- What the control interface works on besides the shared memory: the output, the sizes, and `ngx_sprintf`
-- for `JSON_FMT_CONTROL`.
pub record Interface : Type 0 where
  pub output : Output
  pub sizes : Sizes
  pub fmt_control : List Value → Bytes

-- An argument, if the request has arguments and this one.
abbrev pub arg_text : Args → Option Bytes → Bytes
arg_text a t = elim t [ none ↦ [] | some b ↦ if a.present then b else [] ]

-- What `JSON_FMT_CONTROL` prints: whether the command is known, the arguments as they came, the count.
unfoldable pub control_values : ℕ → Args → ℕ → List Value
control_values known a count =
    text (boolean_to_string known)
    ∷ text (arg_text a a.cmd)
    ∷ text (arg_text a a.group)
    ∷ text (arg_text a a.zone)
    ∷ number count
    ∷ []

-- The `switch` over the command, under the mutex.
unfoldable pub execute : Nginx → Interface → Args → Command → Control → Tree → Stats → Option Report
unfolding node_status delete reset control_values
execute ngx i a cmd_status c t s = node_status ngx i.output c t s
execute ngx i a cmd_delete c t s = elim (delete ngx c i.output.pool t) [
  | none ↦ none
  | some (t', count) ↦ some (report t' s (i.fmt_control (control_values 1 a count)) count)
]
execute ngx i a cmd_reset c t s =
    let (t', count) = reset ngx c i.output.pool t in
    some (report t' s (i.fmt_control (control_values 1 a count)) count)
execute ngx i a cmd_none c t s =
    some (report t s (i.fmt_control (control_values 0 a c.count)) c.count)

-- The answer, or `{}` where nothing was printed.
unfoldable pub answer_buf : Bytes → Bytes
answer_buf [] = b'{' ∷ b'}' ∷ []
answer_buf (b ∷ bs) = b ∷ bs

-- The size of the buffer: that of the output for `status`, which needs memory for `shm_info`, else that of
-- `JSON_FMT_CONTROL` with its zero, of the arguments, and of a page.
unfoldable pub control_size : Interface → Memory → Args → Tree → Command → Option ℕ
unfolding get_size
control_size i mem a t cmd_status =
    get_size i.sizes i.output.conf mem.info i.output.upstreams t json
control_size i mem a t _ = some (
    135
    + length (arg_text a a.cmd)
    + length (arg_text a a.group)
    + length (arg_text a a.zone)
    + i.sizes.page)

-- At least the bytes that an answer takes back again while it is written.
unfoldable pub answer_spare : Interface → Command → ℕ
unfolding json_spare
answer_spare i cmd_status = json_spare i.output
answer_spare i _ = 0

-- The command in a buffer of the given size, which is written without a look at its end; the mutex
-- is given back.
unfoldable pub run_command :
    Nginx
    → Interface
    → Args
    → Command
    → Control
    → ℕ
    → Zone
    → Stats
    → Option (Answer × (Zone × Stats))
unfolding execute answer_buf answer_spare
run_command ngx i a command c size z s = elim (execute ngx i a command c z.tree s) [
  | none ↦ none
  | some p ↦ elim (leb (length (answer_buf p.buf) + answer_spare i command) size) [
    | false ↦ none
    | true ↦ some (sent (answer_buf p.buf), (record z { tree = p.tree; locked = false }, p.stats))
  ]
]

-- `display_handler_control`
unfoldable pub handler_control :
    Nginx → Interface → Memory → Args → Zone → Stats → Option (Answer × (Zone × Stats))
unfolding parse control_size run_command
handler_control ngx i mem a z s =
    if mem.control && mem.zone
    then elim (parse mem.copy a) [
      | none ↦ none
      | some (command, c) ↦ elim (control_size i mem a z.tree command) [
        | none ↦ some (server_error, (z, s))
        | some size ↦ elim mem.header_only [
          | true ↦ some (header, (z, s))
          | false ↦ elim mem.buffer [
            | false ↦ some (server_error, (z, s))
            | true ↦ run_command ngx i a command c size z s
          ]
        ]
      ]
    ]
    else some (server_error, (z, s))
