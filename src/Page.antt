-- ===== src/Page.antt =====
-- The pages: `display_handler`, `display_handler_default`, `display_get_size` and
-- `display_get_upstream_nelts` of ngx_metric_module/src/ngx_http_vhost_traffic_status_display.c. The
-- text of the request lies in memory without a zero of its own behind it. How nginx sends an answer is
-- left out, and the size of a node and of the page in HTML are parameters. `none` is behaviour that C
-- leaves undefined, or a loop that does not end.
pub mod Places
pub mod Formats
pub mod Size
pub mod Handler
pub mod Served
use metrics_server_example.Base.{
  ℕ, zero, suc, ◌+◌, ◌-◌, ◌*◌, ◌^◌, ◌%◌, ◌/◌, Bool, true, false, ◌&&◌, ◌||◌, not, Option, none,
  some, List, [], ◌∷◌, ◌++◌, map, ltb, leb, ◌==◌, if◌then◌else◌, length, take, drop,
}
use metrics_server_example.Base.Words.{add64, sub64}
use metrics_server_example.Text.{Bytes, strncmp_eq}
use metrics_server_example.RequestKeys.{strncasecmp_eq}
use metrics_server_example.SetFilter.Argument.{strchr}
use metrics_server_example.RbTree.{Tree}
use metrics_server_example.Filter.{MainConf, shm_info}
use metrics_server_example.Json.Upstream.{UpstreamServer, UpstreamSrvConf}

-- `FORMAT_*`; `FORMAT_NONE` is the absence of one.
pub data PageFormat : Type 0 where
  json html jsonp prometheus : PageFormat

abbrev pub format_text : Bytes
format_text = b'/' ∷ b'f' ∷ b'o' ∷ b'r' ∷ b'm' ∷ b'a' ∷ b't' ∷ b'/' ∷ []

abbrev pub control_text : Bytes
control_text = b'/' ∷ b'c' ∷ b'o' ∷ b'n' ∷ b't' ∷ b'r' ∷ b'o' ∷ b'l' ∷ []

-- The names of the formats, in the order of the tests.
abbrev pub formats : List (Bytes × PageFormat)
formats =
    (b'j' ∷ b's' ∷ b'o' ∷ b'n' ∷ b'p' ∷ [], jsonp)
    ∷ (b'j' ∷ b's' ∷ b'o' ∷ b'n' ∷ [], json)
    ∷ (b'h' ∷ b't' ∷ b'm' ∷ b'l' ∷ [], html)
    ∷ (b'p' ∷ b'r' ∷ b'o' ∷ b'm' ∷ b'e' ∷ b't' ∷ b'h' ∷ b'e' ∷ b'u' ∷ b's' ∷ [], prometheus)
    ∷ []

-- The tests of the name of a format.
unfoldable pub named_format : List (Bytes × PageFormat) → Bytes → Option PageFormat
unfolding strncasecmp_eq
named_format [] text = none
named_format (e ∷ es) text =
    let rest = named_format es text in if strncasecmp_eq e.0 text then some e.1 else rest

-- The loop over the text, on fuel: the place `s` and what lies there, and the length of the page's own
-- text, which every `/format/` sets. The format, if there is one, and that length.
unfoldable pub format_loop : ℕ → ℕ → ℕ → Bytes → ℕ → Option (Option PageFormat × ℕ)
unfolding strncasecmp_eq named_format strchr
format_loop zero len s rest uri = none
format_loop (suc n) len s rest uri =
    let next : ℕ → Bytes → ℕ → Option (Option PageFormat × ℕ) = λ s' rest' uri'.
      elim (strchr b'/' (drop 1 rest')) [
        | none ↦ some (none, uri')
        | some (part, behind) ↦ elim (leb len (s' + 1 + length part)) [
          | true ↦ some (none, uri')
          | false ↦ format_loop n len (s' + 1 + length part) (b'/' ∷ behind) uri'
        ]
      ] in
    elim (leb 12 (len - s)) [
      | false ↦ some (none, uri)
      | true ↦ elim (strncasecmp_eq format_text rest) [
        | false ↦ next s rest uri
        | true ↦ elim (named_format formats (drop 8 rest)) [
          | some f ↦ some (some f, s)
          | none ↦ next (s + 6) (drop 6 rest) s
        ]
      ]
    ]

-- The format of a request, or that of the configuration, and the text of the page.
unfoldable pub find_format : PageFormat → Bytes → ℕ → Option (PageFormat × Bytes)
unfolding strncmp_eq format_loop
find_format preset memory len =
    let whole = if len == 1 && strncmp_eq 1 memory (b'/' ∷ []) then 0 else len in
    elim (format_loop (len + 1) len 0 memory whole) [
      | none ↦ none
      | some (none, uri) ↦ some (preset, take uri memory)
      | some (some f, uri) ↦ some (f, take uri memory)
    ]

-- The test of `display_handler` for the control interface: a second slash, and eight bytes at the end.
unfoldable pub is_control : Bytes → ℕ → Option Bool
unfolding strchr strncasecmp_eq
is_control memory len = elim (strchr b'/' memory) [
  | none ↦ some false
  | some (front, behind) ↦ elim (strchr b'/' behind) [
    | none ↦ some false
    | some (part, rest) ↦ elim (leb 8 (sub64 len (length front + 1 + length part))) [
      | false ↦ some false
      | true ↦ elim (leb 8 len) [
        | false ↦ none
        | true ↦ some (strncasecmp_eq control_text (drop (len - 8) memory))
      ]
    ]
  ]
]

-- All addresses of the servers.
unfoldable pub count_addrs : List UpstreamServer → ℕ
count_addrs [] = 0
count_addrs (u ∷ us) = length u.addrs + count_addrs us

-- `display_get_upstream_nelts`, for numbers that are no longer than a word.
unfoldable pub get_upstream_nelts : List UpstreamSrvConf → ℕ
unfolding count_addrs
get_upstream_nelts [] = 0
get_upstream_nelts (u ∷ us) =
    let rest = get_upstream_nelts us in
    elim u.servers [
      | none ↦ rest
      | some servers ↦
          if u.port == 0
          then (elim u.peers [ none ↦ 0 | some peers ↦ length peers ]) + count_addrs servers + rest
          else rest
    ]

-- What the size depends on, besides the 20 bytes of `NGX_ATOMIC_T_LEN`: `sizeof` the node and the page in HTML, `ngx_pagesize`, and `metrics_size`.
pub record Sizes : Type 0 where
  pub node : ℕ
  pub html_data : ℕ
  pub page : ℕ
  pub metrics : ℕ

-- `display_get_size`, with whether there is memory for `shm_info`.
unfoldable pub get_size :
    Sizes → MainConf → Bool → List UpstreamSrvConf → Tree → PageFormat → Option ℕ
unfolding shm_info get_upstream_nelts
get_size z conf false us t f = none
get_size z conf true us t f =
    let info = shm_info conf t in
    let un = add64 info.used_node (get_upstream_nelts us) in
    let entries = (z.node / 8 * 20 * un + un * 1024 + 4096 + z.metrics) % 2 ^ 64 in
    let size : ℕ = elim f [
      | html ↦ z.html_data + z.page
      | json ↦ entries
      | jsonp ↦ entries
      | prometheus ↦ entries
    ] in
    some (if size == 0 then info.max_size else size)
