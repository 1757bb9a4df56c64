-- ===== src/Group.antt =====
-- The groups of nodes and their two-letter names: the macros
-- `NGX_HTTP_VHOST_TRAFFIC_STATUS_UPSTREAM_*`, `group_to_string` and `string_to_group` of
-- ngx_metric_module/src/ngx_http_vhost_traffic_status_module.h. A group is an `unsigned` number.
use metrics_server_example.Base.{ℕ, ◌*◌, ◌&&◌, [], ◌∷◌, ltb, ◌==◌, if◌then◌else◌, get_or, drop}
use metrics_server_example.Text.{Bytes}

-- Server zones, upstream servers alone, upstream servers in groups, caches and filters.
abbrev pub upstream_no : ℕ
upstream_no = 0

abbrev pub upstream_ua : ℕ
upstream_ua = 1

abbrev pub upstream_ug : ℕ
upstream_ug = 2

abbrev pub upstream_cc : ℕ
upstream_cc = 3

abbrev pub upstream_fg : ℕ
upstream_fg = 4

-- `NGX_HTTP_VHOST_TRAFFIC_STATUS_UPSTREAMS`, with the zero that ends it.
abbrev pub upstreams : Bytes
upstreams =
    b'N' ∷ b'O' ∷ 0 ∷ b'U' ∷ b'A' ∷ 0 ∷ b'U' ∷ b'G' ∷ 0 ∷ b'C' ∷ b'C' ∷ 0 ∷ b'F' ∷ b'G' ∷ 0 ∷ 0 ∷ []

-- The C string at the start of the memory.
unfoldable pub c_string : Bytes → Bytes
c_string [] = []
c_string (b ∷ bs) = if b == 0 then [] else b ∷ c_string bs

-- `group_to_string`: past the last group it is the first name.
unfoldable pub group_to_string : ℕ → Bytes
unfolding c_string
group_to_string n = c_string (if ltb 4 n then upstreams else drop (3 * n) upstreams)

-- The character at a place; the zero that ends a text is not stored.
abbrev char_at : Bytes → ℕ → ℕ
char_at s i = get_or s i 0

-- `string_to_group`: an unknown name is the first group.
unfoldable pub string_to_group : Bytes → ℕ
string_to_group s =
    if char_at s 0 == b'N' && char_at s 1 == b'O'
    then upstream_no
    else (if char_at s 0 == b'U' && char_at s 1 == b'A'
        then upstream_ua
        else (if char_at s 0 == b'U' && char_at s 1 == b'G'
            then upstream_ug
            else (if char_at s 0 == b'C' && char_at s 1 == b'C'
                then upstream_cc
                else (if char_at s 0 == b'F' && char_at s 1 == b'G'
                    then upstream_fg
                    else upstream_no))))
