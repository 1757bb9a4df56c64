-- ===== src/ControlStatus/Entries.antt =====
-- The entry of a node in the answer to the command `status` for one zone of
-- ngx_metric_module/src/ngx_http_vhost_traffic_status_control.c.
use metrics_server_example.Base.{
  ℕ, ◌≡◌, refl, ◌∙◌, inl, inr, true, false, Option, some, List, [], ◌∷◌, ◌++◌, append-nil, arith,
  ◌==◌, ==→eq, if◌then◌else◌, ◌||◌, length, length-append, Bool-cases,
}
use metrics_server_example.Base.Words.{add64}
use metrics_server_example.Text.{Bytes}
use metrics_server_example.Group.{upstream_no, upstream_ua, upstream_ug, upstream_fg}
use metrics_server_example.Key.{position_key}
use metrics_server_example.RbTree.{RbNode, Tree, name, Nginx, lookup}
use metrics_server_example.SetFilter.Upstream.{UpstreamLookup, zero_server}
use metrics_server_example.Control.{Selector, group, range_zone, Control}
use metrics_server_example.Control.Selected.{zone_key}
use metrics_server_example.Display.{comma}
use metrics_server_example.Json.{Value}
use metrics_server_example.Json.Line.{server_values}
use metrics_server_example.Json.Upstream.Lines.{upstream_line}
use metrics_server_example.Json.Whole.Members.{without_last, without_last-append}
use metrics_server_example.ControlStatus.{Output, is_upstreams, zone_answer}
use metrics_server_example.ControlStatus.Groups.{counted}

-- What `node_upstream_lookup` starts with.
abbrev pub no_server : ℕ → UpstreamLookup
no_server count = record { server = zero_server; name = []; count = count }

-- A text between braces.
abbrev pub braced : Bytes → Bytes
braced text = (b'{' ∷ []) ++ text ++ b'}' ∷ []

-- The count after the entry.
unfoldable pub entry_count : ℕ → UpstreamLookup → ℕ → ℕ
entry_count n u count = if n == upstream_ua || n == upstream_ug then u.count else count

-- A command for one zone, and the node of its key.
abbrev pub zone_control : ℕ → Bytes → ℕ → Control
zone_control n zone count = record {
  selector = group n;
  zone = zone;
  range = range_zone;
  count = count;
}

abbrev pub key_node : Nginx → Tree → ℕ → Bytes → ℕ → Option RbNode
key_node ngx t n zone count =
    let key = zone_key (zone_control n zone count) in lookup ngx t key (ngx.crc32_short key)

module _ (o : Output) (server_body upstream_body : List Value → Bytes) where
  -- The entry of a node with its comma, by the group, the key of the command and the server that its
  -- zone names.
  unfoldable pub entry_text : ℕ → Bytes → UpstreamLookup → RbNode → Bytes
  unfolding server_values upstream_line
  entry_text n key u m =
      if n == upstream_no
      then server_body (server_values o.env key m.vtsn) ++ comma ∷ []
      else (if n == upstream_ua || n == upstream_ug
          then (if u.count == 0
              then []
              else upstream_body (upstream_line o.env u.name u.server (some m)) ++ comma ∷ [])
          else (if n == upstream_fg
              then server_body (server_values o.env (position_key (name m) 2).1 m.vtsn)
                ++ comma ∷ []
              else []))

  -- The answer around the entry.
  unfoldable pub answer_text : ℕ → Bytes → UpstreamLookup → RbNode → Bytes
  unfolding server_values upstream_line
  answer_text n key u m =
      if n == upstream_no
      then braced (server_body (server_values o.env key m.vtsn))
      else (if n == upstream_ua || n == upstream_ug
          then (if u.count == 0
              then []
              else upstream_body (upstream_line o.env u.name u.server (some m)))
          else (if n == upstream_fg
              then braced (server_body (server_values o.env (position_key (name m) 2).1 m.vtsn))
              else b'{' ∷ []))

without_last-comma : (text : Bytes) → without_last (text ++ comma ∷ []) ≡ text
without_last-comma text = without_last-append text comma [] ∙ append-nil text

-- An entry with its comma, for the two kinds of groups.
zone_answer-comma :
    (g : Selector) (text : Bytes)
    → zone_answer g (text ++ comma ∷ []) ≡ (if is_upstreams g then text else braced text)
unfolding zone_answer
zone_answer-comma g text =
    let some_bytes : (length (text ++ comma ∷ []) == 0) ≡ false =
      ground (arith, length-append text (comma ∷ [])) in
    elim (Bool-cases (is_upstreams g)) [
      | inl e ↦ rw (e, some_bytes, without_last-comma text) (append-nil text)
      | inr e ↦ rw (e, some_bytes, without_last-comma ((b'{' ∷ []) ++ text)) refl
    ]

zone_answer-nil : (g : Selector) → zone_answer g [] ≡ (if is_upstreams g then [] else b'{' ∷ [])
unfolding zone_answer
zone_answer-nil g = refl

pub zone_answer-answer_text :
    (o : Output) (server_body upstream_body : List Value → Bytes) (n : ℕ) (key : Bytes)
    (u : UpstreamLookup) (m : RbNode)
    → zone_answer (group n) (entry_text o server_body upstream_body n key u m)
      ≡ answer_text o server_body upstream_body n key u m
unfolding entry_text answer_text
zone_answer-answer_text o server_body upstream_body n key u m =
    elim (Bool-cases (n == upstream_no)) [
      | inl e ↦
          let kind : is_upstreams (group n) ≡ false = rw (==→eq n upstream_no e) refl in
          rw e (zone_answer-comma (group n) _ ∙ rw kind refl)
      | inr zone_group ↦ elim (Bool-cases (n == upstream_ua || n == upstream_ug)) [
        | inl e ↦
            let kind : is_upstreams (group n) ≡ true = ground (arith, e) in
            elim (Bool-cases (u.count == 0)) [
              | inl z ↦ rw (zone_group, e, z) (zone_answer-nil (group n) ∙ rw kind refl)
              | inr z ↦ rw (zone_group, e, z) (zone_answer-comma (group n) _ ∙ rw kind refl)
            ]
        | inr e ↦
            let kind : is_upstreams (group n) ≡ false = ground (arith, e) in
            elim (Bool-cases (n == upstream_fg)) [
              | inl f ↦ rw (zone_group, e, f) (zone_answer-comma (group n) _ ∙ rw kind refl)
              | inr f ↦ rw (zone_group, e, f) (zone_answer-nil (group n) ∙ rw kind refl)
            ]
      ]
    ]

pub counted-empty :
    (entry : Bytes) (count : ℕ)
    → (if length entry == 0 then count else add64 count 1) ≡ counted entry count
counted-empty [] count = refl
counted-empty (b ∷ bs) count = ground arith
