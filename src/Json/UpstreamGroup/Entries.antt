-- ===== src/Json/UpstreamGroup/Entries.antt =====
-- What `display_set_upstream_group` of
-- ngx_metric_module/src/ngx_http_vhost_traffic_status_display_json.c prints.
use metrics_server_example.Base.{
  ℕ, ◌≡◌, refl, ap, sym, ◌∙◌, inl, inr, true, false, none, some, List, [], ◌∷◌, ◌++◌, append_assoc,
  append-nil, arith, ◌==◌, map, length, All, Option-cases, Bool-cases,
}
use metrics_server_example.Text.{Bytes}
use metrics_server_example.Text.Pool.{has_printable}
use metrics_server_example.RbTree.{Tree, inorder, Nginx}
use metrics_server_example.Zone.Update.{Distinct}
use metrics_server_example.Filter.Walk.{preorder, All-preorder}
use metrics_server_example.Control.Selected.{chosen}
use metrics_server_example.Display.Texts.{joined, written, take-written}
use metrics_server_example.Json.{Env, Value, text, fmt_array, closed}
use metrics_server_example.Json.Upstream.{UpstreamServer, UpstreamSrvConf}
use metrics_server_example.Json.Upstream.Lines.{IsReady, IsShown}
use metrics_server_example.Json.Upstream.Members.{
  FitsIn, member_line, set_members-written, is_alone, alone_name, alone_lines, alone_text,
  set_upstream_alone-alone_text,
}
use metrics_server_example.Json.UpstreamGroup.{
  members_of, array_end, dst_len, set_group, set_groups, nogroups, set_upstream_group,
}

-- An array under its name, with commas between its entries; nothing where it has none.
unfoldable pub array_text : Env → Bytes → List Bytes → Bytes
array_text env host [] = []
array_text env host (x ∷ xs) =
    env.sprintf fmt_array (text host ∷ []) ++ joined (x ∷ xs) ++ array_end

closed-array_text :
    (env : Env) (host out : Bytes) (xs : List Bytes)
    → closed out
        (out ++ env.sprintf fmt_array (text host ∷ []))
        (out ++ env.sprintf fmt_array (text host ∷ []) ++ written xs)
        array_end
      ≡ out ++ array_text env host xs
unfolding closed array_text
closed-array_text env host out [] =
    let s = out ++ env.sprintf fmt_array (text host ∷ []) in
    let same : (length s == length (s ++ written [])) ≡ true =
      unfold written in ground (arith, ap length (append-nil s)) in
    rw (same, append-nil out) refl
closed-array_text env host out (x ∷ xs) =
    let head = env.sprintf fmt_array (text host ∷ []) in
    let s = out ++ head in
    let j = joined (x ∷ xs) in
    let (cut, longer) = take-written s x xs in
    let more : (length s == length (s ++ written (x ∷ xs))) ≡ false = ground arith in
    rw (more, cut)
      (append_assoc s j array_end
        ∙ append_assoc out head (j ++ array_end)
        ∙ ap (λ w. out ++ w) (sym (append_assoc head j array_end)))

-- The names of a group's members are not all control characters and fit `dst`, where the group is
-- printed.
abbrev pub Named : ℕ → UpstreamSrvConf → Type 0
Named room u =
    (servers : List UpstreamServer)
    → u.servers ≡ some servers
    → All (λ s. FitsIn room u.host s.0) (members_of u.peers servers)

module _ (ngx : Nginx) (env : Env) (body : List Value → Bytes) (ready : IsReady env body) (t : Tree)
    (distinct : Distinct (inorder t)) (shown : All IsShown (inorder t)) where
  -- A group with servers and without a port, under its host; any other upstream is left out.
  unfoldable pub group_text : UpstreamSrvConf → Bytes
  unfolding array_text members_of member_line
  group_text u = elim u.servers [
    | none ↦ []
    | some servers ↦ elim (u.port == 0) [
      | false ↦ []
      | true ↦
          array_text env u.host
            (map (λ s. body (member_line ngx env t u.host s)) (members_of u.peers servers))
    ]
  ]

  set_group-group_text :
      (room : ℕ) (u : UpstreamSrvConf) (out : Bytes)
      → Named room u
      → set_group ngx env room u (t, out) ≡ some (true, (t, out ++ group_text u))
  unfolding set_group group_text
  set_group-group_text room u out named = elim (Option-cases u.servers) [
    | inl e ↦ rw (set_group, e) (ap (λ o. some (true, (t, o))) (sym (append-nil out)))
    | inr (servers, e) ↦ elim (Bool-cases (u.port == 0)) [
      | inr p ↦
          let text_of : group_text u ≡ [] = rw (group_text, e, p) refl in
          let ran : set_group ngx env room u (t, out) ≡ some (true, (t, out)) =
            rw (set_group, e, p) refl in
          ran
          ∙ ap (λ o. some (true, (t, o))) (sym (append-nil out) ∙ ap (λ o. out ++ o) (sym text_of))
      | inl p ↦
          let s = out ++ env.sprintf fmt_array (text u.host ∷ []) in
          let ms = members_of u.peers servers in
          let lines = map (λ m. body (member_line ngx env t u.host m)) ms in
          let run =
            set_members-written ngx env body ready t distinct shown room u.host ms s
              (named servers e) in
          let ran : set_group ngx env room u (t, out)
              ≡ some (true, (t, closed out s (s ++ written lines) array_end)) =
            rw (set_group, e, p, run) refl in
          let text_of : group_text u ≡ array_text env u.host lines = rw (group_text, e, p) refl in
          ran
          ∙ ap (λ o. some (true, (t, o)))
              (closed-array_text env u.host out lines ∙ ap (λ o. out ++ o) (sym text_of))
    ]
  ]

  unfoldable pub groups_text : List UpstreamSrvConf → Bytes
  unfolding group_text
  groups_text [] = []
  groups_text (u ∷ us) = group_text u ++ groups_text us

  set_groups-groups_text :
      (room : ℕ) (us : List UpstreamSrvConf) (out : Bytes)
      → All (Named room) us
      → set_groups ngx env room us (t, out) ≡ some (true, (t, out ++ groups_text us))
  unfolding set_groups groups_text
  set_groups-groups_text room [] out h = ap (λ o. some (true, (t, o))) (sym (append-nil out))
  set_groups-groups_text room (u ∷ us) out h =
      rw
        (
          set_groups,
          set_group-group_text room u out h.0,
          set_groups-groups_text room us (out ++ group_text u) h.1,
        )
        (ap (λ o. some (true, (t, o))) (append_assoc out (group_text u) (groups_text us)))

  -- With memory and a line format that ends in a comma, where all nodes can be printed and stand at
  -- different addresses, no name is made of control characters only, and no host of a printed group with
  -- the separator and a name of the group is longer than `dst`, the longest host and 54 bytes, the output
  -- of the upstreams leaves the tree and is: for each upstream with servers and without a port, an array under its host of
  -- its members (its peers and its backup servers where it is shared, else all addresses of its servers),
  -- each with the statistics of the node of its key, or zeros where there is none; and an array of
  -- the servers without a group; an array without entries is left out.
  pub set_upstream_group_lem :
      (us : List UpstreamSrvConf) (out : Bytes)
      → All (Named (dst_len us)) us
      → All (λ m. has_printable (alone_name m) ≡ true) (chosen is_alone (preorder t))
      → set_upstream_group ngx env true us (t, out)
        ≡ some (
          t,
          out
              ++ groups_text us
              ++ array_text env nogroups
                  (alone_lines env body ready (chosen is_alone (preorder t))),
        )
  unfolding set_upstream_group
  set_upstream_group_lem us out named alone =
      let groups = out ++ groups_text us in
      let ms = chosen is_alone (preorder t) in
      let s = groups ++ env.sprintf fmt_array (text nogroups ∷ []) in
      let run1 = set_groups-groups_text (dst_len us) us out named in
      let run2 =
        set_upstream_alone-alone_text env body ready t s (All-preorder IsShown t shown) alone in
      let end : closed groups s (s ++ alone_text env body ready ms) array_end
          ≡ groups ++ array_text env nogroups (alone_lines env body ready ms) =
        unfold alone_text in
        closed-array_text env nogroups groups (alone_lines env body ready ms) in
      rw (set_upstream_group, run1, run2) (ap (λ o. some (t, o)) end)
