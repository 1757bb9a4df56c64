-- ===== src/Json/Upstream/Members.antt =====
-- The members of groups and the servers without a group that `display_set_upstream_group` and
-- `display_set_upstream_alone` of
-- ngx_metric_module/src/ngx_http_vhost_traffic_status_display_json.c print.
use mathlib.Core.Path.{subst}
use mathlib.Core.List.{map-append}
use metrics_server_example.Base.{
  ℕ, ◌≤◌, arith, leb, length, ◌≡◌, refl, ap, sym, ◌∙◌, inl, inr, Bool, true, false, Option, none,
  some, List, [], ◌∷◌, ◌++◌, append_assoc, append-nil, ◌==◌, map, All, All-split, Bool-cases,
  Option-cases,
}
use metrics_server_example.Text.{Bytes, Status, ok, error}
use metrics_server_example.Text.Pool.{has_printable}
use metrics_server_example.Group.{upstream_ua, upstream_ug}
use metrics_server_example.Key.{separator, generate_key, position_key}
use metrics_server_example.RbTree.{RbNode, Tree, sentinel, fork, inorder, name, Nginx, lookup}
use metrics_server_example.Zone.{update_at}
use metrics_server_example.Zone.Update.{Distinct, Distinct-only, All-Member}
use metrics_server_example.Zone.Kept.{lookup-Member}
use metrics_server_example.Filter.Walk.{preorder}
use metrics_server_example.Control.Selected.{chosen, chosen-append}
use metrics_server_example.SetFilter.Upstream.{ServerConf, zero_server}
use metrics_server_example.Display.{comma}
use metrics_server_example.Display.Texts.{written}
use metrics_server_example.Json.{Env, Value}
use metrics_server_example.Json.Upstream.{
  set_upstream_node, set_alone_at, set_upstream_alone, Progress, set_member, set_members,
}
use metrics_server_example.Json.Upstream.Lines.{
  IsReady, IsShown, upstream_line, set_upstream_node-upstream_line, update_at-same,
}

pub written-append : (xs ys : List Bytes) → written (xs ++ ys) ≡ written xs ++ written ys
unfolding written
written-append [] ys = refl
written-append (x ∷ xs) ys =
    ap (λ s. x ++ comma ∷ s) (written-append xs ys)
    ∙ sym (append_assoc x (comma ∷ written xs) (written ys))

-- The key of a member of a group.
abbrev pub member_key : Bytes → Bytes → Bytes
member_key host s = (generate_key true (host ++ separator ∷ s) upstream_ug).1

-- The node of a member of a group.
abbrev pub member_node : Nginx → Tree → Bytes → Bytes → Option RbNode
member_node ngx t host s = lookup ngx t (member_key host s) (ngx.crc32_short (member_key host s))

-- All that is printed of a member.
unfoldable pub member_line : Nginx → Env → Tree → Bytes → Bytes × ServerConf → List Value
unfolding upstream_line
member_line ngx env t host s = upstream_line env s.0 s.1 (member_node ngx t host s.0)

-- A name that is not all control characters, and that fits `dst` behind its host and the separator.
abbrev pub FitsIn : ℕ → Bytes → Bytes → Type 0
FitsIn room host s = (has_printable s ≡ true) × (length (host ++ separator ∷ s) ≤ room)

module _ (ngx : Nginx) (env : Env) (body : List Value → Bytes) (ready : IsReady env body) (t : Tree)
    (distinct : Distinct (inorder t)) (shown : All IsShown (inorder t)) where
  set_member-member_line :
      (room : ℕ) (host s : Bytes) (us : ServerConf) (out : Bytes)
      → FitsIn room host s
      → set_member ngx env room host s us (t, out)
        ≡ some (true, (t, out ++ body (member_line ngx env t host (s, us)) ++ comma ∷ []))
  unfolding member_line set_member
  set_member-member_line room host s us out (h, fits) =
      let dst = host ++ separator ∷ s in
      let key : generate_key (env.key_memory dst) dst upstream_ug ≡ (ok, member_key host s) =
        rw (ready.key_memory dst) (unfold generate_key in refl) in
      let next : Option RbNode → Option Progress = λ n. elim (set_upstream_node env s us n) [
        | none ↦ none
        | some (line, v) ↦ some (
          true,
          (
            elim n [ none ↦ t | some m ↦ elim v [ none ↦ t | some v' ↦ update_at m.addr v' t ] ],
            out ++ line,
          ),
        )
      ] in
      let run : Status × Bytes → Option Progress = λ k. elim k.0 [
        | error ↦ some (false, (t, out))
        | ok ↦ next (lookup ngx t k.1 (ngx.crc32_short k.1))
      ] in
      let after : Option RbNode → Option Progress =
        λ n. some (true, (t, out ++ body (upstream_line env s us n) ++ comma ∷ [])) in
      let within : leb (length dst) room ≡ true = ground arith in
      let opened : set_member ngx env room host s us (t, out) ≡ next (member_node ngx t host s) =
        rw (set_member, within) (ap run key) in
      elim (Option-cases (member_node ngx t host s)) [
        | inl e ↦
            let line = set_upstream_node-upstream_line env body s us none ready h tt in
            let done : next none ≡ after none =
              rw line (ap (λ o. some (true, (t, o))) (sym (append_assoc out _ _))) in
            opened ∙ ap next e ∙ done ∙ ap after (sym e)
        | inr (m, e) ↦
            let in_tree =
              lookup-Member ngx t (member_key host s) (ngx.crc32_short (member_key host s)) m e in
            let here : IsShown m = All-Member IsShown (inorder t) m shown in_tree in
            let line = set_upstream_node-upstream_line env body s us (some m) ready h (here, tt) in
            let same = update_at-same m t (Distinct-only m (inorder t) distinct in_tree) in
            let done : next (some m) ≡ after (some m) =
              rw (line, same) (ap (λ o. some (true, (t, o))) (sym (append_assoc out _ _))) in
            opened ∙ ap next e ∙ done ∙ ap after (sym e)
      ]

  -- The members of a group are printed in order, each with a comma behind it.
  pub set_members-written :
      (room : ℕ) (host : Bytes) (ss : List (Bytes × ServerConf)) (out : Bytes)
      → All (λ s. FitsIn room host s.0) ss
      → set_members ngx env room host ss (t, out)
        ≡ some (true, (t, out ++ written (map (λ s. body (member_line ngx env t host s)) ss)))
  unfolding set_members written
  set_members-written room host [] out h = ap (λ o. some (true, (t, o))) (sym (append-nil out))
  set_members-written room host (s ∷ ss) out h =
      let line = body (member_line ngx env t host s) in
      let here = set_member-member_line room host s.0 s.1 out h.0 in
      let rest = set_members-written room host ss (out ++ line ++ comma ∷ []) h.1 in
      rw (set_members, here, rest)
        (ap (λ o. some (true, (t, o)))
          (append_assoc (out ++ line) (comma ∷ []) _ ∙ append_assoc out line _))

-- The upstream servers without a group.
unfoldable pub is_alone : RbNode → Bool
is_alone m = m.vtsn.upstream.type == upstream_ua

abbrev pub alone_name : RbNode → Bytes
alone_name m = (position_key (name m) 1).1

-- All that is printed of such a server.
unfoldable pub alone_line : Env → RbNode → List Value
unfolding upstream_line
alone_line env m = upstream_line env (alone_name m) zero_server (some m)

module _ (env : Env) (body : List Value → Bytes) (ready : IsReady env body) where
  abbrev pub alone_lines : List RbNode → List Bytes
  alone_lines ms = map (λ m. body (alone_line env m)) ms

  -- The text of such servers, each with a comma behind it.
  unfoldable pub alone_text : List RbNode → Bytes
  unfolding written alone_line
  alone_text ms = written (alone_lines ms)

  alone_text-append : (xs ys : List RbNode) → alone_text (xs ++ ys) ≡ alone_text xs ++ alone_text ys
  unfolding alone_text
  alone_text-append xs ys =
      ap written (map-append (λ m. body (alone_line env m)) xs ys)
      ∙ written-append (alone_lines xs) (alone_lines ys)

  set_alone_at-alone_text :
      (m : RbNode) (out : Bytes)
      → IsShown m
      → All (λ n. has_printable (alone_name n) ≡ true) (chosen is_alone (m ∷ []))
      → set_alone_at env m out ≡ some (m, out ++ alone_text (chosen is_alone (m ∷ [])))
  unfolding set_alone_at alone_text chosen is_alone alone_line written
  set_alone_at-alone_text m out shown named =
      elim (Bool-cases (m.vtsn.upstream.type == upstream_ua)) [
        | inl e ↦
            let one : chosen is_alone (m ∷ []) ≡ m ∷ [] = rw e refl in
            let named' = subst (All (λ n. has_printable (alone_name n) ≡ true)) one named in
            let line =
              set_upstream_node-upstream_line env body (alone_name m) zero_server (some m) ready
                named'.0 (shown, tt) in
            rw (set_alone_at, e, set_upstream_node, line) refl
        | inr e ↦ rw (set_alone_at, e) (ap (λ o. some (m, o)) (sym (append-nil out)))
      ]

  -- The servers without a group are printed, each once, with a comma behind it.
  pub set_upstream_alone-alone_text :
      (t : Tree) (out : Bytes)
      → All IsShown (preorder t)
      → All (λ m. has_printable (alone_name m) ≡ true) (chosen is_alone (preorder t))
      → set_upstream_alone env t out ≡ some (t, out ++ alone_text (chosen is_alone (preorder t)))
  unfolding set_upstream_alone preorder chosen alone_text written
  set_upstream_alone-alone_text sentinel out shown named =
      ap (λ o. some (sentinel, o)) (sym (append-nil out))
  set_upstream_alone-alone_text (fork l m r) out shown named =
      let pl = preorder l in
      let pr = preorder r in
      let here = chosen is_alone (m ∷ []) in
      let left = chosen is_alone pl in
      let right = chosen is_alone pr in
      let parts : chosen is_alone (preorder (fork l m r)) ≡ here ++ (left ++ right) =
        chosen-append is_alone (m ∷ []) (pl ++ pr)
        ∙ ap (λ ms. here ++ ms) (chosen-append is_alone pl pr) in
      let named' = subst (All (λ n. has_printable (alone_name n) ≡ true)) parts named in
      let (n1, n23) =
        All-split (λ n. has_printable (alone_name n) ≡ true) here (left ++ right) named' in
      let (n2, n3) = All-split (λ n. has_printable (alone_name n) ≡ true) left right n23 in
      let (s2, s3) = All-split IsShown pl pr shown.1 in
      let out1 = out ++ alone_text here in
      let out2 = out1 ++ alone_text left in
      let e1 = set_alone_at-alone_text m out shown.0 n1 in
      let e2 = set_upstream_alone-alone_text l out1 s2 n2 in
      let e3 = set_upstream_alone-alone_text r out2 s3 n3 in
      let whole : out2 ++ alone_text right ≡ out ++ alone_text (here ++ (left ++ right)) =
        ap (λ o. o ++ alone_text right) (append_assoc out (alone_text here) (alone_text left))
        ∙ append_assoc out (alone_text here ++ alone_text left) (alone_text right)
        ∙ ap (λ o. out ++ o)
            (append_assoc (alone_text here) (alone_text left) (alone_text right)
              ∙ ap (λ o. alone_text here ++ o) (sym (alone_text-append left right))
              ∙ sym (alone_text-append here (left ++ right))) in
      rw (set_upstream_alone, e1, e2, e3)
        (ap (λ o. some (fork l m r, o)) (whole ∙ ap (λ ms. out ++ alone_text ms) (sym parts)))
