-- ===== src/Json/Servers.antt =====
-- The server zones that `display_set_server` of
-- ngx_metric_module/src/ngx_http_vhost_traffic_status_display_json.c prints.
use mathlib.Core.Path.{subst}
use metrics_server_example.Base.{
  ℕ, ◌≡◌, refl, ap, sym, ◌∙◌, inl, inr, Bool, true, some, List, [], ◌∷◌, ◌++◌, append_assoc,
  append-nil, ◌==◌, All, All-split, Bool-cases,
}
use metrics_server_example.Text.{Bytes}
use metrics_server_example.Group.{upstream_no}
use metrics_server_example.Node.Totals.{Below}
use metrics_server_example.RbTree.{RbNode, Tree, sentinel, fork, name}
use metrics_server_example.Filter.Walk.{preorder}
use metrics_server_example.Control.Selected.{chosen, chosen-append}
use metrics_server_example.Display.Texts.{IsPrinting}
use metrics_server_example.Json.{Env, Stats, add_stats, set_server_node, set_server_at, set_server}
use metrics_server_example.Json.Line.{
  all_memory, IsPrintable, server_line, set_server_node-server_line,
}
use metrics_server_example.Json.Sum.{
  Words, IsSum, stats_totals, two_words, add_stats-totals, sums, sums-append, Below-sums,
}

-- The nodes of server zones, as the output goes through them.
unfoldable pub is_server : RbNode → Bool
is_server m = m.vtsn.upstream.type == upstream_no

-- The lines of nodes, each under its whole key.
unfoldable pub server_lines : Env → List RbNode → Bytes
unfolding server_line
server_lines env [] = []
server_lines env (m ∷ ms) = server_line env (name m) m.vtsn ++ server_lines env ms

server_lines-append :
    (env : Env) (xs ys : List RbNode)
    → server_lines env (xs ++ ys) ≡ server_lines env xs ++ server_lines env ys
unfolding server_lines
server_lines-append env [] ys = refl
server_lines-append env (x ∷ xs) ys =
    ap (λ s. server_line env (name x) x.vtsn ++ s) (server_lines-append env xs ys)
    ∙ sym
        (append_assoc (server_line env (name x) x.vtsn) (server_lines env xs) (server_lines env ys))

-- A node that can be printed and summed.
pub record IsShown (m : RbNode) : Type 0 where
  pub printable : IsPrintable m.vtsn.request_times m.vtsn.request_buckets
  pub words : Words m.vtsn.stat m.vtsn.stat_oc

-- After nodes were shown: their lines behind the output, and their exact counts in the sum.
pub record Shown (env : Env) (ms : List RbNode) (st st' : Bytes × Stats) : Type 0 where
  pub out : st'.0 ≡ st.0 ++ server_lines env ms
  pub ok : IsSum st'.1
  pub summed : stats_totals st'.1 ≡ sums ms (stats_totals st.1)

Shown-append :
    (env : Env) (xs ys : List RbNode) (st st' st'' : Bytes × Stats)
    → Shown env xs st st'
    → Shown env ys st' st''
    → Shown env (xs ++ ys) st st''
Shown-append env xs ys st st' st'' a b = record {
  out =
      b.out
      ∙ ap (λ o. o ++ server_lines env ys) a.out
      ∙ append_assoc st.0 (server_lines env xs) (server_lines env ys)
      ∙ ap (λ o. st.0 ++ o) (sym (server_lines-append env xs ys));
  ok = b.ok;
  summed = b.summed ∙ ap (sums ys) a.summed ∙ sym (sums-append xs ys (stats_totals st.1));
}

-- What is needed to show nodes.
abbrev Ready : List RbNode → Bytes × Stats → Type 0
Ready ms st = All IsShown ms × IsSum st.1 × Below two_words (sums ms (stats_totals st.1))

Ready-append :
    (env : Env) (xs ys : List RbNode) (st st' : Bytes × Stats)
    → Ready (xs ++ ys) st
    → Ready xs st × (Shown env xs st st' → Ready ys st')
Ready-append env xs ys st st' r =
    let (here, rest) = All-split IsShown xs ys r.0 in
    let all : Below two_words (sums ys (sums xs (stats_totals st.1))) =
      subst (Below two_words) (sums-append xs ys (stats_totals st.1)) r.2 in
    (
      (here, r.1, Below-sums two_words ys (sums xs (stats_totals st.1)) all),
      λ s. (rest, s.ok, subst (λ a. Below two_words (sums ys a)) (sym s.summed) all),
    )

module _ (env : Env) (law : IsPrinting env.print)
    (memory : (a : ℕ) → env.memory a ≡ all_memory) where
  set_server_at-server_line :
      (m : RbNode) (st : Bytes × Stats) (s : Stats)
      → (m.vtsn.upstream.type == upstream_no) ≡ true
      → IsPrintable m.vtsn.request_times m.vtsn.request_buckets
      → add_stats env st.1 m.vtsn ≡ some s
      → set_server_at env m st ≡ some (m, (st.0 ++ server_line env (name m) m.vtsn, s))
  unfolding set_server_at
  set_server_at-server_line m st s e printable run =
      let line : set_server_node env (env.memory m.addr) (name m) m.vtsn
          ≡ some (server_line env (name m) m.vtsn, m.vtsn) =
        rw (memory m.addr) (set_server_node-server_line env (name m) m.vtsn law printable) in
      rw (e, set_server_node, line, run) refl

  set_server_at-Shown :
      (m : RbNode) (st : Bytes × Stats)
      → Ready (chosen is_server (m ∷ [])) st
      → (st' : Bytes × Stats) × (set_server_at env m st ≡ some (m, st'))
        × Shown env (chosen is_server (m ∷ [])) st st'
  unfolding chosen is_server server_lines sums set_server_at
  set_server_at-Shown m st r = elim (Bool-cases (m.vtsn.upstream.type == upstream_no)) [
    | inl e ↦
        let one : chosen is_server (m ∷ []) ≡ m ∷ [] = rw e refl in
        let (shown, ok, small) = subst (λ ms. Ready ms st) one r in
        let (s, run, ok', sum) = add_stats-totals env st.1 m.vtsn ok shown.0.words small in
        let st' : Bytes × Stats = (st.0 ++ server_line env (name m) m.vtsn, s) in
        (
          st',
          set_server_at-server_line m st s e shown.0.printable run,
          subst (λ ms. Shown env ms st st') (sym one)
              (record {
                out = ap (λ o. st.0 ++ o) (sym (append-nil (server_line env (name m) m.vtsn)));
                ok = ok';
                summed = sum;
              }),
        )
    | inr e ↦
        let none_chosen : chosen is_server (m ∷ []) ≡ [] = rw e refl in
        (
          st,
          rw e refl,
          subst (λ ms. Shown env ms st st) (sym none_chosen)
              (record { out = sym (append-nil st.0); ok = r.1; summed = refl }),
        )
  ]

  set_server-Shown :
      (t : Tree) (st : Bytes × Stats)
      → Ready (chosen is_server (preorder t)) st
      → (st' : Bytes × Stats) × (set_server env t st ≡ some (t, st'))
        × Shown env (chosen is_server (preorder t)) st st'
  unfolding set_server preorder server_lines chosen sums
  set_server-Shown sentinel st r =
      (st, refl, record { out = sym (append-nil st.0); ok = r.1; summed = refl })
  set_server-Shown (fork l m r) st ready =
      let here = chosen is_server (m ∷ []) in
      let left = chosen is_server (preorder l) in
      let right = chosen is_server (preorder r) in
      let parts : chosen is_server (preorder (fork l m r)) ≡ here ++ (left ++ right) =
        chosen-append is_server (m ∷ []) (preorder l ++ preorder r)
        ∙ ap (λ ms. here ++ ms) (chosen-append is_server (preorder l) (preorder r)) in
      let ready' = subst (λ ms. Ready ms st) parts ready in
      let (st1, run1, shown1) =
        set_server_at-Shown m st (Ready-append env here (left ++ right) st st ready').0 in
      let ready1 = (Ready-append env here (left ++ right) st st1 ready').1 shown1 in
      let (st2, run2, shown2) =
        set_server-Shown l st1 (Ready-append env left right st1 st1 ready1).0 in
      let ready2 = (Ready-append env left right st1 st2 ready1).1 shown2 in
      let (st3, run3, shown3) = set_server-Shown r st2 ready2 in
      (
        st3,
        rw (set_server, run1, run2, run3) refl,
        subst (λ ms. Shown env ms st st3) (sym parts)
            (Shown-append env here (left ++ right) st st1 st3 shown1
              (Shown-append env left right st1 st2 st3 shown2 shown3)),
      )

-- Where every server zone has a full queue, a histogram in its places and numbers of up to 19 digits,
-- the output goes through the tree without a change to it and prints exactly the server zones, each
-- once, with the averages, windows and buckets of their own and under their whole key. The sum that
-- it keeps holds, in its counters with their overflow counters, the exact sums of the counts of these
-- nodes, if those fit two words, added to what was there. There is memory for the texts.
pub set_server_lem :
    (env : Env) (t : Tree) (out : Bytes) (s : Stats)
    → IsPrinting env.print
    → ((a : ℕ) → env.memory a ≡ all_memory)
    → IsSum s
    → All IsShown (chosen is_server (preorder t))
    → Below two_words (sums (chosen is_server (preorder t)) (stats_totals s))
    → (s' : Stats) × (set_server env t (out, s)
        ≡ some (t, (out ++ server_lines env (chosen is_server (preorder t)), s')))
      × (stats_totals s' ≡ sums (chosen is_server (preorder t)) (stats_totals s))
set_server_lem env t out s law memory ok shown small =
    let (st, run, r) = set_server-Shown env law memory t (out, s) (shown, ok, small) in
    (st.1, run ∙ ap (λ o. some (t, (o, st.1))) r.out, r.summed)
