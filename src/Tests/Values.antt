-- ===== src/Tests/Values.antt =====
-- The values of variables: the tree of one node, which has another key, and a text with a pattern.
use metrics_server_example.Base.{ℕ, ◌≡◌, refl, true, false, some, none, [], ◌∷◌, ◌++◌, arith, All}
use metrics_server_example.Text.{Bytes, ok, error, replace_chrc}
use metrics_server_example.Text.Replace.{Buffer, strstrn, move, replace_loop, replace_strc}
use metrics_server_example.Text.Replaced.{replace_strc-again}
use metrics_server_example.Group.{upstream_no, group_to_string, c_string}
use metrics_server_example.Key.{generate_key}
use metrics_server_example.Node.{Node}
use metrics_server_example.RbTree.{inorder, lookup}
use metrics_server_example.Zone.{Zone, find_addr}
use metrics_server_example.Zone.Cache.{Live, NoCollision}
use metrics_server_example.Limit.{Names, find_name}
use metrics_server_example.Limit.Decide.{Stays}
use metrics_server_example.Variables.{VariableValue, found_value, node_variable}
use metrics_server_example.Variables.Read.{server_key, node_variable_lem}
use metrics_server_example.SetFilter.{filter_answer}
use metrics_server_example.SetFilter.Argument.{find_group, group_names}
use metrics_server_example.SetFilter.Members.{filter_node_member}
use metrics_server_example.SetFilter.Upstream.{zero_server}
use metrics_server_example.SetFilter.Value.{zone_key, filter_answer_lem}
use metrics_server_example.Tests.Instances.{test_nginx, test_nginx-IsLawful}
use metrics_server_example.Tests.Trees.{one, node_a, one-Sorted}

abbrev digit : ℕ → Bytes
digit n = b'0' ∷ []

abbrev host_a : Names
host_a = record { filter = false; filter_host = false; host_header = []; server_name = b'a' ∷ [] }

abbrev quiet : Zone
quiet = record {
  tree = one;
  node_caches = some 10 ∷ none ∷ none ∷ none ∷ none ∷ [];
  locked = false;
}

quiet-Live : All (Live (inorder one)) quiet.node_caches
unfolding inorder find_addr
quiet-Live = ((node_a, refl), (tt, (tt, (tt, (tt, tt)))))

abbrev no_value : VariableValue
no_value = record { text = []; valid = false; no_cacheable = true; not_found = false }

server-hash : test_nginx.crc32_short (server_key host_a) ≡ 4
unfolding find_name generate_key group_to_string c_string
server-hash = refl

server-NoCollision :
    NoCollision (test_nginx.crc32_short (server_key host_a)) (server_key host_a) (inorder one)
unfolding inorder
server-NoCollision = ((λ e. absurd (omega (arith, e, server-hash))), tt)

node_variable_lem_example :
    (z' : Zone) × (node_variable test_nginx digit host_a
        (record { key = true; value = true })
        (λ (v : Node). v.stat.in_bytes)
        no_value
        quiet
      ≡ some (
        ok,
        elim (lookup test_nginx one
            (server_key host_a)
            (test_nginx.crc32_short (server_key host_a))) [
              | none ↦ record no_value { not_found = true }
              | some m ↦ found_value digit m.vtsn.stat.in_bytes
            ],
        z',
      ))
    × Stays quiet z'
node_variable_lem_example =
    node_variable_lem test_nginx digit host_a (record { key = true; value = true })
      (λ (v : Node). v.stat.in_bytes) no_value quiet test_nginx-IsLawful refl refl one-Sorted
      quiet-Live server-NoCollision refl

abbrev server_name : Bytes
server_name = b's' ∷ b'e' ∷ b'r' ∷ b'v' ∷ b'e' ∷ b'r' ∷ []

zone-hash : test_nginx.crc32_short (zone_key (b'a' ∷ []) upstream_no) ≡ 4
unfolding generate_key group_to_string c_string replace_chrc
zone-hash = refl

zone-NoCollision :
    NoCollision
      (test_nginx.crc32_short (zone_key (b'a' ∷ []) upstream_no))
      (zone_key (b'a' ∷ []) upstream_no)
      (inorder one)
unfolding inorder
zone-NoCollision = ((λ e. absurd (omega (arith, e, zone-hash))), tt)

filter_answer_lem_example :
    filter_answer test_nginx digit []
      (record { copy = true; key = true; value = true })
      quiet
      (server_name ++ b'/' ∷ ((b'a' ∷ []) ++ b'/' ∷ (b'1' ∷ b'x' ∷ b'x' ∷ [])))
      0
    ≡ some (
      0,
      elim (lookup test_nginx one
          (zone_key (b'a' ∷ []) upstream_no)
          (test_nginx.crc32_short (zone_key (b'a' ∷ []) upstream_no))) [
            | none ↦ none
            | some m ↦ some (
                digit (filter_node_member upstream_no (b'1' ∷ b'x' ∷ b'x' ∷ []) m.vtsn zero_server))
          ],
    )
filter_answer_lem_example =
    filter_answer_lem test_nginx digit [] (record { copy = true; key = true; value = true }) quiet
      server_name (b'a' ∷ []) (b'1' ∷ b'x' ∷ b'x' ∷ []) upstream_no 0 test_nginx-IsLawful refl refl
      refl one-Sorted quiet-Live zone-NoCollision (omega arith) (omega arith) (omega arith)
      (unfold find_group in unfold group_names in refl) refl

abbrev pattern : Bytes
pattern = b'[' ∷ b'x' ∷ b']' ∷ []

abbrev marked : Buffer
marked = record { memory = b'a' ∷ b'[' ∷ b'x' ∷ b']' ∷ b'b' ∷ 0 ∷ []; len = 5 }

-- The bytes behind the shorter text are what was left there.
abbrev unmarked : Buffer
unmarked = record { memory = b'a' ∷ b'@' ∷ b'b' ∷ b']' ∷ b'b' ∷ 0 ∷ []; len = 3 }

marked-unmarked : replace_strc marked pattern b'@' ≡ some (ok, unmarked)
unfolding replace_strc replace_loop strstrn move
marked-unmarked = refl

replace_strc-again_example : replace_strc unmarked pattern b'/' ≡ some (error, unmarked)
replace_strc-again_example =
    replace_strc-again marked unmarked pattern pattern b'@' b'/' (omega arith) (omega arith)
      (record {
        text = b'a' ∷ b'[' ∷ b'x' ∷ b']' ∷ b'b' ∷ [];
        whole = refl;
        bytes = omega arith;
        size = refl;
      })
      marked-unmarked (omega arith)
