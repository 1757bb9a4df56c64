-- ===== src/Tests/Arrays.antt =====
-- The arrays of filters: a sort by insertion, and two filters of which one is there twice.
use Prim.Native.Nat.Ordering.{gt}
use mathlib.Core.List.{Permᴰ}
use mathlib.Core.List.Permᴰ
use metrics_server_example.Base.{
  ℕ, ◌≡◌, ◌≤◌, refl, ap, true, found_with, some, none, List, [], ◌∷◌, ◌++◌, arith, inl, inr,
  Ordering, compare, length, All, All-mono, Ordering-cases,
}
use metrics_server_example.Text.{Bytes, ok}
use metrics_server_example.RbTree.{RbNode, Tree, sentinel, fork}
use metrics_server_example.Filter.Walk.{preorder}
use metrics_server_example.Key.Fields.{split}
use metrics_server_example.Control.{Pool}
use metrics_server_example.FilterNodes.{get_keys, get_nodes}
use metrics_server_example.FilterNodes.Named.{filter_of, filters, nodes_of, count}
use metrics_server_example.FilterNodes.Gathered.{get_nodes-get_keys}
use metrics_server_example.Tests.Nodes.{test_memory}
use metrics_server_example.Tests.Trees.{one}
use metrics_server_example.Unique.{Uniq, Ascending, Core, IsSorting, unique, FilterText}
use metrics_server_example.Unique.Kept.{All-perm, occurrences, at_most_one}
use metrics_server_example.Unique.Hashes.{unique-occurrences}

module _ {ℓ} {A : Type ℓ} (cmp : ℕ → ℕ → Ordering) where
  unfoldable insert : Uniq A → List (Uniq A) → List (Uniq A)
  insert u [] = u ∷ []
  insert u (v ∷ vs) = elim (cmp u.hash v.hash) [ gt ↦ v ∷ insert u vs | _ ↦ u ∷ v ∷ vs ]

  unfoldable sort : List (Uniq A) → List (Uniq A)
  unfolding insert
  sort [] = []
  sort (u ∷ us) = insert u (sort us)

  insert-perm : (u : Uniq A) (vs : List (Uniq A)) → Permᴰ (insert u vs) (u ∷ vs)
  unfolding insert
  insert-perm u [] = Permᴰ.refl (u ∷ [])
  insert-perm u (v ∷ vs) = elim (Ordering-cases (cmp u.hash v.hash)) [
    | inl e ↦ rw (insert, e) (Permᴰ.refl (u ∷ v ∷ vs))
    | inr (inl e) ↦ rw (insert, e) (Permᴰ.refl (u ∷ v ∷ vs))
    | inr (inr e) ↦
        rw (insert, e) (Permᴰ.trans (Permᴰ.cons refl (insert-perm u vs)) (Permᴰ.swap refl refl))
  ]

  sort-perm : (us : List (Uniq A)) → Permᴰ (sort us) us
  unfolding sort
  sort-perm [] = Permᴰ.nil
  sort-perm (u ∷ us) = Permᴰ.trans (insert-perm u (sort us)) (Permᴰ.cons refl (sort-perm us))

  insert-Ascending :
      (u : Uniq A) (vs : List (Uniq A))
      → All (λ v. cmp u.hash v.hash ≡ compare u.hash v.hash) vs
      → Ascending vs
      → Ascending (insert u vs)
  unfolding insert
  insert-Ascending u [] h s = (tt, tt)
  insert-Ascending u (v ∷ vs) h s =
      let up : u.hash ≤ v.hash → Ascending (u ∷ v ∷ vs) =
        λ le. ((le, All-mono (λ (w : Uniq A). v.hash ≤ w.hash) vs (λ w p. omega arith) s.0), s) in
      elim (Ordering-cases (cmp u.hash v.hash)) [
        | inl e ↦ rw (insert, e) (up (ground (arith, e, h.0)))
        | inr (inl e) ↦ rw (insert, e) (up (ground (arith, e, h.0)))
        | inr (inr e) ↦
            let le : v.hash ≤ u.hash = ground (arith, e, h.0) in
            rw (insert, e)
              (
                All-perm (λ (w : Uniq A). v.hash ≤ w.hash) (Permᴰ.symm (insert-perm u vs))
                    (le, s.0),
                insert-Ascending u vs h.1 s.1,
              )
      ]

  sort-Ascending :
      (us : List (Uniq A))
      → All (λ u. All (λ v. cmp u.hash v.hash ≡ compare u.hash v.hash) us) us
      → Ascending (sort us)
  unfolding sort
  sort-Ascending [] h = tt
  sort-Ascending (u ∷ us) h =
      insert-Ascending u (sort us)
        (All-perm (λ (v : Uniq A). cmp u.hash v.hash ≡ compare u.hash v.hash)
          (Permᴰ.symm (sort-perm us)) h.0.1)
        (sort-Ascending us (
          All-mono (λ (w : Uniq A). All (λ v. cmp w.hash v.hash ≡ compare w.hash v.hash) (u ∷ us))
            us (λ w p. p.1) h.1))

abbrev test_unique : Core FilterText
test_unique = record { qsort = sort; crc32_short = length }

test_unique-IsSorting : IsSorting test_unique
test_unique-IsSorting = record { perm = sort-perm; sorted = sort-Ascending }

abbrev filter_a : FilterText
filter_a = record { filter_key = b'a' ∷ []; filter_name = b'n' ∷ [] }

abbrev filter_b : FilterText
filter_b = record { filter_key = b'b' ∷ []; filter_name = [] }

abbrev empty_filter : FilterText
empty_filter = record { filter_key = []; filter_name = [] }

abbrev filter_text : FilterText → Bytes
filter_text f = f.filter_key ++ f.filter_name

unique-occurrences_example :
    (kept : List FilterText) × (unique test_unique filter_text
        (some (filter_a ∷ filter_b ∷ filter_a ∷ []))
        20
      ≡ some (ok, some kept))
    × ((g : ℕ)
        → occurrences (λ a. length (filter_text a)) g kept
          ≡ at_most_one
              (occurrences (λ a. length (filter_text a)) g (filter_a ∷ filter_b ∷ filter_a ∷ [])))
    × ((P : FilterText → Type 0) → All P (filter_a ∷ filter_b ∷ filter_a ∷ []) → All P kept)
unique-occurrences_example =
    unique-occurrences test_unique filter_text 0 (filter_a ∷ filter_b ∷ filter_a ∷ []) 20
      test_unique-IsSorting
      (
        (omega arith, omega arith, omega arith, omega arith),
        (
          (omega arith, omega arith, omega arith, omega arith),
          ((omega arith, omega arith, omega arith, omega arith), tt),
        ),
      )
      (omega arith) (omega arith)

-- A node of the filter `a`.
abbrev node_f : RbNode
node_f = record {
  addr = 30;
  key = 6;
  vtsn = record test_memory { len = 6; name = b'F' ∷ b'G' ∷ 0x1f ∷ b'a' ∷ 0x1f ∷ b'b' ∷ [] };
}

abbrev of_filter : Tree
of_filter = fork sentinel node_f one

abbrev test_pool : Pool
test_pool = record { array = true; room = 4; key = true }

of_filter-filters : filters (preorder of_filter) ≡ (b'a' ∷ []) ∷ []
unfolding filters filter_of preorder split
of_filter-filters = refl

get_nodes-get_keys_example :
    (get_keys test_pool of_filter none ≡ some (ok, found_with none (filters (preorder of_filter))))
    × (get_nodes test_pool (b'a' ∷ []) of_filter none
        ≡ some (ok, found_with none (nodes_of (b'a' ∷ []) (preorder of_filter))))
    × (length (nodes_of (b'a' ∷ []) (preorder of_filter))
        ≡ count (b'a' ∷ []) (filters (preorder of_filter)))
get_nodes-get_keys_example =
    get_nodes-get_keys test_pool (b'a' ∷ []) of_filter refl refl
      (omega (arith, ap length of_filter-filters)) (omega arith, tt)
