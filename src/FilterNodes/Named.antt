-- ===== src/FilterNodes/Named.antt =====
-- The filters of nodes, for `filter_get_keys` and `filter_get_nodes` of
-- ngx_metric_module/src/ngx_http_vhost_traffic_status_filter.c, and the nodes of a filter.
use metrics_server_example.Base.{
  ℕ, suc, ◌≡◌, ◌≤◌, ◌<◌, refl, ap, Option, none, some, List, [], ◌∷◌, ◌++◌, arith, inl, inr, ◌⊎◌,
  ◌==◌, if◌then◌else◌, length, All,
}
use metrics_server_example.Text.{Bytes, ok, error, strncmp_eq, memcmp_eq}
use metrics_server_example.Group.{upstream_fg}
use metrics_server_example.Key.{position_key}
use metrics_server_example.Key.Fields.{split, get_elem?, field_or_error, position_key_lem}
use metrics_server_example.RbTree.{RbNode, name}
use metrics_server_example.FilterNodes.{same_name}

-- Texts without a zero byte are compared in full.
pub same_name-memcmp : (f g : Bytes) → All (λ b. 0 < b) f → same_name f g ≡ memcmp_eq f g
unfolding same_name strncmp_eq memcmp_eq
same_name-memcmp [] [] h = refl
same_name-memcmp [] (y ∷ ys) h = ground arith
same_name-memcmp (x ∷ xs) [] h = ground arith
same_name-memcmp (x ∷ xs) (y ∷ ys) h = ground (arith, h.0, same_name-memcmp xs ys h.1)

-- The filter that a node belongs to: field 1 of its text, if it is a node of a filter.
abbrev pub nonempty : Option Bytes → Option Bytes
nonempty none = none
nonempty (some []) = none
nonempty (some (b ∷ bs)) = some (b ∷ bs)

unfoldable pub filter_of : RbNode → Option Bytes
filter_of m =
    if m.vtsn.upstream.type == upstream_fg then nonempty (get_elem? (split (name m)) 1) else none

-- The filters of the nodes of a list.
unfoldable pub filters : List RbNode → List Bytes
unfolding filter_of
filters [] = []
filters (m ∷ ms) = elim (filter_of m) [ none ↦ filters ms | some f ↦ f ∷ filters ms ]

-- The nodes of one filter.
unfoldable pub nodes_of : Bytes → List RbNode → List RbNode
unfolding filter_of memcmp_eq
nodes_of f [] = []
nodes_of f (m ∷ ms) = elim (filter_of m) [
  | none ↦ nodes_of f ms
  | some g ↦ if memcmp_eq f g then m ∷ nodes_of f ms else nodes_of f ms
]

-- How often a text is in a list.
unfoldable pub count : Bytes → List Bytes → ℕ
unfolding memcmp_eq
count f [] = 0
count f (g ∷ gs) = if memcmp_eq f g then suc (count f gs) else count f gs

pub length-nodes_of : (f : Bytes) (ms : List RbNode) → length (nodes_of f ms) ≡ count f (filters ms)
unfolding nodes_of filters count
length-nodes_of f [] = refl
length-nodes_of f (m ∷ ms) = ground (arith, length-nodes_of f ms)

pub count-le : (f : Bytes) (gs : List Bytes) → count f gs ≤ length gs
unfolding count
count-le f [] = omega arith
count-le f (g ∷ gs) = ground (arith, count-le f gs)

pub filters-append : (xs ys : List RbNode) → filters (xs ++ ys) ≡ filters xs ++ filters ys
unfolding filters
filters-append [] ys = refl
filters-append (x ∷ xs) ys = ground (arith, filters-append xs ys)

pub nodes_of-append :
    (f : Bytes) (xs ys : List RbNode) → nodes_of f (xs ++ ys) ≡ nodes_of f xs ++ nodes_of f ys
unfolding nodes_of
nodes_of-append f [] ys = refl
nodes_of-append f (x ∷ xs) ys = ground (arith, nodes_of-append f xs ys)

field_or_error-cases :
    (buf : Bytes) (o : Option Bytes)
    → (((field_or_error buf o).0 ≡ error) × (nonempty o ≡ none))
      ⊎ ((g : Bytes) × (field_or_error buf o ≡ (ok, g)) × (nonempty o ≡ some g))
field_or_error-cases buf none = inl (refl, refl)
field_or_error-cases buf (some []) = inl (refl, refl)
field_or_error-cases buf (some (b ∷ bs)) = inr (b ∷ bs, refl, refl)

-- What field 1 of the text of a node is to both steps.
pub field-cases :
    (m : RbNode)
    → (((position_key (name m) 1).0 ≡ error) × (nonempty (get_elem? (split (name m)) 1) ≡ none))
      ⊎ ((g : Bytes) × (position_key (name m) 1 ≡ (ok, g))
          × (nonempty (get_elem? (split (name m)) 1) ≡ some g))
field-cases m =
    rw (position_key_lem (name m) 1) (field_or_error-cases (name m) (get_elem? (split (name m)) 1))

-- What the two lists take of one node.
pub filters-one :
    (m : RbNode) (o : Option Bytes)
    → filter_of m ≡ o
    → filters (m ∷ []) ≡ elim o [ none ↦ [] | some g ↦ g ∷ [] ]
unfolding filters
filters-one m o e = ap (λ (p : Option Bytes). elim p [ none ↦ [] | some g ↦ g ∷ [] ]) e

pub nodes_of-one :
    (f : Bytes) (m : RbNode) (o : Option Bytes)
    → filter_of m ≡ o
    → nodes_of f (m ∷ []) ≡ elim o [ none ↦ [] | some g ↦ if memcmp_eq f g then m ∷ [] else [] ]
unfolding nodes_of
nodes_of-one f m o e =
    ap (λ (p : Option Bytes). elim p [ none ↦ [] | some g ↦ if memcmp_eq f g then m ∷ [] else [] ])
      e
