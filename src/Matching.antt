-- ===== src/Matching.antt =====
-- app/services/document_matching_service.py: the ids that a criterion selects in a hierarchy, with
-- their descendants. Python's sets are lists without repetition; their order is not observed.
pub mod Fuel
pub mod Closure
pub mod Text
mod Examples
use global_news_intelligence.Prelude.{
  ℕ, zero, suc, ◌+◌, ◌==◌, Bool, true, false, not, ◌&&◌, Option, none, some, List, [], ◌∷◌, any,
  length, if◌then◌else◌,
}

-- A pair of `hierarchy`.
pub record Node : Type 0 where
  pub id : ℕ
  pub parent_id : Option ℕ

abbrev pub mem : ℕ → List ℕ → Bool
mem x xs = any (λ y. y == x) xs

abbrev pub is_parent : Option ℕ → ℕ → Bool
is_parent none parent = false
is_parent (some p) parent = p == parent

-- `set(values)`
pub distinct : List ℕ → List ℕ
distinct [] = []
distinct (x ∷ xs) = let rest = distinct xs in if mem x rest then rest else x ∷ rest

-- `pending` and `result`
pub record Search : Type 0 where
  pub pending : List ℕ
  pub result : List ℕ

-- One child, if it is unseen.
pub visit : ℕ → Node → Search → Search
visit parent n s =
    if is_parent n.parent_id parent && not (mem n.id s.result)
    then record { pending = n.id ∷ s.pending; result = n.id ∷ s.result }
    else s

-- `unseen = children.get(parent, set()) - result`, which is added to `result` and to `pending`: the
-- children of a node are the rows that name it, and a child that two rows name is seen once.
pub visit_children : ℕ → List Node → Search → Search
unfolding visit
visit_children parent [] s = s
visit_children parent (n ∷ ns) s = visit_children parent ns (visit parent n s)

-- `while pending`, with fuel
pub search : ℕ → List Node → List ℕ → List ℕ → Option (List ℕ)
unfolding visit_children
search fuel hierarchy [] result = some result
search zero hierarchy (p ∷ ps) result = none
search (suc n) hierarchy (p ∷ ps) result =
    let s = visit_children p hierarchy (record { pending = ps; result = result }) in
    search n hierarchy s.pending s.result

-- `_expand_integer_hierarchy`. A round takes one id from `pending`, and an id enters it once.
pub expand_integer_hierarchy : List ℕ → List Node → Bool → Option (List ℕ)
unfolding distinct search
expand_integer_hierarchy selected hierarchy include_descendants =
    let chosen = distinct selected in
    if include_descendants
    then search (length chosen + length hierarchy) hierarchy chosen chosen
    else some chosen
