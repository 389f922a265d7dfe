-- ===== src/Matching/Examples.antt =====
-- A hierarchy with a cycle.
use global_news_intelligence.Prelude.{ℕ, ◌≡◌, ◌↔◌, refl, true, none, some, [], ◌∷◌, List, any}
use global_news_intelligence.Matching.{
  Node, mem, visit, visit_children, search, distinct, expand_integer_hierarchy,
}
use global_news_intelligence.Matching.Fuel.{expand_ends}
use global_news_intelligence.Matching.Closure.{Reaches, expand-Reaches}

abbrev tree : List Node
tree =
    record { id = 1; parent_id = some 3 }
    ∷ record { id = 2; parent_id = some 1 }
    ∷ record { id = 3; parent_id = some 2 }
    ∷ record { id = 4; parent_id = none }
    ∷ []

expand_ends_example : (out : List ℕ) × (expand_integer_hierarchy (1 ∷ 1 ∷ []) tree true ≡ some out)
expand_ends_example = expand_ends (1 ∷ 1 ∷ []) tree true

expand-Reaches_example : (mem 3 (3 ∷ 2 ∷ 1 ∷ []) ≡ true) ↔ Reaches (1 ∷ 1 ∷ []) tree 3
unfolding expand_integer_hierarchy search distinct visit_children visit any
expand-Reaches_example = expand-Reaches (1 ∷ 1 ∷ []) tree (3 ∷ 2 ∷ 1 ∷ []) refl 3
