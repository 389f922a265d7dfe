-- ===== src/Matching/Fuel.antt =====
-- The rounds of `while pending` in `_expand_integer_hierarchy`.
use global_news_intelligence.Prelude.{
  ℕ, zero, suc, ◌+◌, ◌≤◌, ◌≡◌, refl, ◌==◌, Bool, true, false, not, ◌&&◌, some, List, [], ◌∷◌, any,
  count, length, All, All-mono, arith, Bool-cases, inl, inr,
}
use global_news_intelligence.Matching.{
  Node, Search, mem, is_parent, visit, visit_children, search, distinct, expand_integer_hierarchy,
}

-- The rows whose id is not in the result.
abbrev unseen : List ℕ → List Node → ℕ
unseen r h = count (λ (n : Node). not (mem n.id r)) h

abbrev is_id : ℕ → Node → Bool
is_id x n = n.id == x

unseen-le : (x : ℕ) (r : List ℕ) (h : List Node) → unseen (x ∷ r) h ≤ unseen r h
unfolding count any
unseen-le x r [] = omega arith
unseen-le x r (n ∷ ns) = ground (arith, unseen-le x r ns)

unseen-lt :
    (x : ℕ) (r : List ℕ) (h : List Node)
    → any (is_id x) h ≡ true
    → mem x r ≡ false
    → unseen (x ∷ r) h + 1 ≤ unseen r h
unfolding count any
unseen-lt x r [] e m = absurd (cc)
unseen-lt x r (n ∷ ns) e m = elim (Bool-cases (n.id == x)) [
  | inl here ↦
      let same : n.id ≡ x = ground arith in
      let new : mem n.id r ≡ false = rw same m in ground (arith, unseen-le x r ns)
  | inr later ↦ ground (arith, unseen-lt x r ns)
]

-- What a search has still to do.
abbrev work : Search → List Node → ℕ
work s h = length s.pending + unseen s.result h

visit-work :
    (parent : ℕ) (n : Node) (h : List Node) (s : Search)
    → any (is_id n.id) h ≡ true
    → work (visit parent n s) h ≤ work s h
unfolding visit
visit-work parent n h s e =
    elim (Bool-cases (is_parent n.parent_id parent && not (mem n.id s.result))) [
      | inr miss ↦ rw miss (omega arith)
      | inl hit ↦
          let new : mem n.id s.result ≡ false = ground arith in
          rw hit (omega (arith, unseen-lt n.id s.result h e new))
    ]

visit_children-work :
    (parent : ℕ) (ns h : List Node) (s : Search)
    → All (λ (n : Node). any (is_id n.id) h ≡ true) ns
    → work (visit_children parent ns s) h ≤ work s h
unfolding visit_children
visit_children-work parent [] h s v = omega arith
visit_children-work parent (n ∷ ns) h s v =
    omega
      (arith, visit-work parent n h s v.0, visit_children-work parent ns h (visit parent n s) v.1)

own_ids : (h : List Node) → All (λ (n : Node). any (is_id n.id) h ≡ true) h
unfolding any
own_ids [] = tt
own_ids (n ∷ ns) = (ground arith, All-mono _ _ ns (λ m e. ground arith) (own_ids ns))

search_ends :
    (fuel : ℕ) (h : List Node) (ps r : List ℕ)
    → length ps + unseen r h ≤ fuel
    → (out : List ℕ) × (search fuel h ps r ≡ some out)
unfolding search
search_ends fuel h [] r k = (r, refl)
search_ends zero h (p ∷ ps) r k = absurd (omega arith)
search_ends (suc n) h (p ∷ ps) r k =
    search_ends n h (visit_children p h (record { pending = ps; result = r })).pending
      (visit_children p h (record { pending = ps; result = r })).result
      (omega (arith, visit_children-work p h h (record { pending = ps; result = r }) (own_ids h)))

unseen-length : (r : List ℕ) (h : List Node) → unseen r h ≤ length h
unfolding count
unseen-length r [] = omega arith
unseen-length r (n ∷ ns) = ground (arith, unseen-length r ns)

-- The search always ends with a result: one round for each selected id and each row is enough.
pub expand_ends :
    (selected : List ℕ) (h : List Node) (include_descendants : Bool)
    → (out : List ℕ) × (expand_integer_hierarchy selected h include_descendants ≡ some out)
unfolding expand_integer_hierarchy
expand_ends selected h false = (distinct selected, refl)
expand_ends selected h true =
    search_ends (length (distinct selected) + length h) h (distinct selected) (distinct selected)
      (omega (arith, unseen-length (distinct selected) h))
