-- ===== src/Matching/Closure.antt =====
-- The result of `_expand_integer_hierarchy` against the ids that can be reached in the hierarchy.
use global_news_intelligence.Prelude.{
  ℕ, zero, suc, ◌+◌, ◌≡◌, ◌↔◌, ◌⊎◌, refl, sym, subst, ◌==◌, Bool, true, not, ◌&&◌, some, List, [],
  ◌∷◌, any, length, arith, Bool-cases, inl, inr,
}
use global_news_intelligence.Matching.{
  Node, Search, mem, is_parent, visit, visit_children, search, distinct, expand_integer_hierarchy,
}

-- A row that makes `x` a child of `parent`.
abbrev pub is_edge : ℕ → ℕ → Node → Bool
is_edge parent x n = n.id == x && is_parent n.parent_id parent

-- The ids below the selected ones.
pub data Reaches (selected : List ℕ) (h : List Node) : ℕ → Type 0 where
  chosen : {x : ℕ} → mem x selected ≡ true → Reaches selected h x
  below :
      {parent x : ℕ}
      → Reaches selected h parent
      → any (is_edge parent x) h ≡ true
      → Reaches selected h x

mem-distinct : (x : ℕ) (xs : List ℕ) → mem x (distinct xs) ≡ mem x xs
unfolding distinct any
mem-distinct x [] = refl
mem-distinct x (y ∷ ys) = elim (Bool-cases (mem y (distinct ys))) [
  | inr new ↦ rw new (ground (arith, mem-distinct x ys))
  | inl old ↦ elim (Bool-cases (y == x)) [
    | inr other ↦ rw old (ground (arith, mem-distinct x ys))
    | inl same ↦
        let eq : y ≡ x = ground arith in
        let here : mem x (distinct ys) ≡ true = subst (λ z. mem z (distinct ys) ≡ true) eq old in
        rw old (ground (arith, mem-distinct x ys))
  ]
]

-- What the visit of some rows does, seen from outside.
record Visited (parent : ℕ) (ns : List Node) (s s' : Search) : Type 0 where
  grows : (x : ℕ) → mem x s.result ≡ true → mem x s'.result ≡ true
  keeps : (x : ℕ) → mem x s.pending ≡ true → mem x s'.pending ≡ true
  fresh : (x : ℕ) → mem x s'.result ≡ true → (mem x s.result ≡ true) ⊎ (mem x s'.pending ≡ true)
  covers : (x : ℕ) → any (is_edge parent x) ns ≡ true → mem x s'.result ≡ true

visit-Visited : (parent : ℕ) (n : Node) (s : Search) → Visited parent (n ∷ []) s (visit parent n s)
unfolding visit any
visit-Visited parent n s =
    elim (Bool-cases (is_parent n.parent_id parent && not (mem n.id s.result))) [
      | inl hit ↦ rw hit (record {
        grows = λ x m. ground arith;
        keeps = λ x m. ground arith;
        fresh = λ x m. elim (Bool-cases (n.id == x)) [
          | inl e ↦ inr (ground arith)
          | inr e ↦ inl (ground arith)
        ];
        covers = λ x m. ground arith;
      })
      | inr miss ↦ rw miss (record {
        grows = λ x m. m;
        keeps = λ x m. m;
        fresh = λ x m. inl m;
        covers = λ x m.
            let same : n.id ≡ x = ground arith in
            let known : mem n.id s.result ≡ true = ground arith in
            subst (λ y. mem y s.result ≡ true) same known;
      })
    ]

visit_children-Visited :
    (parent : ℕ) (ns : List Node) (s : Search) → Visited parent ns s (visit_children parent ns s)
unfolding visit_children any
visit_children-Visited parent [] s = record {
  grows = λ x m. m;
  keeps = λ x m. m;
  fresh = λ x m. inl m;
  covers = λ x m. absurd (cc);
}
visit_children-Visited parent (n ∷ ns) s =
    let one = visit-Visited parent n s in
    let rest = visit_children-Visited parent ns (visit parent n s) in
    record {
      grows = λ x m. rest.grows x (one.grows x m);
      keeps = λ x m. rest.keeps x (one.keeps x m);
      fresh = λ x m. elim (rest.fresh x m) [
        | inr p ↦ inr p
        | inl r ↦ elim (one.fresh x r) [ inl q ↦ inl q | inr q ↦ inr (rest.keeps x q) ]
      ];
      covers = λ x m. elim (Bool-cases (is_edge parent x n)) [
        | inl e ↦ rest.grows x (one.covers x (ground arith))
        | inr e ↦ rest.covers x (ground arith)
      ];
    }

-- Every child of `parent` is in the list.
Closed : List Node → List ℕ → ℕ → Type 0
Closed h r parent = (x : ℕ) → any (is_edge parent x) h ≡ true → mem x r ≡ true

-- Once the search ends, the result contains what it began with and every child of its members.
search-Closed :
    (fuel : ℕ) (h : List Node) (ps r out : List ℕ)
    → ((y : ℕ) → mem y r ≡ true → (mem y ps ≡ true) ⊎ Closed h r y)
    → search fuel h ps r ≡ some out
    → ((y : ℕ) → mem y r ≡ true → mem y out ≡ true) × ((y : ℕ) → mem y out ≡ true → Closed h out y)
unfolding search Closed any
search-Closed fuel h [] r out inv k =
    let same : r ≡ out = ground arith in
    subst
      (λ o. ((y : ℕ) → mem y r ≡ true → mem y o ≡ true) × ((y : ℕ) → mem y o ≡ true → Closed h o y))
      same (λ y m. m, λ y m. elim (inv y m) [ inl e ↦ absurd (cc) | inr c ↦ c ])
search-Closed zero h (p ∷ ps) r out inv k = absurd (ground arith)
search-Closed (suc n) h (p ∷ ps) r out inv k =
    let v = visit_children-Visited p h (record { pending = ps; result = r }) in
    let s = visit_children p h (record { pending = ps; result = r }) in
    let (kept, closed) =
      search-Closed n h s.pending s.result out
        (λ y m. elim (v.fresh y m) [
          | inr q ↦ inl q
          | inl old ↦ elim (inv y old) [
            | inr c ↦ inr (λ x e. v.grows x (c x e))
            | inl q ↦ elim (Bool-cases (p == y)) [
              | inl here ↦
                  let same : p ≡ y = ground arith in
                  inr (subst (λ z. Closed h s.result z) same v.covers)
              | inr other ↦ inl (v.keeps y (ground arith))
            ]
          ]
        ])
        k in
    (λ y m. kept y (v.grows y m), closed)

-- What a visit adds are children.
record Adds (parent : ℕ) (ns : List Node) (s s' : Search) : Type 0 where
  result :
      (x : ℕ)
      → mem x s'.result ≡ true
      → (mem x s.result ≡ true) ⊎ (any (is_edge parent x) ns ≡ true)
  pending :
      (x : ℕ)
      → mem x s'.pending ≡ true
      → (mem x s.pending ≡ true) ⊎ (any (is_edge parent x) ns ≡ true)

visit-Adds : (parent : ℕ) (n : Node) (s : Search) → Adds parent (n ∷ []) s (visit parent n s)
unfolding visit any
visit-Adds parent n s =
    elim (Bool-cases (is_parent n.parent_id parent && not (mem n.id s.result))) [
      | inr miss ↦ rw miss (record { result = λ x m. inl m; pending = λ x m. inl m })
      | inl hit ↦ rw hit (record {
        result = λ x m. elim (Bool-cases (n.id == x)) [
          | inl e ↦ inr (ground arith)
          | inr e ↦ inl (ground arith)
        ];
        pending = λ x m. elim (Bool-cases (n.id == x)) [
          | inl e ↦ inr (ground arith)
          | inr e ↦ inl (ground arith)
        ];
      })
    ]

visit_children-Adds :
    (parent : ℕ) (ns : List Node) (s : Search) → Adds parent ns s (visit_children parent ns s)
unfolding visit_children any
visit_children-Adds parent [] s = record { result = λ x m. inl m; pending = λ x m. inl m }
visit_children-Adds parent (n ∷ ns) s =
    let one = visit-Adds parent n s in
    let rest = visit_children-Adds parent ns (visit parent n s) in
    record {
      result = λ x m. elim (rest.result x m) [
        | inr e ↦ inr (ground arith)
        | inl q ↦ elim (one.result x q) [ inl r ↦ inl r | inr e ↦ inr (ground arith) ]
      ];
      pending = λ x m. elim (rest.pending x m) [
        | inr e ↦ inr (ground arith)
        | inl q ↦ elim (one.pending x q) [ inl r ↦ inl r | inr e ↦ inr (ground arith) ]
      ];
    }

search-Reaches :
    (fuel : ℕ) (selected : List ℕ) (h : List Node) (ps r out : List ℕ)
    → ((y : ℕ) → mem y r ≡ true → Reaches selected h y)
    → ((y : ℕ) → mem y ps ≡ true → Reaches selected h y)
    → search fuel h ps r ≡ some out
    → (y : ℕ) → mem y out ≡ true
    → Reaches selected h y
unfolding search any
search-Reaches fuel selected h [] r out inv todo k y m =
    let same : r ≡ out = ground arith in inv y (subst (λ o. mem y o ≡ true) (sym same) m)
search-Reaches zero selected h (p ∷ ps) r out inv todo k y m = absurd (ground arith)
search-Reaches (suc n) selected h (p ∷ ps) r out inv todo k y m =
    let s = visit_children p h (record { pending = ps; result = r }) in
    let a = visit_children-Adds p h (record { pending = ps; result = r }) in
    let root : Reaches selected h p = todo p (ground arith) in
    search-Reaches n selected h s.pending s.result out
      (λ x q. elim (a.result x q) [ inl old ↦ inv x old | inr e ↦ below root e ])
      (λ x q. elim (a.pending x q) [ inl old ↦ todo x (ground arith) | inr e ↦ below root e ]) k y m

Reaches-in :
    (selected : List ℕ) (h : List Node) (out : List ℕ)
    → ((y : ℕ) → mem y selected ≡ true → mem y out ≡ true)
    → ((y : ℕ) → mem y out ≡ true → Closed h out y)
    → (x : ℕ) → Reaches selected h x
    → mem x out ≡ true
unfolding Closed
Reaches-in selected h out start step x (chosen m) = start x m
Reaches-in selected h out start step x (below {parent = p} r e) =
    step p (Reaches-in selected h out start step p r) x e

-- With its descendants, a selection expands to the ids that can be reached from it by going from a
-- row to the rows that name it as their parent, and to no others.
pub expand-Reaches :
    (selected : List ℕ) (h : List Node) (out : List ℕ)
    → expand_integer_hierarchy selected h true ≡ some out
    → (x : ℕ) → (mem x out ≡ true) ↔ Reaches selected h x
unfolding expand_integer_hierarchy
expand-Reaches selected h out k x =
    let start : (y : ℕ) → mem y (distinct selected) ≡ true → Reaches selected h y =
      λ y m. chosen (subst (λ b. b ≡ true) (mem-distinct y selected) m) in
    let (kept, closed) =
      search-Closed (length (distinct selected) + length h) h (distinct selected)
        (distinct selected) out (λ y m. inl m) k in
    (
      search-Reaches (length (distinct selected) + length h) selected h (distinct selected)
          (distinct selected) out start start k x,
      Reaches-in selected h out (λ y m. kept y (rw (mem-distinct y selected) m)) closed x,
    )
