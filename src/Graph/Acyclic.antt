-- ===== src/Graph/Acyclic.antt =====
-- Nodes whose dependencies have no cycle are always ordered.
use smc_ict_engine.Prelude.{
  ℕ, zero, suc, ◌≤◌, ◌<◌, Bool, true, false, not, ◌||◌, ◌≡◌, refl, ap, some, String, List, [], ◌∷◌,
  ◌++◌, arith, inl, inr, Bool-cases, length, all, All, All-map, All-keep, All-both,
  cyclic_dependency, all→All, keep, contains, contains-append, ok, err, subst, eq_iff,
}
use smc_ict_engine.Prelude.Sort.{sort, insert_sorted}
use smc_ict_engine.Graph.Nodes.{
  ConfiguredNode, instance_ids, is_ready, node_le, ready_nodes, waiting_nodes, rounds,
  has_duplicate, topological_order,
}
use smc_ict_engine.Graph.Rounds.{fewer_waiting, ready_nodes_of_none}

-- Each node ranks above its dependencies.
abbrev pub IsRanked : (String → ℕ) → List ConfiguredNode → Type 0
IsRanked rank nodes = All (λ n. All (λ d. rank d < rank n.instance_id) n.depends_on) nodes

-- Each dependency is ordered, or remains.
abbrev IsKnown : List String → List ConfiguredNode → List ConfiguredNode → Type 0
IsKnown completed remaining nodes =
    All
      (λ n.
        All (λ d. (contains completed d || contains (instance_ids remaining) d) ≡ true)
          n.depends_on)
      nodes

find_node :
    (P : ConfiguredNode → Type 0) (ns : List ConfiguredNode) (id : String)
    → All P ns
    → contains (instance_ids ns) id ≡ true
    → (n : ConfiguredNode) × (n.instance_id ≡ id) × P n
find_node P [] id h c = cc
find_node P (n ∷ ns) id h c = elim (Bool-cases (contains (instance_ids ns) id)) [
  | inl e ↦ find_node P ns id h.1 e
  | inr e ↦ (n, ground (arith, eq_iff id n.instance_id), h.0)
]

find_unready :
    (P : String → Type 0) (completed ids : List String)
    → All P ids
    → all (contains completed) ids ≡ false
    → (d : String) × (contains completed d ≡ false) × P d
find_unready P completed [] h e = cc
find_unready P completed (d ∷ ds) h e = elim (Bool-cases (contains completed d)) [
  | inr f ↦ (d, f, h.0)
  | inl f ↦ find_unready P completed ds h.1 (ground arith)
]

-- Without a ready node the dependencies go down for ever.
no_descent :
    (rank : String → ℕ) (completed : List String) (ns : List ConfiguredNode)
    → IsRanked rank ns
    → IsKnown completed ns ns
    → All (λ n. is_ready completed n ≡ false) ns
    → (bound : ℕ) (id : String) → rank id < bound
    → contains (instance_ids ns) id ≡ true
    → ⊥
no_descent rank completed ns ranked known unready zero id h c = omega (arith, h)
no_descent rank completed ns ranked known unready (suc bound) id h c =
    let (n, same, (stuck, (down, there))) =
      find_node
        (λ n.
          (is_ready completed n ≡ false)
          × (All (λ d. rank d < rank n.instance_id) n.depends_on
              × All (λ d. (contains completed d || contains (instance_ids ns) d) ≡ true)
                  n.depends_on))
        ns id (All-both _ _ ns unready (All-both _ _ ns ranked known)) c in
    let (d, missing, (lower, left)) =
      find_unready
        (λ d.
          (rank d < rank n.instance_id)
          × ((contains completed d || contains (instance_ids ns) d) ≡ true))
        completed n.depends_on (All-both _ _ n.depends_on down there) stuck in
    no_descent rank completed ns ranked known unready bound d
      (omega (arith, h, lower, ap rank same)) (ground arith)

some_ready :
    (rank : String → ℕ) (completed : List String) (n : ConfiguredNode) (ns : List ConfiguredNode)
    → IsRanked rank (n ∷ ns)
    → IsKnown completed (n ∷ ns) (n ∷ ns)
    → ready_nodes completed (n ∷ ns) ≡ []
    → ⊥
some_ready rank completed n ns ranked known e =
    no_descent rank completed (n ∷ ns) ranked known (ready_nodes_of_none completed (n ∷ ns) e)
      (suc (rank n.instance_id)) n.instance_id (omega arith)
      (ground (arith, eq_iff n.instance_id n.instance_id))

contains-insert_sorted :
    (d : String) (n : ConfiguredNode) (ns : List ConfiguredNode)
    → contains (instance_ids (insert_sorted node_le n ns)) d ≡ contains (instance_ids (n ∷ ns)) d
unfolding insert_sorted
contains-insert_sorted d n [] = refl
contains-insert_sorted d n (m ∷ ms) = elim (Bool-cases (node_le n m)) [
  | inl e ↦ rw e
  | inr e ↦ rw e (ground (arith, contains-insert_sorted d n ms))
]

contains-sort :
    (d : String) (ns : List ConfiguredNode)
    → contains (instance_ids (sort node_le ns)) d ≡ contains (instance_ids ns) d
unfolding sort
contains-sort d [] = refl
contains-sort d (n ∷ ns) =
    ground (arith, contains-insert_sorted d n (sort node_le ns), contains-sort d ns)

contains-split :
    (p : ConfiguredNode → Bool) (d : String) (ns : List ConfiguredNode)
    → (contains (instance_ids (keep p ns)) d
        || contains (instance_ids (keep (λ n. not (p n)) ns)) d)
      ≡ contains (instance_ids ns) d
contains-split p d [] = refl
contains-split p d (n ∷ ns) = elim (Bool-cases (p n)) [
  | inl e ↦ rw e (ground (arith, contains-split p d ns))
  | inr e ↦ rw e (ground (arith, contains-split p d ns))
]

-- What a round orders is no longer among what remains, and no dependency is lost.
known_after_round :
    (completed : List String) (ns : List ConfiguredNode) (d : String)
    → (contains completed d || contains (instance_ids ns) d) ≡ true
    → (contains (completed ++ instance_ids (ready_nodes completed ns)) d
        || contains (instance_ids (waiting_nodes completed ns)) d)
      ≡ true
unfolding ready_nodes
known_after_round completed ns d h = ground (
  arith,
  contains-append completed (instance_ids (sort node_le (keep (is_ready completed) ns))) d,
  contains-sort d (keep (is_ready completed) ns),
  contains-split (is_ready completed) d ns,
)

rounds_acyclic :
    (rank : String → ℕ) (fuel : ℕ) (completed : List String)
    (ordered remaining : List ConfiguredNode)
    → length remaining ≤ fuel
    → IsRanked rank remaining
    → IsKnown completed remaining remaining
    → (result : List ConfiguredNode) × (rounds fuel completed ordered remaining ≡ some (ok result))
unfolding rounds
rounds_acyclic rank zero completed ordered [] h ranked known = (ordered, refl)
rounds_acyclic rank zero completed ordered (n ∷ ns) h ranked known = absurd (omega (arith, h))
rounds_acyclic rank (suc fuel) completed ordered [] h ranked known = (ordered, refl)
rounds_acyclic rank (suc fuel) completed ordered (n ∷ ns) h ranked known =
    round (ready_nodes completed (n ∷ ns)) refl (
      rounds_acyclic rank fuel (completed ++ instance_ids (ready_nodes completed (n ∷ ns)))
        (ordered ++ ready_nodes completed (n ∷ ns)) (waiting_nodes completed (n ∷ ns)))
  where
    round :
        (ready : List ConfiguredNode)
        → ready_nodes completed (n ∷ ns) ≡ ready
        → (length (waiting_nodes completed (n ∷ ns)) ≤ fuel
            → IsRanked rank (waiting_nodes completed (n ∷ ns))
            → IsKnown
                (completed ++ instance_ids (ready_nodes completed (n ∷ ns)))
                (waiting_nodes completed (n ∷ ns))
                (waiting_nodes completed (n ∷ ns))
            → (result : List ConfiguredNode) × (rounds fuel
                  (completed ++ instance_ids (ready_nodes completed (n ∷ ns)))
                  (ordered ++ ready_nodes completed (n ∷ ns))
                  (waiting_nodes completed (n ∷ ns))
                ≡ some (ok result)))
        → (result : List ConfiguredNode) × (elim ready [
          | [] ↦ some (err cyclic_dependency)
          | r ∷ rs ↦
              rounds fuel
                (completed ++ instance_ids (r ∷ rs))
                (ordered ++ r ∷ rs)
                (waiting_nodes completed (n ∷ ns))
        ]
            ≡ some (ok result))
    round [] e again = absurd (some_ready rank completed n ns ranked known e)
    round (r ∷ rs) e again =
        subst
          (λ ready.
            (result : List ConfiguredNode) × (rounds fuel (completed ++ instance_ids ready)
                (ordered ++ ready) (waiting_nodes completed (n ∷ ns))
              ≡ some (ok result)))
          e
          (again (omega (arith, h, fewer_waiting completed (n ∷ ns) r rs e))
            (All-keep (λ m. All (λ d. rank d < rank m.instance_id) m.depends_on)
              (λ m. not (is_ready completed m)) (n ∷ ns) ranked)
            (All-map
              (λ m deps. All-map (λ d. known_after_round completed (n ∷ ns) d) m.depends_on deps)
              (waiting_nodes completed (n ∷ ns))
              (All-keep
                (λ m.
                  All (λ d. (contains completed d || contains (instance_ids (n ∷ ns)) d) ≡ true)
                    m.depends_on)
                (λ m. not (is_ready completed m)) (n ∷ ns) known)))

-- Nodes with distinct identifiers, known plugins and known dependencies are ordered, if each ranks
-- above its dependencies.
pub topological_order_acyclic :
    (factories : List String) (nodes : List ConfiguredNode) (rank : String → ℕ)
    → has_duplicate (instance_ids nodes) ≡ false
    → all (λ n. contains factories n.plugin_id) nodes ≡ true
    → all (λ n. all (contains (instance_ids nodes)) n.depends_on) nodes ≡ true
    → IsRanked rank nodes
    → (result : List ConfiguredNode) × (topological_order factories nodes ≡ some (ok result))
unfolding topological_order
topological_order_acyclic factories nodes rank distinct plugins known ranked = rw distinct (
    rw plugins (
      rw known (
        rounds_acyclic rank (length nodes) [] [] nodes (omega arith) ranked
          (All-map (λ n deps. all→All _ n.depends_on deps) nodes (all→All _ nodes known)))))
