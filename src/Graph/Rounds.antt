-- ===== src/Graph/Rounds.antt =====
-- What `_topological_order` returns: every node once, each behind its dependencies; and it returns.
use mathlib.Core.List.Perm
use mathlib.Core.List.{Perm}
use smc_ict_engine.Prelude.{
  true, is_some, ℕ, zero, suc, ◌+◌, ◌≤◌, ◌<◌, Bool, false, not, ◌≡◌, refl, sym, ap, ◌∙◌, Option,
  some, String, List, [], ◌∷◌, ◌++◌, arith, inl, inr, Bool-cases, length, all, All, keep, contains,
  map-append, append_assoc, append-nil, Result, ok, err, subst, Error, ◌⊎◌, cyclic_dependency,
  value_error, unknown_plugin, missing_dependency,
}
use smc_ict_engine.Prelude.Sort.{sort, insert_sorted}
use smc_ict_engine.Graph.Nodes.{
  ConfiguredNode, instance_ids, is_ready, node_le, ready_nodes, waiting_nodes, rounds,
  has_duplicate, topological_order,
}
use smc_ict_engine.Graph.Order.{
  IsOrdered, IsOrdered-append, round-perm, ready_nodes-ready, ready-IsOrdered,
}

length-insert_sorted {ℓ} :
    {A : Type ℓ} (le : A → A → Bool) (x : A) (xs : List A)
    → length (insert_sorted le x xs) ≡ suc (length xs)
unfolding insert_sorted
length-insert_sorted le x [] = refl
length-insert_sorted le x (y ∷ ys) = ground (arith, length-insert_sorted le x ys)

length-sort {ℓ} : {A : Type ℓ} (le : A → A → Bool) (xs : List A) → length (sort le xs) ≡ length xs
unfolding sort
length-sort le [] = refl
length-sort le (x ∷ xs) = length-insert_sorted le x (sort le xs) ∙ ap suc (length-sort le xs)

length-split {ℓ} :
    {A : Type ℓ} (p : A → Bool) (xs : List A)
    → length (keep p xs) + length (keep (λ x. not (p x)) xs) ≡ length xs
length-split p [] = refl
length-split p (x ∷ xs) = ground (arith, length-split p xs)

-- A round with a ready node leaves fewer nodes.
pub fewer_waiting :
    (completed : List String) (ns : List ConfiguredNode) (r : ConfiguredNode)
    (rs : List ConfiguredNode)
    → ready_nodes completed ns ≡ r ∷ rs
    → length (waiting_nodes completed ns) < length ns
unfolding ready_nodes
fewer_waiting completed ns r rs e = omega (
  arith,
  length-split (is_ready completed) ns,
  length-sort node_le (keep (is_ready completed) ns),
  ap length e,
)

keep_of_none {ℓ} :
    {A : Type ℓ} (p : A → Bool) (xs : List A) → length (keep p xs) ≡ 0 → All (λ x. p x ≡ false) xs
keep_of_none p [] h = tt
keep_of_none p (x ∷ xs) h = elim (Bool-cases (p x)) [
  | inl e ↦ absurd (omega (arith, rw e at h))
  | inr e ↦ (e, keep_of_none p xs (rw e at h))
]

pub ready_nodes_of_none :
    (completed : List String) (ns : List ConfiguredNode)
    → ready_nodes completed ns ≡ []
    → All (λ n. is_ready completed n ≡ false) ns
unfolding ready_nodes
ready_nodes_of_none completed ns e =
    keep_of_none (is_ready completed) ns
      (sym (length-sort node_le (keep (is_ready completed) ns)) ∙ ap length e)

-- The result is an order of the nodes, if it is not an error.
abbrev pub Orders : List ConfiguredNode → Option (Result (List ConfiguredNode)) → Type 0
Orders nodes result =
    ((ordered : List ConfiguredNode) × (result ≡ some (ok ordered))
      × Perm ordered nodes
      × IsOrdered [] ordered)
    ⊎ ((e : Error) × (result ≡ some (err e)))

rounds-Orders :
    (fuel : ℕ) (ordered remaining nodes : List ConfiguredNode)
    → length remaining ≤ fuel
    → IsOrdered [] ordered
    → Perm (ordered ++ remaining) nodes
    → Orders nodes (rounds fuel (instance_ids ordered) ordered remaining)
unfolding rounds
rounds-Orders zero ordered [] nodes h o p =
    inl (ordered, refl, subst (λ l. Perm l nodes) (append-nil ordered) p, o)
rounds-Orders (suc fuel) ordered [] nodes h o p =
    inl (ordered, refl, subst (λ l. Perm l nodes) (append-nil ordered) p, o)
rounds-Orders zero ordered (n ∷ ns) nodes h o p = absurd (omega (arith, h))
rounds-Orders (suc fuel) ordered (n ∷ ns) nodes h o p =
    round (ready_nodes (instance_ids ordered) (n ∷ ns)) refl
      (λ more left. rounds-Orders fuel (ordered ++ more) left nodes)
  where
    round :
        (ready : List ConfiguredNode)
        → ready_nodes (instance_ids ordered) (n ∷ ns) ≡ ready
        → ((more left : List ConfiguredNode)
            → length left ≤ fuel
            → IsOrdered [] (ordered ++ more)
            → Perm ((ordered ++ more) ++ left) nodes
            → Orders nodes (rounds fuel (instance_ids (ordered ++ more)) (ordered ++ more) left))
        → Orders nodes (elim ready [
          | [] ↦ some (err cyclic_dependency)
          | r ∷ rs ↦
              rounds fuel
                (instance_ids ordered ++ instance_ids (r ∷ rs))
                (ordered ++ r ∷ rs)
                (waiting_nodes (instance_ids ordered) (n ∷ ns))
        ])
    round [] e again = inr (cyclic_dependency, refl)
    round (r ∷ rs) e again =
        subst
          (λ ids.
            Orders nodes
              (rounds fuel ids (ordered ++ r ∷ rs) (waiting_nodes (instance_ids ordered) (n ∷ ns))))
          (map-append _ ordered (r ∷ rs))
          (again (r ∷ rs) (waiting_nodes (instance_ids ordered) (n ∷ ns))
            (omega (arith, h, fewer_waiting (instance_ids ordered) (n ∷ ns) r rs e))
            (IsOrdered-append [] ordered (r ∷ rs) o (
              ready-IsOrdered (instance_ids ordered) (r ∷ rs)
                (subst (All _) e (ready_nodes-ready (instance_ids ordered) (n ∷ ns)))))
            (subst (λ l. Perm l nodes) (sym (append_assoc ordered (r ∷ rs) _))
              (Perm.trans
                (Perm.append_left ordered (
                  subst (λ l. Perm (l ++ waiting_nodes (instance_ids ordered) (n ∷ ns)) (n ∷ ns)) e
                    (round-perm (instance_ids ordered) (n ∷ ns))))
                p)))

-- `_topological_order` always returns: it raises, or it gives an order in which each node stands
-- exactly once, behind all of its dependencies.
pub topological_order-Orders :
    (factories : List String) (nodes : List ConfiguredNode)
    → Orders nodes (topological_order factories nodes)
unfolding topological_order
topological_order-Orders factories nodes = elim (Bool-cases (has_duplicate (instance_ids nodes))) [
  | inl e ↦ rw e (inr (value_error, refl))
  | inr e ↦ rw e (elim (Bool-cases (all (λ n. contains factories n.plugin_id) nodes)) [
    | inr f ↦ rw f (inr (unknown_plugin, refl))
    | inl f ↦
        rw f
          (elim (Bool-cases (all (λ n. all (contains (instance_ids nodes)) n.depends_on) nodes)) [
            | inr g ↦ rw g (inr (missing_dependency, refl))
            | inl g ↦
                rw g
                  (rounds-Orders (length nodes) [] nodes nodes (omega arith) tt (Perm.refl nodes))
          ])
  ])
]

-- The order always returns, as `is_some` tells.
pub topological_order-is_some :
    (factories : List String) (nodes : List ConfiguredNode)
    → is_some (topological_order factories nodes) ≡ true
topological_order-is_some factories nodes = elim (topological_order-Orders factories nodes) [
  | inl (ordered, e, _, _) ↦ ap is_some e
  | inr (x, e) ↦ ap is_some e
]
