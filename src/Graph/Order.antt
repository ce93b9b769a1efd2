-- ===== src/Graph/Order.antt =====
-- One round of `_topological_order`: the nodes that it orders are ready, and none is lost.
use mathlib.Core.List.Perm
use mathlib.Core.List.{Perm, perm_middle}
use smc_ict_engine.Prelude.{
  Bool, true, not, ◌≡◌, refl, sym, String, List, [], ◌∷◌, ◌++◌, arith, inl, inr, Bool-cases, all,
  All, All-map, keep, contains, contains-append, append_assoc, append-nil, subst,
}
use smc_ict_engine.Prelude.Sort.{sort-perm, sort-All}
use smc_ict_engine.Graph.Nodes.{
  ConfiguredNode, instance_ids, is_ready, node_le, ready_nodes, waiting_nodes,
}

-- Each node's dependencies are among `seen` and the nodes before it.
abbrev pub IsOrdered : List String → List ConfiguredNode → Type 0
IsOrdered seen [] = Unit
IsOrdered seen (n ∷ ns) = (is_ready seen n ≡ true) × IsOrdered (seen ++ n.instance_id ∷ []) ns

all-contains_append :
    (seen more ids : List String)
    → all (contains seen) ids ≡ true
    → all (contains (seen ++ more)) ids ≡ true
all-contains_append seen more [] h = refl
all-contains_append seen more (x ∷ xs) h =
    ground (arith, contains-append seen more x, all-contains_append seen more xs)

-- Nodes that are ready together may stand in any order.
pub ready-IsOrdered :
    (seen : List String) (ns : List ConfiguredNode)
    → All (λ n. is_ready seen n ≡ true) ns
    → IsOrdered seen ns
ready-IsOrdered seen [] h = tt
ready-IsOrdered seen (n ∷ ns) h = (
  h.0,
  ready-IsOrdered (seen ++ n.instance_id ∷ []) ns
      (All-map (λ m. all-contains_append seen (n.instance_id ∷ []) m.depends_on) ns h.1),
)

pub IsOrdered-append :
    (seen : List String) (xs ys : List ConfiguredNode)
    → IsOrdered seen xs
    → IsOrdered (seen ++ instance_ids xs) ys
    → IsOrdered seen (xs ++ ys)
IsOrdered-append seen [] ys hx hy = rw (append-nil seen) at hy
IsOrdered-append seen (x ∷ xs) ys hx hy = (
  hx.0,
  IsOrdered-append (seen ++ x.instance_id ∷ []) xs ys hx.1 (
      subst (λ s. IsOrdered s ys) (sym (append_assoc seen (x.instance_id ∷ []) (instance_ids xs)))
        hy),
)

pub keep_passes :
    (p : ConfiguredNode → Bool) (ns : List ConfiguredNode) → All (λ n. p n ≡ true) (keep p ns)
keep_passes p [] = tt
keep_passes p (n ∷ ns) = elim (Bool-cases (p n)) [
  | inl e ↦ rw e (e, keep_passes p ns)
  | inr e ↦ rw e (keep_passes p ns)
]

split-perm :
    (p : ConfiguredNode → Bool) (ns : List ConfiguredNode)
    → Perm (keep p ns ++ keep (λ n. not (p n)) ns) ns
split-perm p [] = Perm.refl _
split-perm p (n ∷ ns) = elim (Bool-cases (p n)) [
  | inl e ↦ rw e (Perm.cons n (split-perm p ns))
  | inr e ↦ rw e (
      Perm.trans (perm_middle (keep p ns) (keep (λ m. not (p m)) ns))
        (Perm.cons n (split-perm p ns)))
]

-- A round moves nodes from those that remain to those that are ordered.
pub round-perm :
    (completed : List String) (ns : List ConfiguredNode)
    → Perm (ready_nodes completed ns ++ waiting_nodes completed ns) ns
unfolding ready_nodes
round-perm completed ns =
    Perm.trans
      (Perm.append_right (waiting_nodes completed ns)
        (sort-perm node_le (keep (is_ready completed) ns)))
      (split-perm (is_ready completed) ns)

pub ready_nodes-ready :
    (completed : List String) (ns : List ConfiguredNode)
    → All (λ n. is_ready completed n ≡ true) (ready_nodes completed ns)
unfolding ready_nodes
ready_nodes-ready completed ns = sort-All node_le _ _ (keep_passes (is_ready completed) ns)
