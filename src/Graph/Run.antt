-- ===== src/Graph/Run.antt =====
-- What `IndicatorGraph.execute` returns, and what it does not raise.
use smc_ict_engine.Prelude.{
  ℕ, ◌≤◌, Bool, true, false, not, ◌≡◌, ◌≢◌, refl, sym, ap, ◌∙◌, Option, none, some, String, List,
  [], ◌∷◌, ◌++◌, arith, All, All-append, all, contains, map, map-append, append_assoc, append-nil,
  str_eq, eq_iff, lookup, Result, ok, err, value_error, key_error, ◌>>=◌, ◌>>◌, raise_if,
  bind-eq-ok, raise_if-passed, subst, Unpacked, err-ne-ok, is_some, ltb,
}
use smc_ict_engine.Domain.{Observation}
use smc_ict_engine.Graph.Nodes.{ConfiguredNode, instance_ids, is_ready}
use smc_ict_engine.Graph.Order.{IsOrdered}
use smc_ict_engine.Graph.Execute.{
  RunContext, role_names, Plugin, Observations, gather, ids_eqb, known_after, other_timeframe,
  check_observation, wrong_role, execute_node, execute_from, execute,
}

abbrev pub IsKnownBy : ℕ → Option ℕ → Type 0
IsKnownBy time none = Unit
IsKnownBy time (some known) = known ≤ time

-- The observation is of its node, of the context's instrument, and known by the evaluation time.
abbrev pub IsCausal : RunContext → String × Observation → Type 0
IsCausal context (id, o) =
    (o.signal_id ≡ id)
    × (o.instrument_id ≡ context.instrument_id)
    × IsKnownBy context.evaluation_time_ms o.known_time_ms

IsKnownBy-known_after :
    (time : ℕ) (o : Observation) → known_after time o ≡ false → IsKnownBy time o.known_time_ms
IsKnownBy-known_after time o = known_by o.known_time_ms
  where
    known_by :
        (known : Option ℕ)
        → elim known [ none ↦ false | some k ↦ ltb time k ] ≡ false
        → IsKnownBy time known
    known_by none h = tt
    known_by (some k) h = ground arith

check_observation-IsCausal :
    (n : ConfiguredNode) (context : RunContext) (o o' : Observation)
    → check_observation n context o ≡ ok o'
    → IsCausal context (n.instance_id, o')
unfolding check_observation
check_observation-IsCausal n context o o' e =
    let (same, e₁) = raise_if-passed (not (str_eq o.signal_id n.instance_id)) value_error _ e in
    let (market, e₂) =
      raise_if-passed (not (str_eq o.instrument_id context.instrument_id)) value_error _ e₁ in
    let (_, e₃) = raise_if-passed (other_timeframe n o) value_error _ e₂ in
    let (_, e₄) = raise_if-passed (not (ids_eqb o.dependency_ids n.depends_on)) value_error _ e₃ in
    let (_, e₅) =
      raise_if-passed (not (str_eq o.parameter_hash n.parameter_hash)) value_error _ e₄ in
    let (known, e₆) =
      raise_if-passed (known_after context.evaluation_time_ms o) value_error (ok o) e₅ in
    subst (λ r. Unpacked (λ v. IsCausal context (n.instance_id, v)) r) e₆
      (
        ground (arith, eq_iff o.signal_id n.instance_id),
        ground (arith, eq_iff o.instrument_id context.instrument_id),
        IsKnownBy-known_after context.evaluation_time_ms o known,
      )

module _ (factories : ConfiguredNode → Plugin) (context : RunContext) where
  execute_node-IsCausal :
      (observations : Observations) (n : ConfiguredNode) (o : Observation)
      → execute_node factories context observations n ≡ ok o
      → IsCausal context (n.instance_id, o)
  unfolding execute_node
  execute_node-IsCausal observations n o e =
      let (_, e₁) = raise_if-passed (not (contains (role_names context) n.role)) value_error _ e in
      let (_, e₂) = raise_if-passed (wrong_role factories context n) value_error _ e₁ in
      let (dependencies, _, e₃) = bind-eq-ok (gather observations n.depends_on) _ e₂ in
      let (made, _, e₄) = bind-eq-ok ((factories n).evaluate context dependencies) _ e₃ in
      check_observation-IsCausal n context made o e₄

  execute_from_lem :
      (nodes : List ConfiguredNode) (observations done : Observations)
      → All (IsCausal context) observations
      → execute_from factories context observations nodes ≡ ok done
      → (map (λ e. e.0) done ≡ map (λ e. e.0) observations ++ instance_ids nodes)
        × All (IsCausal context) done
  unfolding execute_from
  execute_from_lem [] observations done h e =
      subst
        (λ r.
          Unpacked
            (λ d. (map (λ e. e.0) d ≡ map (λ e. e.0) observations ++ []) × All (IsCausal context) d)
            r)
        e (sym (append-nil _), h)
  execute_from_lem (n ∷ ns) observations done h e =
      let (o, made, e₁) = bind-eq-ok (execute_node factories context observations n) _ e in
      let (ids, causal) =
        execute_from_lem ns (observations ++ (n.instance_id, o) ∷ []) done
          (All-append (IsCausal context) observations ((n.instance_id, o) ∷ []) h
            (execute_node-IsCausal observations n o made, tt))
          e₁ in
      (
        ids
            ∙ ap (λ l. l ++ instance_ids ns) (map-append _ observations ((n.instance_id, o) ∷ []))
            ∙ append_assoc _ (n.instance_id ∷ []) (instance_ids ns),
        causal,
      )

  -- A run that returns has one observation for each node, in order, each under its node's
  -- identifier and for the context's instrument; none was known after the evaluation time.
  pub execute-IsCausal :
      (ordered : List ConfiguredNode) (observations : Observations)
      → execute factories context ordered ≡ ok observations
      → (map (λ e. e.0) observations ≡ instance_ids ordered) × All (IsCausal context) observations
  unfolding execute
  execute-IsCausal ordered observations e = execute_from_lem ordered [] observations tt e

lookup_of_contains :
    (observations : Observations) (id : String)
    → contains (map (λ e. e.0) observations) id ≡ true
    → is_some (lookup id observations) ≡ true
lookup_of_contains [] id h = cc
lookup_of_contains ((k, o) ∷ rest) id h =
    ground (arith, eq_iff k id, eq_iff id k, lookup_of_contains rest id)

gather_total :
    (observations : Observations) (ids : List String)
    → all (contains (map (λ e. e.0) observations)) ids ≡ true
    → (gathered : Observations) × (gather observations ids ≡ ok gathered)
unfolding gather
gather_total observations [] h = ([], refl)
gather_total observations (d ∷ ds) h =
    found (lookup d observations) (lookup_of_contains observations d (ground arith))
      (gather_total observations ds (ground arith))
  where
    found :
        (o : Option Observation)
        → is_some o ≡ true
        → ((rest : Observations) × (gather observations ds ≡ ok rest))
        → (gathered : Observations) × (elim o [
          | none ↦ err key_error
          | some v ↦ elim (gather observations ds) [ ok rest ↦ ok ((d, v) ∷ rest) | err e ↦ err e ]
        ]
            ≡ ok gathered)
    found none h r = cc
    found (some v) h (rest, e) = rw e ((d, v) ∷ rest, refl)

ok-ne {ℓ} : {Y : Type ℓ} (y : Y) → ok y ≢ err key_error
ok-ne y e = cc

raise_if-ne {ℓ} :
    {Y : Type ℓ} (test : Bool) (rest : Result Y)
    → rest ≢ err key_error
    → (raise_if test value_error >> rest) ≢ err key_error
raise_if-ne true rest h e = cc
raise_if-ne false rest h e = h e

bind-ne {κ ℓ} :
    {X : Type κ} {Y : Type ℓ} (m : Result X) (f : X → Result Y)
    → m ≢ err key_error
    → ((x : X) → m ≡ ok x → f x ≢ err key_error)
    → (m >>= f) ≢ err key_error
bind-ne (ok x) f h k e = k x refl e
bind-ne (err x) f h k e = h (cc)

check_observation-ne :
    (n : ConfiguredNode) (context : RunContext) (o : Observation)
    → check_observation n context o ≢ err key_error
unfolding check_observation
check_observation-ne n context o = raise_if-ne (not (str_eq o.signal_id n.instance_id)) _ (
    raise_if-ne (not (str_eq o.instrument_id context.instrument_id)) _ (
      raise_if-ne (other_timeframe n o) _ (
        raise_if-ne (not (ids_eqb o.dependency_ids n.depends_on)) _ (
          raise_if-ne (not (str_eq o.parameter_hash n.parameter_hash)) _
            (raise_if-ne (known_after context.evaluation_time_ms o) _ (ok-ne o))))))

module _ (factories : ConfiguredNode → Plugin) (context : RunContext)
    (finds : (n : ConfiguredNode) (given : Observations)
      → (factories n).evaluate context given ≢ err key_error) where
  execute_node-ne :
      (observations : Observations) (n : ConfiguredNode)
      → is_ready (map (λ e. e.0) observations) n ≡ true
      → execute_node factories context observations n ≢ err key_error
  unfolding execute_node
  execute_node-ne observations n ready =
      let (gathered, e) = gather_total observations n.depends_on ready in
      raise_if-ne (not (contains (role_names context) n.role)) _ (
        raise_if-ne (wrong_role factories context n) _ (
          bind-ne (gather observations n.depends_on) _ (λ f. err-ne-ok (sym f ∙ e))
            λ given _.
              bind-ne ((factories n).evaluate context given) _ (finds n given)
                λ o _. check_observation-ne n context o))

  execute_from-ne :
      (nodes : List ConfiguredNode) (observations : Observations)
      → IsOrdered (map (λ e. e.0) observations) nodes
      → execute_from factories context observations nodes ≢ err key_error
  unfolding execute_from
  execute_from-ne [] observations h = ok-ne observations
  execute_from-ne (n ∷ ns) observations h =
      bind-ne (execute_node factories context observations n) _ (execute_node-ne observations n h.0)
        λ o _. execute_from-ne ns (observations ++ (n.instance_id, o) ∷ []) (
          subst (λ ids. IsOrdered ids ns)
            (sym (map-append _ observations ((n.instance_id, o) ∷ []))) h.1)

  -- Over nodes in dependency order the run never misses an observation that a node depends on: if
  -- no plugin raises a KeyError, the run raises none.
  pub execute_finds :
      (ordered : List ConfiguredNode)
      → IsOrdered [] ordered
      → execute factories context ordered ≢ err key_error
  unfolding execute
  execute_finds ordered h = execute_from-ne ordered [] h
