-- ===== src/Db/Cluster/Invariant.antt =====
-- What every operation of cluster.cc keeps true of a cluster.
use mathlib.Core.List.{append_assoc, append-nil, map-append}
use regextools_api.Base.{
  ℕ, suc, ◌≡◌, refl, sym, ap, ◌∙◌, Bool, true, false, not, Option, none, some, List, [], ◌∷◌, ◌++◌,
  map, arith, length, filter-append, ◌&&◌, length-append, if◌then◌else◌, Bool-cases, inl, inr,
}
use regextools_api.Re2.{Re2, Documented}
use regextools_api.Db.Entity.{RegexEntity, get_pattern, parsed}
use regextools_api.Db.Cluster.{
  Cluster, new_cluster, init_entity, init_entities, from_entities, added, add_entity, compile,
}

module _ (re : Re2) (doc : Documented re) where
  open doc use {
    patterns, is_compiled, is_open, patterns_new, is_open_new, open_not_compiled, add_parsed,
    add_rejected, add_compiled, compile_patterns, compile_result,
  }

  -- The set holds the patterns of the entities, in their order, and the flag tells its state.
  pub record IsConsistent (c : Cluster re) : Type 0 where
    pub counted : c.size ≡ length c.entities
    pub in_set : patterns c.regex_set ≡ map get_pattern c.entities
    pub flagged : is_compiled c.regex_set ≡ c.set_is_compiled

  pub new_cluster-IsConsistent : IsConsistent (new_cluster re)
  unfolding new_cluster
  new_cluster-IsConsistent = record {
    counted = refl;
    in_set = patterns_new;
    flagged = open_not_compiled re.new_set is_open_new;
  }

  -- A cluster with one more entity, whose pattern went to the end of the set.
  abbrev pushed : Cluster re → RegexEntity → re.Set → Bool → Cluster re
  pushed c e s flag = record c {
    regex_set = s;
    set_is_compiled = flag;
    size = suc c.size;
    entities = c.entities ++ e ∷ [];
  }

  push-IsConsistent :
      (c : Cluster re) (e : RegexEntity) (s : re.Set) (flag : Bool)
      → IsConsistent c
      → patterns s ≡ patterns c.regex_set ++ e.pattern ∷ []
      → is_compiled s ≡ flag
      → IsConsistent (pushed c e s flag)
  push-IsConsistent c e s flag v p f = record {
    counted = omega (arith, v.counted, length-append c.entities (e ∷ []));
    in_set = p ∙ ap (λ ps. ps ++ e.pattern ∷ []) v.in_set ∙ sym (map-append _ c.entities (e ∷ []));
    flagged = f;
  }

  init_entity-some :
      (c : Cluster re) (e : RegexEntity) (r : re.Set × Option ℕ) (k : ℕ)
      → r.1 ≡ some k
      → init_entity re e r c ≡ pushed c e r.0 c.set_is_compiled
  unfolding init_entity
  init_entity-some c e (s, none) k h = cc
  init_entity-some c e (s, some j) k h = refl

  added-some :
      (c : Cluster re) (e : RegexEntity) (r : re.Set × Option ℕ) (k : ℕ)
      → r.1 ≡ some k
      → added re e r c ≡ (pushed c e r.0 false, true)
  unfolding added
  added-some c e (s, none) k h = cc
  added-some c e (s, some j) k h = refl

  -- One round of the constructor keeps the entity exactly if RE2 parses it.
  init_entity_lem :
      (c : Cluster re) (e : RegexEntity)
      → IsConsistent c
      → c.set_is_compiled ≡ false
      → is_open c.regex_set ≡ true
      → IsConsistent (init_entity re e (re.add c.regex_set e.pattern) c)
        × ((init_entity re e (re.add c.regex_set e.pattern) c).set_is_compiled ≡ false)
        × ((init_entity re e (re.add c.regex_set e.pattern) c).entities
            ≡ c.entities ++ parsed re (e ∷ []))
        × (is_open (init_entity re e (re.add c.regex_set e.pattern) c).regex_set ≡ true)
  init_entity_lem c e v h opened = elim (Bool-cases (re.ok e.pattern)) [
    | inl good ↦
        let a = add_parsed c.regex_set e.pattern opened good in
        rw (init_entity-some c e (re.add c.regex_set e.pattern) _ a.0, good)
          (
            push-IsConsistent c e _ c.set_is_compiled v a.1 (open_not_compiled _ a.2 ∙ sym h),
            h,
            refl,
            a.2,
          )
    | inr bad ↦
        rw (add_rejected c.regex_set e.pattern bad, bad)
          (unfold init_entity in (v, h, sym (append-nil c.entities), opened))
  ]

  init_entities_lem :
      (c : Cluster re) (es : List RegexEntity)
      → IsConsistent c
      → c.set_is_compiled ≡ false
      → is_open c.regex_set ≡ true
      → IsConsistent (init_entities re es c)
        × ((init_entities re es c).set_is_compiled ≡ false)
        × ((init_entities re es c).entities ≡ c.entities ++ parsed re es)
        × (is_open (init_entities re es c).regex_set ≡ true)
  unfolding init_entities
  init_entities_lem c [] v h opened = (v, h, sym (append-nil c.entities), opened)
  init_entities_lem c (e ∷ es) v h opened =
      let step = init_entity_lem c e v h opened in
      let rest =
        init_entities_lem (init_entity re e (re.add c.regex_set e.pattern) c) es step.0 step.1
          step.3 in
      (
        rest.0,
        rest.1,
        rest.2
            ∙ ap (λ xs. xs ++ parsed re es) step.2
            ∙ append_assoc c.entities _ (parsed re es)
            ∙ ap (λ xs. c.entities ++ xs) (sym (filter-append (λ x. re.ok x.pattern) (e ∷ []) es)),
        rest.3,
      )

  -- `Cluster(entities)` holds the entities that RE2 parses, in their order, is consistent and not
  -- compiled, and `Compile` was never called on its set.
  pub from_entities_lem :
      (es : List RegexEntity)
      → IsConsistent (from_entities re es)
        × ((from_entities re es).set_is_compiled ≡ false)
        × ((from_entities re es).entities ≡ parsed re es)
        × (is_open (from_entities re es).regex_set ≡ true)
  unfolding from_entities new_cluster
  from_entities_lem es =
      init_entities_lem (new_cluster re) es new_cluster-IsConsistent refl is_open_new

  -- `Compile` was never called on the set of a cluster that is not compiled: it did not fail.
  abbrev pub MayAdd : Cluster re → Type 0
  MayAdd c = c.set_is_compiled ≡ false → is_open c.regex_set ≡ true

  -- On a consistent cluster that did not fail to compile `add_entity` appends an entity that parses if the cluster is not
  -- compiled yet, and tells so; it refuses every other entity and leaves the entities as they were.
  -- The cluster stays consistent, and compiled or not as it was.
  pub add_entity_lem :
      (c : Cluster re) (e : RegexEntity)
      → IsConsistent c
      → MayAdd c
      → IsConsistent (add_entity re c e).0
        × ((add_entity re c e).1 ≡ (not c.set_is_compiled && re.ok e.pattern))
        × ((add_entity re c e).0.entities ≡ (
            if not c.set_is_compiled && re.ok e.pattern then c.entities ++ e ∷ [] else c.entities))
        × ((add_entity re c e).0.set_is_compiled ≡ c.set_is_compiled)
        × MayAdd (add_entity re c e).0
  unfolding add_entity
  add_entity_lem c e v may = elim (Bool-cases c.set_is_compiled) [
    | inl frozen ↦
        rw (add_compiled c.regex_set e.pattern (v.flagged ∙ frozen))
          (unfold added in (v, ground arith, ground arith, refl, may))
    | inr open_set ↦ elim (Bool-cases (re.ok e.pattern)) [
      | inl good ↦
          let a = add_parsed c.regex_set e.pattern (may open_set) good in
          rw (added-some c e (re.add c.regex_set e.pattern) _ a.0) (
            push-IsConsistent c e _ false v a.1 (open_not_compiled _ a.2),
            ground arith,
            ground arith,
            sym open_set,
            λ h. a.2,
          )
      | inr bad ↦
          rw (add_rejected c.regex_set e.pattern bad)
            (unfold added in (v, ground arith, ground arith, refl, may))
    ]
  ]

  compile_done :
      (c : Cluster re) (eager : Bool) → c.set_is_compiled ≡ true → compile re c eager ≡ (c, true)
  unfolding compile
  compile_done c eager h = ground arith

  compile_fresh :
      (c : Cluster re) (eager : Bool)
      → c.set_is_compiled ≡ false
      → compile re c eager ≡ (
        record c {
          regex_set = (re.compile eager c.regex_set).0;
          set_is_compiled = (re.compile eager c.regex_set).1;
        },
        (re.compile eager c.regex_set).1,
      )
  unfolding compile
  compile_fresh c eager h = ground arith

  -- `compile` keeps a consistent cluster consistent and its entities as they were, reports whether
  -- it is compiled afterwards, and compiles the RE2 set exactly if the cluster was not compiled.
  pub compile_lem :
      (c : Cluster re) (eager : Bool)
      → IsConsistent c
      → IsConsistent (compile re c eager).0
        × ((compile re c eager).0.entities ≡ c.entities)
        × ((compile re c eager).1 ≡ (compile re c eager).0.set_is_compiled)
        × ((compile re c eager).0.regex_set
            ≡ (if c.set_is_compiled then c.regex_set else (re.compile eager c.regex_set).0))
  compile_lem c eager v = elim (Bool-cases c.set_is_compiled) [
    | inl done ↦ rw (compile_done c eager done) (v, refl, sym done, rw done)
    | inr fresh ↦ rw (compile_fresh c eager fresh) (
      record {
        counted = v.counted;
        in_set = compile_patterns eager c.regex_set ∙ v.in_set;
        flagged = compile_result eager c.regex_set (v.flagged ∙ fresh);
      },
      refl,
      refl,
      rw fresh,
    )
  ]
