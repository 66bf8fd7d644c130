-- ===== src/Db/ClusterRepository/Inserted.antt =====
-- regex_cluster_repository.cc, the first loop of the constructor: the patterns go into clusters.
use mathlib.Core.List.{append_assoc, append-nil}
use regextools_api.Base.{
  ℕ, ◌+◌, ◌≤◌, ◌<◌, ◌≡◌, refl, sym, ap, ◌∙◌, false, not, ◌&&◌, List, [], ◌∷◌, ◌++◌, arith, length,
  max, filter-append, length-append, All, if◌then◌else◌, ltb, ltb→lt, Bool-cases, inl, inr,
}
use regextools_api.Re2.{Re2, Documented}
use regextools_api.Db.Entity.{RegexEntity, parsed}
use regextools_api.Db.Cluster
use regextools_api.Db.Cluster.{Cluster}
use regextools_api.Db.Cluster.Invariant.{
  IsConsistent, MayAdd, new_cluster-IsConsistent, add_entity_lem,
}
use regextools_api.Db.PatternReader.{unpack_patterns}
use regextools_api.Db.ClusterRepository.{open_cluster, insert_pattern, insert_patterns}

module _ (re : Re2) (doc : Documented re) where
  -- What holds of the clusters while patterns are inserted.
  pub record IsOpen (n : ℕ) (c : Cluster re) : Type 0 where
    pub consistent : IsConsistent re doc c
    pub open_set : c.set_is_compiled ≡ false
    pub may_add : MayAdd re doc c
    pub bounded : c.size ≤ max n 1
    pub filled : 0 < c.size

  -- A cluster with one more entity, or the same cluster if RE2 does not take the pattern.
  add_entity-IsConsistent :
      (c : Cluster re) (e : RegexEntity)
      → IsConsistent re doc c
      → c.set_is_compiled ≡ false
      → MayAdd re doc c
      → IsConsistent re doc (Cluster.add_entity re c e).0
        × ((Cluster.add_entity re c e).0.set_is_compiled ≡ false)
        × ((Cluster.add_entity re c e).0.entities ≡ c.entities ++ parsed re (e ∷ []))
        × ((Cluster.add_entity re c e).1 ≡ re.ok e.pattern)
        × MayAdd re doc (Cluster.add_entity re c e).0
  add_entity-IsConsistent c e v h may =
      let a = add_entity_lem re doc c e v may in (a.0, a.3 ∙ h, a.2 ∙ kept, a.1 ∙ rw h, a.4)
    where
      kept :
          (if not c.set_is_compiled && re.ok e.pattern then c.entities ++ e ∷ [] else c.entities)
          ≡ c.entities ++ parsed re (e ∷ [])
      kept = elim (Bool-cases (re.ok e.pattern)) [
        | inl good ↦ rw (h, good)
        | inr bad ↦ rw (h, bad) (sym (append-nil c.entities))
      ]

  length-parsed_one : (e : RegexEntity) → length (parsed re (e ∷ [])) ≤ 1
  length-parsed_one e = ground arith

  open_cluster_lem :
      (n : ℕ) (e : RegexEntity)
      → All (IsOpen n) (open_cluster re e)
        × (unpack_patterns re (open_cluster re e) ≡ parsed re (e ∷ []))
  unfolding open_cluster
  open_cluster_lem n e =
      let a =
        add_entity-IsConsistent (Cluster.new_cluster re) e (new_cluster-IsConsistent re doc)
          (unfold Cluster.new_cluster in refl)
          (unfold Cluster.new_cluster in λ h. doc.is_open_new) in
      let made : (Cluster.add_entity re (Cluster.new_cluster re) e).0.entities
          ≡ parsed re (e ∷ []) =
        unfold Cluster.new_cluster in a.2 in
      elim (Bool-cases (re.ok e.pattern)) [
        | inl good ↦
            let one : (Cluster.add_entity re (Cluster.new_cluster re) e).0.entities ≡ e ∷ [] =
              made ∙ rw good in
            let count : (Cluster.add_entity re (Cluster.new_cluster re) e).0.size ≡ 1 =
              a.0.counted ∙ ap length one in
            rw (a.3 ∙ good, good)
              (
                (
                  record {
                    consistent = a.0;
                    open_set = a.1;
                    may_add = a.4;
                    bounded = omega arith;
                    filled = omega arith;
                  },
                  tt,
                ),
                append-nil _ ∙ one,
              )
        | inr bad ↦ rw (a.3 ∙ bad, bad) (tt, refl)
      ]

  -- The last cluster takes the pattern if it has room.
  grow_lem :
      (n : ℕ) (c : Cluster re) (e : RegexEntity)
      → IsOpen n c
      → c.size < n
      → IsOpen n (Cluster.add_entity re c e).0
  grow_lem n c e v room =
      let a = add_entity-IsConsistent c e v.consistent v.open_set v.may_add in
      let count : (Cluster.add_entity re c e).0.size ≡ c.size + length (parsed re (e ∷ [])) =
        omega (
          arith,
          a.0.counted,
          ap length a.2,
          length-append c.entities (parsed re (e ∷ [])),
          v.consistent.counted,
        ) in
      record {
        consistent = a.0;
        open_set = a.1;
        may_add = a.4;
        bounded = omega (arith, length-parsed_one e);
        filled = omega (arith, v.filled);
      }

  insert_pattern_lem :
      (n : ℕ) (cs : List (Cluster re)) (e : RegexEntity)
      → All (IsOpen n) cs
      → All (IsOpen n) (insert_pattern re n cs e)
        × (unpack_patterns re (insert_pattern re n cs e)
            ≡ unpack_patterns re cs ++ parsed re (e ∷ []))
  unfolding insert_pattern
  insert_pattern_lem n [] e v = open_cluster_lem n e
  insert_pattern_lem n (c ∷ []) e v = elim (Bool-cases (ltb c.size n)) [
    | inl room ↦
        let a = add_entity-IsConsistent c e v.0.consistent v.0.open_set v.0.may_add in
        rw room (
          (grow_lem n c e v.0 (ltb→lt _ _ room), tt),
          append-nil _ ∙ a.2 ∙ ap (λ xs. xs ++ parsed re (e ∷ [])) (sym (append-nil c.entities)),
        )
    | inr full ↦
        let o = open_cluster_lem n e in
        rw full (
          (v.0, o.0),
          ap (λ xs. c.entities ++ xs) o.1
              ∙ ap (λ xs. xs ++ parsed re (e ∷ [])) (sym (append-nil c.entities)),
        )
  ]
  insert_pattern_lem n (c ∷ d ∷ cs) e v =
      let ih = insert_pattern_lem n (d ∷ cs) e v.1 in
      (
        (v.0, ih.0),
        ap (λ xs. c.entities ++ xs) ih.1
            ∙ sym (append_assoc c.entities (unpack_patterns re (d ∷ cs)) (parsed re (e ∷ []))),
      )

  pub insert_patterns_lem :
      (n : ℕ) (es : List RegexEntity) (cs : List (Cluster re))
      → All (IsOpen n) cs
      → All (IsOpen n) (insert_patterns re n cs es)
        × (unpack_patterns re (insert_patterns re n cs es) ≡ unpack_patterns re cs ++ parsed re es)
  unfolding insert_patterns
  insert_patterns_lem n [] cs v = (v, sym (append-nil _))
  insert_patterns_lem n (e ∷ es) cs v =
      let one = insert_pattern_lem n cs e v in
      let rest = insert_patterns_lem n es (insert_pattern re n cs e) one.0 in
      (
        rest.0,
        rest.1
            ∙ ap (λ xs. xs ++ parsed re es) one.1
            ∙ append_assoc (unpack_patterns re cs) (parsed re (e ∷ [])) (parsed re es)
            ∙ ap (λ xs. unpack_patterns re cs ++ xs)
                (sym (filter-append (λ x. re.ok x.pattern) (e ∷ []) es)),
      )
