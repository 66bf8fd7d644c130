-- ===== src/Db/RegexRepository/Laws.antt =====
-- regex_repository.cc: a query returns the entities that parse and pass.
use mathlib.Core.List.{append_assoc, append-nil, map-append}
use regextools_api.Base.{
  ℕ, suc, ◌≡◌, refl, sym, ap, ◌∙◌, some, List, [], ◌∷◌, ◌++◌, map, arith, length, get_elem?,
  get_elem?-middle, length-append, filter, filter-append, Bool-cases, inl, inr,
}
use regextools_api.Re2.{Re2}
use regextools_api.Db.Entity.{RegexEntity, get_pattern, parsed}
use regextools_api.Query.Match.{MatchQuery, test}
use regextools_api.Db.RegexRepository.{
  RegexRepository, add_entity, add_entities, new_repository, query_from, query,
}

module _ (re : Re2) where
  -- The compiled regexes are those of the entities, in their order.
  abbrev IsAligned : RegexRepository → Type 0
  IsAligned repo = repo.regexes ≡ map get_pattern repo.entities

  add_entity_lem :
      (e : RegexEntity) (repo : RegexRepository)
      → IsAligned repo
      → IsAligned (add_entity re e repo)
        × ((add_entity re e repo).entities ≡ repo.entities ++ parsed re (e ∷ []))
  unfolding add_entity
  add_entity_lem e repo h = elim (Bool-cases (re.ok e.pattern)) [
    | inl good ↦ rw good (
      ap (λ ps. ps ++ e.pattern ∷ []) h ∙ sym (map-append get_pattern repo.entities (e ∷ [])),
      refl,
    )
    | inr bad ↦ rw bad (h, sym (append-nil repo.entities))
  ]

  add_entities_lem :
      (es : List RegexEntity) (repo : RegexRepository)
      → IsAligned repo
      → IsAligned (add_entities re es repo)
        × ((add_entities re es repo).entities ≡ repo.entities ++ parsed re es)
  unfolding add_entities
  add_entities_lem [] repo h = (h, sym (append-nil repo.entities))
  add_entities_lem (e ∷ es) repo h =
      let one = add_entity_lem e repo h in
      let rest = add_entities_lem es (add_entity re e repo) one.0 in
      (
        rest.0,
        rest.1
            ∙ ap (λ xs. xs ++ parsed re es) one.1
            ∙ append_assoc repo.entities (parsed re (e ∷ [])) (parsed re es)
            ∙ ap (λ xs. repo.entities ++ xs)
                (sym (filter-append (λ x. re.ok x.pattern) (e ∷ []) es)),
      )

  query_from_lem :
      (q : MatchQuery) (pre suf : List RegexEntity) (i : ℕ)
      → i ≡ length pre
      → query_from re q i (map get_pattern suf) (pre ++ suf)
        ≡ some (filter (λ e. test re q e.pattern) suf)
  unfolding query_from
  query_from_lem q pre [] i e = refl
  query_from_lem q pre (x ∷ suf) i e =
      let at_i : get_elem? (pre ++ x ∷ suf) i ≡ some x = rw e (get_elem?-middle pre x suf) in
      let rest : query_from re q (suc i) (map get_pattern suf) (pre ++ x ∷ suf)
          ≡ some (filter (λ e. test re q e.pattern) suf) =
        rw (← append_assoc pre (x ∷ []) suf) (
          query_from_lem q (pre ++ x ∷ []) suf (suc i)
            (omega (arith, length-append pre (x ∷ [])))) in
      rw rest (elim (Bool-cases (test re q x.pattern)) [
        | inl kept ↦ rw (kept, at_i)
        | inr dropped ↦ rw dropped
      ])

  -- A query of the plain repository of some entities succeeds, and returns those that parse and
  -- pass its test, in their order.
  pub query-new_repository :
      (q : MatchQuery) (es : List RegexEntity)
      → query re (new_repository re es) q ≡ some (filter (λ e. test re q e.pattern) (parsed re es))
  unfolding query new_repository
  query-new_repository q es =
      let start : RegexRepository = record { regexes = []; entities = [] } in
      let built = add_entities_lem es start refl in
      rw (built.0, built.1) (query_from_lem q [] (parsed re es) 0 refl)
