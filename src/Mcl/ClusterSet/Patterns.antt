-- ===== src/Mcl/ClusterSet/Patterns.antt =====
-- cluster_set.cc: which patterns are written for a cluster, and when a set can be printed.
use text.Mathlib.Text.{◌==◌ as str_eq}
use text.Mathlib.TextEquality.{eq_iff}
use regextools_api.Base.{
  any-insert_string, ℕ, ◌≡◌, refl, ap, ◌∙◌, Bool, true, false, ◌||◌, Option, none, some, String,
  List, [], ◌∷◌, arith, map, any, all, filter, get_elem?, get_elem?-map, ◌==◌, ==_iff, Bool-cases,
  inl, inr,
}
use regextools_api.Mcl.Scorer.{Number}
use regextools_api.Mcl.ClusterSet.{
  insert_id, id_set, from_clusters, print_ids, print_clusters, print, opt_eq, insert_option,
  has_value, unwrap_all, option_set, patterns_of, write_patterns,
}
use regextools_api.Similarity.{SimilarityTable, get_pattern}

-- A set has an element that passes exactly if the list that it is made of has one.
any-member {ℓ} :
    {A : Type ℓ} (eq : A → A → Bool) (q : A → Bool) (a : A) (xs : List A)
    → ((b : A) → eq a b ≡ true → a ≡ b)
    → any (eq a) xs ≡ true
    → any q xs ≡ (q a || any q xs)
any-member eq q a [] sound h = cc
any-member eq q a (b ∷ xs) sound h = elim (Bool-cases (eq a b)) [
  | inl same ↦ rw (sound b same) (ground arith)
  | inr other ↦ ground (arith, any-member eq q a xs sound)
]

any-insert_id :
    (q : ℕ → Bool) (id : ℕ) (ids : List ℕ) → any q (insert_id id ids) ≡ (q id || any q ids)
any-insert_id q id ids = elim (Bool-cases (any (λ other. id == other) ids)) [
  | inl old ↦ rw old (any-member ◌==◌ q id ids (λ b. (==_iff id b).0) old)
  | inr new ↦ rw new refl
]

any-id_set : (q : ℕ → Bool) (ids : List ℕ) → any q (id_set ids) ≡ any q ids
any-id_set q [] = refl
any-id_set q (id ∷ rest) =
    any-insert_id q id (id_set rest) ∙ ap (λ b. q id || b) (any-id_set q rest)

opt_eq-eq : (o p : Option String) → opt_eq o p ≡ true → o ≡ p
opt_eq-eq none none h = refl
opt_eq-eq none (some s) h = cc
opt_eq-eq (some s) none h = cc
opt_eq-eq (some s) (some t) h = ap some ((eq_iff s t).0 h)

any-insert_option :
    (q : Option String → Bool) (o : Option String) (os : List (Option String))
    → any q (insert_option o os) ≡ (q o || any q os)
any-insert_option q o os = elim (Bool-cases (any (opt_eq o) os)) [
  | inl old ↦ rw old (any-member opt_eq q o os (opt_eq-eq o) old)
  | inr new ↦ rw new refl
]

-- A test on texts, on the optionals that hold one.
abbrev pub lifted : (String → Bool) → Option String → Bool
lifted q none = false
lifted q (some s) = q s

any-unwrap_all :
    (q : String → Bool) (os : List (Option String))
    → any q (unwrap_all (filter has_value os)) ≡ any (lifted q) os
any-unwrap_all q [] = refl
any-unwrap_all q (none ∷ os) = any-unwrap_all q os
any-unwrap_all q (some s ∷ os) =
    any-insert_string q s (unwrap_all (filter has_value os))
    ∙ ap (λ b. q s || b) (any-unwrap_all q os)

module _ (num : Number) (table : SimilarityTable num) where
  any-option_set :
      (q : Option String → Bool) (ids : List ℕ)
      → any q (option_set num table ids) ≡ any (λ id. q (get_pattern num table id)) ids
  unfolding option_set
  any-option_set q [] = refl
  any-option_set q (id ∷ rest) =
      any-insert_option q (get_pattern num table id) (option_set num table rest)
      ∙ ap (λ b. q (get_pattern num table id) || b) (any-option_set q rest)

  -- For each cluster that mcl makes, the patterns that are written are exactly those that the table finds
  -- for the ids of the cluster; an id that no scorer has is passed over.
  pub write_patterns-from_clusters :
      (clusters : List (List ℕ)) (i : ℕ) (cluster : List ℕ)
      → get_elem? clusters i ≡ some cluster
      → (written : List String) × (get_elem? (write_patterns num table (from_clusters clusters)) i
          ≡ some written)
        × ((pattern : String)
            → any (str_eq pattern) written
              ≡ any (λ id. lifted (str_eq pattern) (get_pattern num table id)) cluster)
  unfolding write_patterns from_clusters patterns_of
  write_patterns-from_clusters clusters i cluster here = (
    patterns_of num table (id_set cluster),
    get_elem?-map (patterns_of num table) (map id_set clusters) i
        (get_elem?-map id_set clusters i here),
    λ pattern.
        any-unwrap_all (str_eq pattern) (option_set num table (id_set cluster))
        ∙ any-option_set (lifted (str_eq pattern)) (id_set cluster)
        ∙ any-id_set (λ id. lifted (str_eq pattern) (get_pattern num table id)) cluster,
  )

abbrev pub has_ids : List ℕ → Bool
has_ids [] = false
has_ids (id ∷ rest) = true

abbrev pub is_printed : Option String → Bool
is_printed none = false
is_printed (some text) = true

print_ids-is_printed :
    (show : ℕ → String) (ids : List ℕ) → is_printed (print_ids show ids) ≡ has_ids ids
unfolding print_ids
print_ids-is_printed show [] = refl
print_ids-is_printed show (id ∷ []) = refl
print_ids-is_printed show (id ∷ other ∷ rest) =
    ground (arith, print_ids-is_printed show (other ∷ rest))

print_clusters-is_printed :
    (show : ℕ → String) (set : List (List ℕ))
    → is_printed (print_clusters show set) ≡ all has_ids set
unfolding print_clusters
print_clusters-is_printed show [] = refl
print_clusters-is_printed show (ids ∷ rest) =
    ground (arith, print_ids-is_printed show ids, print_clusters-is_printed show rest)

-- Printing a set of clusters is defined exactly if none of them is empty.
pub print-is_printed :
    (show : ℕ → String) (set : List (List ℕ)) → is_printed (print show set) ≡ all has_ids set
unfolding print
print-is_printed show set = ground (arith, print_clusters-is_printed show set)
