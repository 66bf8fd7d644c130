-- ===== src/Re2.antt =====
-- The RE2 library, which the program calls and does not contain: its calls are a parameter, and what
-- re2.h and set.h document of them is a record of hypotheses.
pub mod Model
use regextools_api.Base.{
  ℕ, ◌<◌, ◌≡◌, Bool, true, false, not, Option, none, some, String, List, [], ◌∷◌, ◌++◌, length,
  get_elem?, contains, IsDistinct, All,
}

pub record Re2 : Type 1 where
  -- `re2::RE2::Set`, with anchors at both ends
  pub Set : Type 0
  pub new_set : Set
  -- `Set::Add`; `none` is a negative return
  pub add : Set → String → Set × Option ℕ
  -- `Set::Compile(eager)`
  pub compile : Bool → Set → Set × Bool
  -- `Set::Match(text, &indices)`
  pub match_set : Set → String → Bool × List ℕ
  -- `RE2(pattern).ok()`
  pub ok : String → Bool
  -- `RE2::FullMatch(text, RE2(pattern))`
  pub full_match : String → String → Bool
  -- `RE2::PartialMatch(text, RE2(pattern))`
  pub partial_match : String → String → Bool

abbrev pub is_empty {ℓ} : {A : Type ℓ} → List A → Bool
is_empty [] = true
is_empty (x ∷ xs) = false

-- What the documentation of RE2 says of a set, for a set whose regexes are `patterns s`.
pub record Documented (re : Re2) : Type 0 where
  pub patterns : re.Set → List String
  pub is_compiled : re.Set → Bool
  -- Whether `Compile` was never called.
  pub is_open : re.Set → Bool
  pub patterns_new : patterns re.new_set ≡ []
  pub is_open_new : is_open re.new_set ≡ true
  pub open_not_compiled : (s : re.Set) → is_open s ≡ true → is_compiled s ≡ false
  -- "Adds pattern to the set ... returns its index, or -1 if it cannot be parsed."
  pub add_parsed :
      (s : re.Set) (p : String)
      → is_open s ≡ true
      → re.ok p ≡ true
      → ((re.add s p).1 ≡ some (length (patterns s)))
        × (patterns (re.add s p).0 ≡ patterns s ++ p ∷ [])
        × (is_open (re.add s p).0 ≡ true)
  pub add_rejected : (s : re.Set) (p : String) → re.ok p ≡ false → re.add s p ≡ (s, none)
  -- "Add must not be called again after Compile."
  pub add_compiled : (s : re.Set) (p : String) → is_compiled s ≡ true → re.add s p ≡ (s, none)
  -- "Compiles the set in preparation for matching. Returns false if it runs out of memory."
  pub compile_patterns : (eager : Bool) (s : re.Set) → patterns (re.compile eager s).0 ≡ patterns s
  pub compile_result :
      (eager : Bool) (s : re.Set)
      → is_compiled s ≡ false
      → is_compiled (re.compile eager s).0 ≡ (re.compile eager s).1
  -- "Returns true if text matches at least one of the regexps in the set. Fills the vector with
  -- the indices of the matching regexps."
  pub match_some :
      (s : re.Set) (t : String)
      → is_compiled s ≡ true
      → (re.match_set s t).0 ≡ not (is_empty (re.match_set s t).1)
  pub match_range :
      (s : re.Set) (t : String)
      → is_compiled s ≡ true
      → All (λ i. i < length (patterns s)) (re.match_set s t).1
  pub match_distinct :
      (s : re.Set) (t : String) → is_compiled s ≡ true → IsDistinct (re.match_set s t).1
  pub match_hits :
      (s : re.Set) (t : String) (i : ℕ) (p : String)
      → is_compiled s ≡ true
      → get_elem? (patterns s) i ≡ some p
      → contains i (re.match_set s t).1 ≡ re.full_match t p
