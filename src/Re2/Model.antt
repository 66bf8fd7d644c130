-- ===== src/Re2/Model.antt =====
-- A set of regexes that meets what is documented of RE2, to show that the hypotheses can hold: a
-- regex is a text, every text but the empty one parses, and it matches itself and `"*"` all.
use text.Mathlib.Text.{◌==◌ as str_eq}
use regextools_api.Base.{
  ℕ, zero, suc, ◌+◌, ◌<◌, ◌≤◌, ◌≡◌, refl, Bool, true, false, not, ◌||◌, ◌&&◌, Option, none, some,
  String, List, [], ◌∷◌, ◌++◌, arith, length, get_elem?, contains, IsDistinct, All, if◌then◌else◌,
}
use regextools_api.Re2.{Re2, Documented, is_empty}

pub record TextSet : Type 0 where
  pub texts : List String
  pub compiled : Bool

abbrev pub text_match : String → String → Bool
text_match t p = str_eq p "*" || str_eq p t

abbrev pub text_ok : String → Bool
text_ok p = not (str_eq p "")

abbrev pub hits_from : ℕ → String → List String → List ℕ
hits_from i t [] = []
hits_from i t (p ∷ ps) =
    if text_match t p then i ∷ hits_from (suc i) t ps else hits_from (suc i) t ps

abbrev pub text_add : TextSet → String → TextSet × Option ℕ
text_add s p =
    if not s.compiled && text_ok p
    then (record s { texts = s.texts ++ p ∷ [] }, some (length s.texts))
    else (s, none)

abbrev pub text_hits : TextSet → String → List ℕ
text_hits s t = if s.compiled then hits_from 0 t s.texts else []

abbrev pub texts_re2 : Re2
texts_re2 = record {
  Set = TextSet;
  new_set = record { texts = []; compiled = false };
  add = text_add;
  compile = λ eager s. (record s { compiled = true }, true);
  match_set = λ s t. (not (is_empty (text_hits s t)), text_hits s t);
  ok = text_ok;
  full_match = text_match;
  partial_match = text_match;
}

pub hits_from-range :
    (n i : ℕ) (t : String) (ps : List String)
    → i + length ps ≤ n
    → All (λ j. j < n) (hits_from i t ps)
hits_from-range n i t [] h = tt
hits_from-range n i t (p ∷ ps) h =
    let ih : All (λ j. j < n) (hits_from (suc i) t ps) =
      hits_from-range n (suc i) t ps (omega arith) in
    elim (text_match t p)
      as (λ b.
        All (λ j. j < n) (if b then i ∷ hits_from (suc i) t ps else hits_from (suc i) t ps)) [
          | true ↦ (omega arith, ih)
          | false ↦ ih
        ]

pub not_compiled_lem : (s : TextSet) → not s.compiled ≡ true → s.compiled ≡ false
not_compiled_lem s h = ground arith

pub add_parsed_lem :
    (s : TextSet) (p : String)
    → not s.compiled ≡ true
    → text_ok p ≡ true
    → ((text_add s p).1 ≡ some (length s.texts))
      × ((text_add s p).0.texts ≡ s.texts ++ p ∷ [])
      × (not (text_add s p).0.compiled ≡ true)
add_parsed_lem s p h k = (ground arith, ground arith, ground arith)

pub add_rejected_lem : (s : TextSet) (p : String) → text_ok p ≡ false → text_add s p ≡ (s, none)
add_rejected_lem s p h = ground arith

pub add_compiled_lem : (s : TextSet) (p : String) → s.compiled ≡ true → text_add s p ≡ (s, none)
add_compiled_lem s p h = rw h refl

-- No hit lies below the first index.
below : (i j : ℕ) (t : String) (ps : List String) → j < i → contains j (hits_from i t ps) ≡ false
below i j t [] h = refl
below i j t (p ∷ ps) h = ground (arith, below (suc i) j t ps)

pub distinct : (i : ℕ) (t : String) (ps : List String) → IsDistinct (hits_from i t ps)
distinct i t [] = tt
distinct i t (p ∷ ps) = ground (arith, below (suc i) i t ps, distinct (suc i) t ps)

pub hit :
    (i j k : ℕ) (t : String) (ps : List String) (p : String)
    → i + j ≡ k
    → get_elem? ps j ≡ some p
    → contains k (hits_from i t ps) ≡ text_match t p
hit i j k t [] p e h = cc
hit i zero k t (q ∷ ps) p e h =
    let same : k ≡ i = omega arith in
    let here : q ≡ p = ground arith in rw (same, here) (ground (arith, below (suc i) i t ps))
hit i (suc j) k t (q ∷ ps) p e h =
    let ih = hit (suc i) j k t ps p (omega arith) h in ground (arith, ih)

abbrev pub texts_documented : Documented texts_re2
texts_documented = record {
  patterns = λ s. s.texts;
  is_compiled = λ s. s.compiled;
  patterns_new = refl;
  is_open = λ s. not s.compiled;
  is_open_new = refl;
  open_not_compiled = not_compiled_lem;
  add_parsed = add_parsed_lem;
  add_rejected = add_rejected_lem;
  add_compiled = add_compiled_lem;
  compile_patterns = λ eager s. refl;
  compile_result = λ eager s h. refl;
  match_some = λ s t h. refl;
  match_range = λ s t h. rw h (hits_from-range (length s.texts) 0 t s.texts (omega arith));
  match_distinct = λ s t h. rw h (distinct 0 t s.texts);
  match_hits = λ s t i p h e. rw h (hit 0 i i t s.texts p (omega arith) e);
}
