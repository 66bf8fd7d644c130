-- ===== src/Base/Strings.antt =====
-- Sets of strings as `std::unordered_set` holds them: each string once, in some order.
use Prim.Native.Nat.{Ordering, ℕ, suc}
use Prim.Native.String.{String, compare}
use mathlib.Core.Path.{◌≡◌, refl, ap, ◌∙◌}
use mathlib.Core.Bool.{Bool, true, ◌&&◌, ◌||◌}
use mathlib.Core.Logic.{inl, inr}
use mathlib.Core.List.{List, [], ◌∷◌}
use text.Mathlib.Text.{◌==◌ as str_eq, is_eq}
use text.Mathlib.TextEquality.{path_by_compare}
use native.Mathlib.Omega.{arith}
use regextools_api.Base.Tests.{if◌then◌else◌, Bool-cases}
use regextools_api.Base.Lists.{all, any}

-- `size` and `length`; a `char` is a character.
abbrev pub size : String → ℕ
size String.[] = 0
size (String.◌∷◌ c s) = suc (size s)

-- `insert`
unfoldable pub insert_string : String → List String → List String
insert_string s strings = if any (str_eq s) strings then strings else s ∷ strings

-- The set of the strings of a range.
unfoldable pub to_set : List String → List String
unfolding insert_string
to_set [] = []
to_set (s ∷ rest) = insert_string s (to_set rest)

str_eq-eq : (s t : String) → str_eq s t ≡ true → s ≡ t
str_eq-eq s t h = path_by_compare s t (is_eq-eq (compare s t) h)
  where
    is_eq-eq : (o : Ordering) → is_eq o ≡ true → o ≡ Ordering.eq
    is_eq-eq Ordering.lt h = cc
    is_eq-eq Ordering.eq h = refl
    is_eq-eq Ordering.gt h = cc

module _ (p : String → Bool) where
  member_all :
      (s : String) (ss : List String) → any (str_eq s) ss ≡ true → all p ss ≡ (p s && all p ss)
  member_all s [] h = cc
  member_all s (t ∷ ss) h = elim (Bool-cases (str_eq s t)) [
    | inl same ↦ rw (str_eq-eq s t same) (ground arith)
    | inr other ↦ ground (arith, member_all s ss)
  ]

  member_any :
      (s : String) (ss : List String) → any (str_eq s) ss ≡ true → any p ss ≡ (p s || any p ss)
  member_any s [] h = cc
  member_any s (t ∷ ss) h = elim (Bool-cases (str_eq s t)) [
    | inl same ↦ rw (str_eq-eq s t same) (ground arith)
    | inr other ↦ ground (arith, member_any s ss)
  ]

  pub all-insert_string :
      (s : String) (ss : List String) → all p (insert_string s ss) ≡ (p s && all p ss)
  unfolding insert_string
  all-insert_string s ss = elim (Bool-cases (any (str_eq s) ss)) [
    | inl old ↦ rw old (member_all s ss old)
    | inr new ↦ rw new
  ]

  pub any-insert_string :
      (s : String) (ss : List String) → any p (insert_string s ss) ≡ (p s || any p ss)
  unfolding insert_string
  any-insert_string s ss = elim (Bool-cases (any (str_eq s) ss)) [
    | inl old ↦ rw old (member_any s ss old)
    | inr new ↦ rw new
  ]

  pub all-to_set : (ss : List String) → all p (to_set ss) ≡ all p ss
  unfolding to_set
  all-to_set [] = refl
  all-to_set (s ∷ ss) = all-insert_string s (to_set ss) ∙ ap (λ b. p s && b) (all-to_set ss)

  pub any-to_set : (ss : List String) → any p (to_set ss) ≡ any p ss
  unfolding to_set
  any-to_set [] = refl
  any-to_set (s ∷ ss) = any-insert_string s (to_set ss) ∙ ap (λ b. p s || b) (any-to_set ss)
