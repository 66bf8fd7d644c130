-- ===== src/Mcl/Result.antt =====
-- The exceptions of the clustering programs. The code catches `runtime_error` in places; any other
-- exception, and undefined behaviour, is `other_error` here.
use regextools_api.Base.{Option, none, some, List, [], ◌∷◌}

pub data Result {ℓ} (A : Type ℓ) : Type ℓ where
  ok : A → Result A
  runtime_error : Result A
  other_error : Result A

infixl 5 ◌>>=◌
abbrev pub ◌>>=◌ {ℓ κ} : {A : Type ℓ} {B : Type κ} → Result A → (A → Result B) → Result B
ok a >>= f = f a
runtime_error >>= f = runtime_error
other_error >>= f = other_error

-- An access that the code does not guard.
abbrev pub unguarded {ℓ} : {A : Type ℓ} → Option A → Result A
unguarded none = other_error
unguarded (some a) = ok a

-- A function over a range, as `std::transform` with `std::back_inserter`.
unfoldable pub transform {ℓ κ} :
    {A : Type ℓ} {B : Type κ} → (A → Result B) → List A → Result (List B)
transform f [] = ok []
transform f (x ∷ xs) = do y ← f x; ys ← transform f xs; ok (y ∷ ys)
