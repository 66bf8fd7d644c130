-- ===== src/Query/ClusterMatch/Marks.antt =====
-- cluster_match_query.cc: the bitmap of the regexes that one example hits.
use regextools_api.Base.{
  ℕ, ◌<◌, ◌≤◌, ◌≡◌, refl, ap, ◌∙◌, Bool, true, false, not, ◌&&◌, some, List, [], ◌∷◌, arith,
  contains, All, if◌then◌else◌, ◌==◌,
}
use regextools_api.Util.Bitmap
use regextools_api.Util.Bitmap.{Bitmap, IsValid}
use regextools_api.Util.Bitmap.Access.{
  set_bit_total, new_zero-IsValid, new_filled-IsValid, get-new_zero, get-new_filled,
}
use regextools_api.Util.Bitmap.Combine.{bit_and_assign_total}
use regextools_api.Query.ClusterMatch.{mark_all}

-- A bitmap of `n` bits that are given by a test.
pub record Shows (n : ℕ) (p : ℕ → Bool) (bm : Bitmap) : Type 0 where
  pub valid : IsValid bm
  pub sized : bm.element_count ≡ n
  pub bits : (i : ℕ) → i < n → Bitmap.get bm i ≡ some (p i)

pub new_zero-Shows : {m n : ℕ} → m ≡ n → Shows n (λ i. false) (Bitmap.new_zero m)
unfolding Bitmap.new_zero
new_zero-Shows {m} e = record {
  valid = new_zero-IsValid m;
  sized = e;
  bits = λ i h. get-new_zero m i (omega arith);
}

pub new_filled-Shows : {m n : ℕ} → m ≡ n → Shows n (λ i. true) (Bitmap.new_filled m true)
unfolding Bitmap.new_filled
new_filled-Shows {m} e = record {
  valid = new_filled-IsValid m true;
  sized = e;
  bits = λ i h. get-new_filled m i true (omega arith);
}

mark_step :
    (v : Bool) (x : ℕ) (xs : List ℕ) (j : ℕ) (p : ℕ → Bool)
    → (if contains j xs then v else (if x == j then v else p j))
      ≡ (if contains j (x ∷ xs) then v else p j)
mark_step v x xs j p = ground arith

-- Marking the listed bits succeeds and changes no other bit.
pub mark_all_total :
    (v : Bool) (n : ℕ) (xs : List ℕ) (bm : Bitmap) (p : ℕ → Bool)
    → All (λ i. i < n) xs
    → Shows n p bm
    → (bm' : Bitmap) × (mark_all v xs bm ≡ some bm')
      × Shows n (λ j. if contains j xs then v else p j) bm'
unfolding mark_all
mark_all_total v n [] bm p a s = (bm, refl, s)
mark_all_total v n (x ∷ xs) bm p a s =
    let one = set_bit_total bm x v s.valid (omega (arith, s.sized, a.0)) in
    let here : Shows n (λ j. if x == j then v else p j) one.0 = record {
      valid = one.2;
      sized = one.3 ∙ s.sized;
      bits = λ j h. one.4 j ∙ pick j (s.bits j h);
    } in
    let rest = mark_all_total v n xs one.0 (λ j. if x == j then v else p j) a.1 here in
    (
      rest.0,
      rw one.1 rest.1,
      record {
        valid = rest.2.valid;
        sized = rest.2.sized;
        bits = λ j h. rest.2.bits j h ∙ ap some (mark_step v x xs j p);
      },
    )
  where
    pick :
        (j : ℕ)
        → Bitmap.get bm j ≡ some (p j)
        → (if x == j then some v else Bitmap.get bm j) ≡ some (if x == j then v else p j)
    pick j h = ground arith

-- One round of either loop: mark the hits in a fresh bitmap, and join it to the one so far.
pub and_marked :
    (v : Bool) (n : ℕ) (xs : List ℕ) (fresh bm : Bitmap) (p : ℕ → Bool)
    → All (λ i. i < n) xs
    → Shows n (λ i. not v) fresh
    → Shows n p bm
    → (hits : Bitmap) × (mark_all v xs fresh ≡ some hits)
      × (both : Bitmap) × (Bitmap.bit_and_assign bm hits ≡ some both)
      × Shows n (λ j. p j && (if contains j xs then v else not v)) both
and_marked v n xs fresh bm p a f s =
    let m = mark_all_total v n xs fresh (λ i. not v) a f in
    let same_rows : Bitmap.bitset_count bm ≤ Bitmap.bitset_count m.0 =
      omega (arith, s.valid.rows, m.2.valid.rows, s.sized, m.2.sized) in
    let r = bit_and_assign_total bm m.0 s.valid m.2.valid same_rows in
    (
      m.0,
      m.1,
      r.0,
      r.1,
      record {
        valid = r.2;
        sized = r.3 ∙ s.sized;
        bits = λ j h.
            r.4 j (p j) (if contains j xs then v else not v) (omega (arith, s.sized)) (s.bits j h)
              (m.2.bits j h);
      },
    )
