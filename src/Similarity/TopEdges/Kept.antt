-- ===== src/Similarity/TopEdges/Kept.antt =====
-- `top_k_edges`: which edges of a row are kept.
use mathlib.Core.List.{Perm}
use mathlib.Core.List.Perm
use regextools_api.Base.{
  ℕ, zero, suc, ◌+◌, ◌-◌, ◌≤◌, ◌<◌, ◌≡◌, refl, sym, ap, ◌∙◌, Bool, true, false, not, ◌&&◌, some,
  List, [], ◌∷◌, ◌++◌, arith, length, length-set, get_elem?, get_elem?-set, get_elem?-map, map, set,
  all, all-append, contains, if◌then◌else◌, ltb, Bool-cases, inl, inr,
}
use regextools_api.Mcl.Scorer.{Number}
use regextools_api.Similarity.{SimilarityTable}
use regextools_api.Similarity.TopEdges.{
  Entry, indexed, extract_least, drop_edges, top_row, top_k_edges,
}

-- `<` on scores of which none is NaN.
pub record IsOrdered (num : Number) : Type 0 where
  pub less_asym : (a b : num.Double) → num.less a b ≡ true → num.less b a ≡ false
  pub less_trans :
      (a b c : num.Double) → num.less b a ≡ false → num.less c b ≡ false → num.less c a ≡ false

module _ (num : Number) where
  -- What the loop takes out of the queue in so many rounds, and what it leaves.
  pub removed : ℕ → List (Entry num) → List (Entry num)
  removed zero queue = []
  removed (suc n) [] = []
  removed (suc n) (e ∷ es) = (extract_least num e es).0 ∷ removed n (extract_least num e es).1

  pub kept : ℕ → List (Entry num) → List (Entry num)
  kept zero queue = queue
  kept (suc n) [] = []
  kept (suc n) (e ∷ es) = kept n (extract_least num e es).1

  extract_least-perm :
      (e : Entry num) (es : List (Entry num))
      → Perm ((extract_least num e es).0 ∷ (extract_least num e es).1) (e ∷ es)
  unfolding extract_least
  extract_least-perm e [] = Perm.refl (e ∷ [])
  extract_least-perm e (f ∷ es) = elim (Bool-cases (num.less (extract_least num f es).0.1 e.1)) [
    | inl less ↦ rw less (Perm.trans (Perm.swap _ _ _) (Perm.cons e (extract_least-perm f es)))
    | inr more ↦ rw more (Perm.refl (e ∷ f ∷ es))
  ]

  extract_least-all :
      (p : Entry num → Bool) (e : Entry num) (es : List (Entry num))
      → all p ((extract_least num e es).0 ∷ (extract_least num e es).1) ≡ all p (e ∷ es)
  unfolding extract_least
  extract_least-all p e [] = refl
  extract_least-all p e (f ∷ es) = elim (Bool-cases (num.less (extract_least num f es).0.1 e.1)) [
    | inl less ↦ rw less (ground (arith, extract_least-all p f es))
    | inr more ↦ rw more refl
  ]

  length-extract_least :
      (e : Entry num) (es : List (Entry num)) → length (extract_least num e es).1 ≡ length es
  unfolding extract_least
  length-extract_least e [] = refl
  length-extract_least e (f ∷ es) = elim (Bool-cases (num.less (extract_least num f es).0.1 e.1)) [
    | inl less ↦ rw less (ap suc (length-extract_least f es))
    | inr more ↦ rw more refl
  ]

  removed-kept : (n : ℕ) (queue : List (Entry num)) → Perm (removed n queue ++ kept n queue) queue
  unfolding removed kept
  removed-kept zero queue = Perm.refl queue
  removed-kept (suc n) [] = Perm.refl []
  removed-kept (suc n) (e ∷ es) =
      Perm.trans (Perm.cons _ (removed-kept n (extract_least num e es).1)) (extract_least-perm e es)

  removed-kept-all :
      (p : Entry num → Bool) (n : ℕ) (queue : List (Entry num))
      → all p (removed n queue ++ kept n queue) ≡ all p queue
  unfolding removed kept
  removed-kept-all p zero queue = refl
  removed-kept-all p (suc n) [] = refl
  removed-kept-all p (suc n) (e ∷ es) =
      let next = extract_least num e es in
      ap (λ b. p next.0 && b) (removed-kept-all p n next.1) ∙ extract_least-all p e es

  length-kept :
      (n : ℕ) (queue : List (Entry num))
      → n ≤ length queue
      → length (kept n queue) + n ≡ length queue
  unfolding kept
  length-kept zero queue h = omega arith
  length-kept (suc n) [] h = absurd (omega arith)
  length-kept (suc n) (e ∷ es) h =
      let next = extract_least num e es in
      omega (arith, length-kept n next.1, length-extract_least e es)

  -- No entry of the list has a score below that of the given one.
  abbrev pub none_below : List (Entry num) → Entry num → Bool
  none_below es e = all (λ f. not (num.less f.1 e.1)) es

  module _ (ordered : IsOrdered num) where
    none_below_trans :
        (least e : Entry num) (es : List (Entry num))
        → num.less e.1 least.1 ≡ false
        → none_below es e ≡ true
        → none_below es least ≡ true
    none_below_trans least e [] le h = refl
    none_below_trans least e (f ∷ es) le h =
        ground (arith, ordered.less_trans least.1 e.1 f.1 le, none_below_trans least e es le)

    less_irrefl : (a : num.Double) → num.less a a ≡ false
    less_irrefl a = elim (Bool-cases (num.less a a)) [
      | inl below ↦ ordered.less_asym a a below
      | inr above ↦ above
    ]

    extract_least-cons :
        (e f : Entry num) (es : List (Entry num)) (b : Bool)
        → num.less (extract_least num f es).0.1 e.1 ≡ b
        → (extract_least num e (f ∷ es)).0 ≡ (if b then (extract_least num f es).0 else e)
    unfolding extract_least
    extract_least-cons e f es true less = rw less
    extract_least-cons e f es false more = rw more

    extract_least-nil : (e : Entry num) → (extract_least num e []).0 ≡ e
    unfolding extract_least
    extract_least-nil e = refl

    -- The entry that is taken is a least one.
    extract_least-none_below :
        (e : Entry num) (es : List (Entry num))
        → none_below (e ∷ es) (extract_least num e es).0 ≡ true
    extract_least-none_below e [] = rw (extract_least-nil e, less_irrefl e.1)
    extract_least-none_below e (f ∷ es) =
        let least = (extract_least num f es).0 in
        let ih = extract_least-none_below f es in
        elim (Bool-cases (num.less least.1 e.1)) [
          | inl less ↦
              ap (none_below (e ∷ f ∷ es)) (extract_least-cons e f es true less)
              ∙ rw (ordered.less_asym least.1 e.1 less) ih
          | inr more ↦
              ap (none_below (e ∷ f ∷ es)) (extract_least-cons e f es false more)
              ∙ rw (less_irrefl e.1) (none_below_trans e least (f ∷ es) more ih)
        ]

    -- None of the entries that are left has a score below that of one that was taken.
    kept-none_below :
        (n : ℕ) (queue : List (Entry num))
        → all (none_below (kept n queue)) (removed n queue) ≡ true
    unfolding removed kept
    kept-none_below zero queue = refl
    kept-none_below (suc n) [] = refl
    kept-none_below (suc n) (e ∷ es) =
        let next = extract_least num e es in
        let p : Entry num → Bool = λ f. not (num.less f.1 next.0.1) in
        let least = extract_least-all p e es ∙ extract_least-none_below e es in
        let same =
          sym (all-append p (removed n next.1) (kept n next.1)) ∙ removed-kept-all p n next.1 in
        ground (arith, least, same, kept-none_below n next.1)

  -- The row behind the loop.
  get_elem?-drop_edges :
      (n : ℕ) (queue : List (Entry num)) (row : List num.Double) (i : ℕ)
      → all (λ e. ltb e.0 (length row)) queue ≡ true
      → get_elem? (drop_edges num n queue row) i ≡ (
          if contains i (map (λ e. e.0) (removed n queue))
          then some num.zero_double
          else get_elem? row i)
  unfolding drop_edges removed
  get_elem?-drop_edges zero queue row i h = refl
  get_elem?-drop_edges (suc n) [] row i h = refl
  get_elem?-drop_edges (suc n) (e ∷ es) row i h =
      let next = extract_least num e es in
      let inside = extract_least-all (λ f. ltb f.0 (length row)) e es ∙ h in
      let others : all (λ f. ltb f.0 (length (set row next.0.0 num.zero_double))) next.1 ≡ true =
        rw (length-set row next.0.0 num.zero_double) (ground (arith, inside)) in
      rw
        (
          get_elem?-drop_edges n next.1 (set row next.0.0 num.zero_double) i others,
          get_elem?-set row next.0.0 i num.zero_double (ground (arith, inside)),
        )
        (ground arith)

  length-indexed : (k : ℕ) (row : List num.Double) → length (indexed num k row) ≡ length row
  unfolding indexed
  length-indexed k [] = refl
  length-indexed k (score ∷ row) = ap suc (length-indexed (suc k) row)

  indexed-inside :
      (k n : ℕ) (row : List num.Double)
      → k + length row ≤ n
      → all (λ e. ltb e.0 n) (indexed num k row) ≡ true
  unfolding indexed
  indexed-inside k n [] h = refl
  indexed-inside k n (score ∷ row) h = ground (arith, indexed-inside (suc k) n row)

  -- If no score is NaN, so that `<` orders them: a row of the table that has more than `edges` entries
  -- keeps that many and loses the others, which have become 0; none of those that it keeps has a
  -- score below that of one that it loses.
  pub top_k_edges_lem :
      (table : SimilarityTable num) (edges r : ℕ) (row : List num.Double)
      → IsOrdered num
      → get_elem? table.scores r ≡ some row
      → edges < length row
      → (row' : List num.Double) × (lost : List (Entry num)) × (stays : List (Entry num))
        × (get_elem? (top_k_edges num table edges).scores r ≡ some row')
        × Perm (lost ++ stays) (indexed num 0 row)
        × (length stays ≡ edges)
        × (all (none_below stays) lost ≡ true)
        × ((i : ℕ)
            → get_elem? row' i ≡ (
                if contains i (map (λ e. e.0) lost) then some num.zero_double else get_elem? row i))
  unfolding top_k_edges top_row
  top_k_edges_lem table edges r row ordered here many =
      let n = length row - edges in
      let queue = indexed num 0 row in
      let loop : top_row num edges row ≡ drop_edges num n queue row = ground arith in
      (
        top_row num edges row,
        removed n queue,
        kept n queue,
        get_elem?-map (top_row num edges) table.scores r here,
        removed-kept n queue,
        omega (
          arith,
          length-kept n queue (omega (arith, length-indexed 0 row)),
          length-indexed 0 row,
        ),
        kept-none_below ordered n queue,
        λ i.
            ap (λ l. get_elem? l i) loop
            ∙ get_elem?-drop_edges n queue row i (indexed-inside 0 (length row) row (omega arith)),
      )
