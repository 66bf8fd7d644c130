-- ===== src/ClusterTool/Tests.antt =====
-- Runs of the cluster tool on small inputs, over texts in place of RE2.
use mathlib.Core.List.{Perm}
use regextools_api.Base.{
  ◌+◌, arith, ◌≤◌, ◌≡◌, refl, Option, some, String, List, [], ◌∷◌, ◌++◌, length, concat, All,
}
use regextools_api.Re2.Model.{texts_re2}
use regextools_api.ClusterTool.{RegexInfo, score, cluster, create_clusters}
use regextools_api.ClusterTool.Ranked.{IsAtMost}
use regextools_api.ClusterTool.Best.{cluster_total}
use regextools_api.ClusterTool.Partition.{create_clusters_total}

abbrev info : String → RegexInfo
info pattern = record {
  regex = pattern;
  regex_id = "1";
  positive = pattern ∷ [];
  negative = "xy" ∷ [];
}

abbrev infos : List RegexInfo
infos = info "ab" ∷ info "cd" ∷ info "*" ∷ info "ef" ∷ info "gh" ∷ []

-- The first string is dropped; the others are a match and a miss.
abbrev engine : String → Option (List String)
engine pattern = some (pattern ∷ pattern ∷ "xy" ∷ [])

create_clusters_total_example :
    (clusters : List (List RegexInfo)) × (left : List RegexInfo) × (create_clusters texts_re2
        (λ i. i)
        infos
        2
      ≡ some clusters)
    × All (λ c. length c ≡ 3) clusters
    × (length left ≤ 2)
    × Perm (concat clusters ++ left) infos
create_clusters_total_example = create_clusters_total texts_re2 (λ i. i) infos 2 refl

cluster_total_example :
    (stolen : List RegexInfo) × (left : List RegexInfo) × (cluster texts_re2 (info "ab") infos 3
      ≡ some (info "ab" ∷ stolen, left))
    × (length stolen ≡ 3)
    × Perm (stolen ++ left) infos
    × All
        (λ x.
          All (λ y. IsAtMost (score texts_re2 (info "ab") y) (score texts_re2 (info "ab") x)) left)
        stolen
    × (3 + length left ≡ 5)
cluster_total_example = cluster_total texts_re2 (info "ab") infos 3 refl (omega arith)
