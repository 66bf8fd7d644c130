-- ===== src/Query/Report.antt =====
-- librereuse/query/query_report.h and query_report.cc. A field of a `QueryResult` is `none` if the
-- code computes it from a variable that was never written.
use regextools_api.Base.{ℕ, Option, some, List, [], length}
use regextools_api.Db.Entity.{RegexEntity}
use regextools_api.Query.Base.{Mean}

-- The last field holds the averages whose mean the code takes.
pub record QueryResult : Type 0 where
  pub results : List RegexEntity
  pub skipped_clusters : ℕ
  pub median_test_fail_time : Option ℕ
  pub median_test_pass_time : Option ℕ
  pub median_drill_time : Option ℕ
  pub average_match_vector_size : Option (List Mean)

pub record QueryReport : Type 0 where
  pub results : List RegexEntity
  pub positive_examples_count : ℕ
  pub negative_examples_count : ℕ
  pub skipped_clusters : ℕ
  pub total_elapsed_time : ℕ
  pub median_test_pass_time : Option ℕ
  pub median_test_fail_time : Option ℕ
  pub median_drill_time : Option ℕ
  pub average_vec_size : Option (List Mean)
  pub result_cluster_info : List (ℕ × ℕ)

-- `QueryReport(result)`, by copy or by move
abbrev pub from_result : QueryResult → QueryReport
from_result result = record {
  results = result.results;
  positive_examples_count = 0;
  negative_examples_count = 0;
  skipped_clusters = result.skipped_clusters;
  total_elapsed_time = 0;
  median_test_pass_time = result.median_test_pass_time;
  median_test_fail_time = result.median_test_fail_time;
  median_drill_time = result.median_drill_time;
  average_vec_size = result.average_match_vector_size;
  result_cluster_info = [];
}

-- `QueryReport()`
abbrev pub new_report : QueryReport
new_report = record {
  results = [];
  positive_examples_count = 0;
  negative_examples_count = 0;
  skipped_clusters = 0;
  total_elapsed_time = 0;
  median_test_pass_time = some 0;
  median_test_fail_time = some 0;
  median_drill_time = some 0;
  average_vec_size = some [];
  result_cluster_info = [];
}

abbrev pub result_count : QueryReport → ℕ
result_count report = length report.results
