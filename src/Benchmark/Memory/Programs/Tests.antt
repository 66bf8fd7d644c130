-- ===== src/Benchmark/Memory/Programs/Tests.antt =====
-- A run of the three programs on two clusters, over texts in place of RE2.
use regextools_api.Base.{
  ℕ, ◌<◌, ◌≡◌, refl, true, false, some, String, List, [], ◌∷◌, arith, if◌then◌else◌, ltb,
}
use regextools_api.Re2.Model.{texts_re2, texts_documented}
use regextools_api.Db.Entity.{RegexEntity}
use regextools_api.Db.Cluster.{from_entities}
use regextools_api.Query.Match.{new_match_query}
use regextools_api.QueryService.Answer.{file_of}
use regextools_api.Benchmark.Measure.{Queries}
use regextools_api.Benchmark.Memory.Programs.{
  Readings, report_of, serial_repo, semantic_repo, random_repo,
}
use regextools_api.Benchmark.Memory.Programs.Printed.{text_of, programs_print}

abbrev ab : RegexEntity
ab = record { pattern = "ab"; id = "1" }

abbrev cd : RegexEntity
cd = record { pattern = "cd"; id = "2" }

abbrev queries : Queries
queries =
    (
      "q",
      record {
        cluster_query = record { positive = "ab" ∷ []; negative = [] };
        serial_query = new_match_query ("ab" ∷ []) [];
      },
    )
    ∷ []

abbrev heap : Readings
heap = record { pre_db = 1; post_db = 2000001; after_query = 5000001 }

abbrev show : ℕ → String
show n = if ltb 9 n then "many" else "few"

abbrev memory : (s : texts_re2.Set) → (texts_re2.compile false s).1 ≡ true
memory s = refl

abbrev backwards : List RegexEntity → List RegexEntity
backwards es = cd ∷ ab ∷ []

some_entity : 0 < (from_entities texts_re2 (ab ∷ [])).size
unfolding from_entities
some_entity = omega arith

programs_print_example :
    (serial_repo texts_re2 show
        (some (file_of texts_re2 texts_documented ((ab ∷ []) ∷ (cd ∷ []) ∷ [])))
        queries
        heap
      ≡ some (text_of show (report_of "serial" heap)))
    × (semantic_repo texts_re2 show
          (some (file_of texts_re2 texts_documented ((ab ∷ []) ∷ (cd ∷ []) ∷ [])))
          queries
          heap
          (λ i. (i, i))
        ≡ some (text_of show (report_of "semantic" heap)))
    × (random_repo texts_re2 show
          (some (file_of texts_re2 texts_documented ((ab ∷ []) ∷ (cd ∷ []) ∷ [])))
          queries
          heap
          (λ i. (i, i))
          backwards
        ≡ some (text_of show (report_of "random" heap)))
programs_print_example =
    programs_print texts_re2 texts_documented memory show (ab ∷ []) ((cd ∷ []) ∷ []) queries heap
      (λ i. (i, i)) backwards some_entity

text :
    text_of show (report_of "serial" heap)
    ≡ ",Pre Database (b),Post Database (b),After Query (b),Database Size (mb),Query Size (mb),\nserial,few,many,many,few,few,\n"
text = refl
