-- ===== src/Lib.antt =====
-- The library of the repository that searches large collections of regexes by examples, and the
-- tools that build its collections.
--
-- A search is given strings that a regex shall match in full and strings that it shall not. The
-- entities (a pattern and an id) are kept in clusters; a cluster holds one RE2 set, which matches
-- one string against all its patterns at once. A match query marks the hits of each example in a
-- bitmap, combines the bitmaps, and returns the entities whose bit is left; a cheaper test tells
-- before that whether a cluster can hold a result at all. A cluster repository asks its clusters in
-- turn, the parallel one gives each cluster to a thread pool, and the plain repository has no
-- clusters and tests every regex by itself. The cluster tool scores regexes by strings made for
-- them, and clusters those with the best scores around random seeds.
--
-- Base: Boolean tests, lists and counting over the native numbers, which all the files share.
-- Re2: librereuse's calls of RE2, as a record of functions (`Re2`), and what the documentation of
-- RE2 says of them (`Documented`), as hypotheses; that a pattern is added is asked only of a set that
-- `Compile` was never called on. Re2/Model is a small set of texts that meets
-- them.
-- Util: librereuse/util. Bitmap is `Bitmap` (new_zero and new_filled are the constructors, set_bit
-- is `set`, bit_and is `operator&`, bit_and_assign is `operator&=`, and so on), Chunk is `chunk`,
-- Csv is `CSV`, its printing in Csv/Print, Stats holds the medians, the quartiles and the outliers.
-- Db: librereuse/db. Entity is `RegexEntity`; Cluster is `Cluster`, with what its operations keep
-- in Cluster/Invariant and the clusters that calls can make in Cluster/Reachable; PatternReader is
-- pattern_reader.cc; RegexRepository is the plain repository; ClusterRepository is
-- `RegexClusterRepository`, its constructor in Inserted and Build and its search in DeepQuery;
-- Parallel is `ParallelRegexClusterRepository`; Parallel/Workers is the task queue, the collector
-- and the workers of the same file, as steps of a schedule. Agreement compares the searches.
-- Query: librereuse/query. Base is the interface `BaseClusterQuery`, with what the repositories
-- need of a query (`Answers`); ClusterMatch, Fuzzy and Match are the queries; Report is
-- query_report.
-- ClusterTool: clustering/cluster-tool/main.cc; Best is about one cluster, Partition about all of them.
-- QueryService: regexdb/query_service.cc, which loads semantic clusters into the parallel
-- repository and answers requests by it.
-- Filter: clustering/filter, the options and the checks that every regex of a file passes or not.
-- Pool: the thread pool that the parallel repository and both similarity tables use, as a record
-- (`ThreadPool`); `RunsTasks` says that a future gives what its task gives. eager_pool meets it.
-- Similarity: similarity_table of clustering/mcl-clustering: the constructor on the thread pool
-- (Build compares it with a plain one), the graph, its pruning and its ABC lines (Graph, Edges),
-- top_k_edges in TopEdges.
-- Mcl: the rest of clustering/mcl-clustering. Rex is rex_wrapper, Scorer is the scorers of egret
-- and of Rex with their files of strings, Options is the command line and the spec file, Wrapper is
-- mcl_wrapper, ClusterSet is cluster_set, and Program is clustering_main.cc, which composes all of
-- these; its Refined compares a run with what the scorers alone determine. Result tells a
-- `runtime_error`, which this program catches, from other exceptions.
-- SimilarityTool: clustering/similarity-table, its own table and its main.
-- StringGenerator: clustering/rex-string-generator/main.cc, on top of Mcl/Rex.
-- Benchmark: performance/benchmarking_report.cc, a report with a column for each query, over
-- Util/Csv. Measure is performance/main.cc with the queries of arg_parser.cc; Rounds and Complete
-- are about the rounds of a measurement and the table made of them, Frequency about the counts of
-- results by cluster. Memory is performance/memory/memory_report.cc, with the programs serial_repo,
-- semantic_repo and random_repo in Memory/Programs.
-- Each part has a module Tests with runs on small inputs.
--
-- Numbers are natural numbers; the program's integers count the elements of containers and stay
-- below their bounds. A `double` that the code makes of counts is kept as the exact quotient or
-- doubled; the similarity tables take their arithmetic as a parameter (`Number`). Where the code
-- subtracts or shifts in 64 bits, or casts to 32, the wrap-around is written out.
-- `Option` is an exception that leaves a function, or undefined behaviour such as an access outside
-- a vector; each file says which. A `char` is a character; only
-- the greatest length of the filter is compared with the bytes of UTF-8. A clock reading, a random number and the order of a hash table
-- are arguments. Files are lists of lines, or for the strings of Rex a list from paths to texts.
-- The loop of `create_clusters` is recursion on fuel, one round more than there are regexes, which
-- is enough since each round removes one at least; the loop of the filter is too, one round more
-- than there are lines. The loop that reads the ids of a line has one round more than the line has
-- characters. All other loops are structural.
--
-- Not modelled: logging, the reading and writing of files, JSON texts, the inside of the thread
-- pool (a copy of another project's header), of RE2, egret, Rex and mcl (parameters), gRPC, the
-- parsing of malloc_info, the programs that only call RE2 and time it, and `Cluster::prime`, which
-- only warms a cache.
pub mod Base
pub mod Re2
pub mod Pool
pub mod Util
pub mod Db
pub mod Query
pub mod ClusterTool
pub mod QueryService
pub mod Benchmark
pub mod Filter
pub mod Similarity
pub mod Mcl
pub mod SimilarityTool
pub mod StringGenerator
