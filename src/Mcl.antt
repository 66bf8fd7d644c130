-- ===== src/Mcl.antt =====
-- clustering/mcl-clustering: the program that scores regexes against one another and has mcl cluster
-- them. Its matrix of scores is in Similarity.
pub mod Result
pub mod Rex
pub mod Scorer
pub mod Options
pub mod Wrapper
pub mod ClusterSet
pub mod Program
