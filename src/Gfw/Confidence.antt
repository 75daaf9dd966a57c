-- ===== src/Gfw/Confidence.antt =====
-- internal/gfw/confidence.go: the score of a domain's verdict, kept in Redis or in memory. A score is
-- in hundredths. A Redis key is the domain's id, which the source prints into it; an entry is gone
-- once its time to live has passed. The encoding of the state is the library's, a parameter.
pub mod State
pub mod Strings
pub mod Counting
pub mod Trackers
pub mod Refinement
