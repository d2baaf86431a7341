-- ===== src/Mapr.antt =====
-- internal/mapr: the query language of the mapreduce clients, and the aggregation of log lines.
pub mod Float
pub mod Result
pub mod Token
pub mod Select
pub mod Funcs
pub mod Where
pub mod Set
pub mod Query
pub mod Aggregation
pub mod Client
