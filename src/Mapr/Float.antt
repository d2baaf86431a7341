-- ===== src/Mapr/Float.antt =====
-- Go's float64 and strconv.ParseFloat: what the query language and the aggregation use of them.
-- There are no floats here, so they are a parameter; a law that a theorem needs is a hypothesis.
use dtail.Base.{ℕ, Bool, Option, Bytes}

pub record Float64 : Type 1 where
  pub Value : Type 0
  pub parse_float : Bytes → Option Value
  pub of_nat : ℕ → Value
  pub add : Value → Value → Value
  pub eq : Value → Value → Bool
  pub lt : Value → Value → Bool
  pub le : Value → Value → Bool
