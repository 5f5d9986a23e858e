-- ===== src/Spark/Samples.antt =====
-- A Spark that answers as it is documented, for runs of the job.
use dpi_engine_python.Emitter.{NetworkEvent}
use dpi_engine_python.Prelude.{
  ℕ, ◌≡◌, ◌↔◌, refl, Bool, true, false, not, ◌&&◌, List, [], ◌∷◌, any, keep, length, map, arith,
}
use dpi_engine_python.Prelude.Eq.{◌==◌, list_eq, nat_eq, contains}
use dpi_engine_python.Sinks.{decision_name}
use dpi_engine_python.Spark.{
  Column, Condition, decision_is, blocked_is, both, Aggregate, sum_when, column_of, Spark,
}
use dpi_engine_python.Text.{Str}

-- A Spark that does as it is documented.
abbrev same : Bool → Bool → Bool
same true b = b
same false b = not b

pub same_iff : (a b : Bool) → (same a b ≡ true) ↔ (b ≡ a)
same_iff true b = ground arith
same_iff false b = ground arith

abbrev truth : Condition → NetworkEvent → Bool
truth (decision_is t) e = decision_name e.decision == t
truth (blocked_is b) e = same b e.blocked
truth (both c d) e = truth c e && truth d e

abbrev computed : Aggregate → List NetworkEvent → ℕ
computed (sum_when c) rows = length (keep (truth c) rows)
computed a rows = length rows

pub contains-map :
    (c : Condition) (column : Column) (rows : List NetworkEvent) (value : Str)
    → contains value (map (column_of column) (keep (truth c) rows))
      ≡ any (λ e. truth c e && column_of column e == value) rows
contains-map c column [] value = refl
contains-map c column (e ∷ rows) value = ground (arith, contains-map c column rows value)

abbrev pub simple_spark : Spark
simple_spark = record {
  holds = truth;
  holds-decision = λ t e. refl;
  holds-blocked = λ b e. same_iff b e.blocked;
  holds-both = λ c d e. refl;
  aggregate = computed;
  aggregate-count = λ rows. refl;
  aggregate-sum = λ c rows. refl;
  cell = λ column a rows value. computed a (keep (λ e. column_of column e == value) rows);
  cell-group = λ column a rows value. refl;
  distinct = λ c column rows. map (column_of column) (keep (truth c) rows);
  distinct-kept = contains-map;
}
