-- ===== src/Spark/Summary.antt =====
-- The tables of the Spark job beside each other.
use dpi_engine_python.Dict.{get}
use dpi_engine_python.Emitter.{NetworkEvent}
use dpi_engine_python.Prelude.{
  ℕ, suc, ◌+◌, ◌≡◌, refl, ◌∙◌, ◌↔◌, inl, inr, Bool, true, false, not, ◌&&◌, Option, none, some,
  List, [], ◌∷◌, keep, length, any, All, arith, Bool-cases, if◌then◌else◌,
}
use dpi_engine_python.Prelude.Eq.{◌==◌, list_eq, nat_eq, contains}
use dpi_engine_python.Processor.{Decision, forward, drop}
use dpi_engine_python.Sinks.{decision_name, is_drop, IsConsistent}
use dpi_engine_python.Spark.{
  application, decision_is, blocked_is, count_rows, sum_when, Query, group_by, distinct_where,
  is_blocked, is_forwarded, app_summary, blocked_apps_query, Spark,
}
use dpi_engine_python.Text.{Str, codes}

drop_named : (d : Decision) → (decision_name d == codes "DROP") ≡ is_drop d
unfolding decision_name
drop_named forward = refl
drop_named drop = refl

forward_named : (d : Decision) → (decision_name d == codes "FORWARD") ≡ not (is_drop d)
unfolding decision_name
forward_named forward = refl
forward_named drop = refl

same-of_iff : (a b : Bool) → (a ≡ true) ↔ (b ≡ true) → a ≡ b
same-of_iff a b h = ground arith

and_same : (b : Bool) → (b && b) ≡ b
and_same true = refl
and_same false = refl

sum_step :
    (dropped : Bool) (e : NetworkEvent) (total : ℕ) (one other : List NetworkEvent)
    → total ≡ length one + length other
    → suc total
      ≡ length (if dropped then e ∷ one else one)
        + length (if not dropped then e ∷ other else other)
sum_step true e total one other h = omega (arith, h)
sum_step false e total one other h = omega (arith, h)

All-keep :
    (P : NetworkEvent → Type 0) (p : NetworkEvent → Bool) (rows : List NetworkEvent)
    → All P rows
    → All P (keep p rows)
All-keep P p [] h = tt
All-keep P p (e ∷ rows) (first, h) = elim (Bool-cases (p e)) [
  | inl kept ↦ rw kept (first, All-keep P p rows h)
  | inr left ↦ rw left (All-keep P p rows h)
]

any-keep :
    (p q : NetworkEvent → Bool) (rows : List NetworkEvent)
    → any (λ e. p e && q e) rows ≡ not (length (keep p (keep q rows)) == 0)
any-keep p q [] = refl
any-keep p q (e ∷ rows) = ground (arith, any-keep p q rows)

module _ (s : Spark) where
  -- The cell with a name in the group of a value.
  unfoldable pub named_cell : Query → Str → List NetworkEvent → Str → Option ℕ
  named_cell (group_by column aggregates) name rows value = elim (get aggregates name) [
    | none ↦ none
    | some a ↦ some (s.cell column a rows value)
  ]
  named_cell _ name rows value = none

  -- The values in a table of distinct values.
  unfoldable pub distinct_values : Query → List NetworkEvent → List Str
  distinct_values (distinct_where c column) rows = s.distinct c column rows
  distinct_values _ rows = []

  holds-is_blocked : (e : NetworkEvent) → IsConsistent e → s.holds is_blocked e ≡ is_drop e.decision
  holds-is_blocked e consistent =
      s.holds-both (decision_is (codes "DROP")) (blocked_is true) e
      ∙ rw
          (
            s.holds-decision (codes "DROP") e,
            drop_named e.decision,
            same-of_iff _ _ (s.holds-blocked true e),
            consistent,
          )
          (and_same (is_drop e.decision))

  holds-is_forwarded : (e : NetworkEvent) → s.holds is_forwarded e ≡ not (is_drop e.decision)
  holds-is_forwarded e = s.holds-decision (codes "FORWARD") e ∙ forward_named e.decision

  count_both :
      (rows : List NetworkEvent)
      → All IsConsistent rows
      → length rows
        ≡ length (keep (s.holds is_blocked) rows) + length (keep (s.holds is_forwarded) rows)
  count_both [] h = refl
  count_both (e ∷ rows) (consistent, h) =
      rw (holds-is_blocked e consistent, holds-is_forwarded e)
        (sum_step (is_drop e.decision) e (length rows) _ _ (count_both rows h))

  -- In the summary of events that are marked as blocked exactly where they are dropped, the packets of
  -- an application are those that were blocked and those that were forwarded.
  pub app_summary_adds_up :
      (rows : List NetworkEvent) (value : Str)
      → All IsConsistent rows
      → (total blocked forwarded : ℕ) × (named_cell app_summary (codes "total_packets") rows value
          ≡ some total)
        × (named_cell app_summary (codes "blocked_packets") rows value ≡ some blocked)
        × (named_cell app_summary (codes "forwarded_packets") rows value ≡ some forwarded)
        × (total ≡ blocked + forwarded)
  unfolding named_cell app_summary get
  app_summary_adds_up rows value h =
      let group = keep (λ e. e.application == value) rows in
      (
        _,
        _,
        _,
        refl,
        refl,
        refl,
        rw
            (
              s.cell-group application count_rows rows value,
              s.cell-group application (sum_when is_blocked) rows value,
              s.cell-group application (sum_when is_forwarded) rows value,
              s.aggregate-count group,
              s.aggregate-sum is_blocked group,
              s.aggregate-sum is_forwarded group,
            )
            (count_both group (All-keep IsConsistent (λ e. e.application == value) rows h)),
      )

  -- The applications in the table of blocked ones are those that have blocked packets in the summary.
  pub blocked_apps-app_summary :
      (rows : List NetworkEvent) (value : Str)
      → (blocked : ℕ) × (named_cell app_summary (codes "blocked_packets") rows value ≡ some blocked)
        × (contains value (distinct_values blocked_apps_query rows) ≡ not (blocked == 0))
  unfolding named_cell distinct_values app_summary blocked_apps_query get
  blocked_apps-app_summary rows value =
      let group = keep (λ e. e.application == value) rows in
      (
        _,
        refl,
        rw
            (
              s.distinct-kept is_blocked application rows value,
              s.cell-group application (sum_when is_blocked) rows value,
              s.aggregate-sum is_blocked group,
            )
            (any-keep (s.holds is_blocked) (λ e. e.application == value) rows),
      )
