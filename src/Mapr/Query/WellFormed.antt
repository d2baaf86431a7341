-- ===== src/Mapr/Query/WellFormed.antt =====
-- internal/mapr/query.go: what holds of a query that NewQuery accepts.
use dtail.Base.{
  ◌≡◌, ap, ◌⊎◌, inl, inr, refl, Bool, true, false, not, ◌&&◌, List, [], ◌∷◌, Option, none, some,
  arith, Bytes, codes, is_empty, str_eq, length, Bool-cases,
}
use mathlib.Core.Path.{subst}
use dtail.Mapr.Float.{Float64}
use dtail.Mapr.Result.{Result, ok, err}
use dtail.Mapr.Token.{tokenize}
use dtail.Mapr.Select.{SelectCondition}
use dtail.Mapr.Query.{
  Query, default_group_by, order_field_is_valid, checked, default_table, finished, parse_tokens,
  initial_query, new_query,
}

-- Whether a list has a first element.
abbrev pub has_first {ℓ} : {A : Type ℓ} → List A → Bool
has_first [] = false
has_first (x ∷ xs) = true

module _ (fl : Float64) where
  -- What the aggregation and the clients take for granted of a query.
  pub record IsWellFormed (q : Query fl) : Type 0 where
    pub has_select : has_first q.select ≡ true
    pub has_group_by : has_first q.group_by ≡ true
    pub selects_order_by :
        (is_empty q.order_by ≡ true) ⊎ (order_field_is_valid q.order_by q.select ≡ true)
    pub csv_has_table : str_eq q.log_format (codes "csv") ≡ true → is_empty q.table ≡ false

  abbrev pub AllWellFormed : Option (Result (Option (Query fl))) → Type 0
  AllWellFormed (some (ok (some q))) = IsWellFormed q
  AllWellFormed _ = Unit {0}

  default_group_by-first :
      (sc : SelectCondition) (gs : List Bytes) → has_first (default_group_by sc gs) ≡ true
  unfolding default_group_by
  default_group_by-first sc [] = refl
  default_group_by-first sc (g ∷ gs) = refl

  -- What checked leaves to default_table.
  record IsChecked (q : Query fl) : Type 0 where
    has_select : has_first q.select ≡ true
    has_group_by : has_first q.group_by ≡ true
    selects_order_by :
        (is_empty q.order_by ≡ true) ⊎ (order_field_is_valid q.order_by q.select ≡ true)

  abbrev ResultChecked : Result (Query fl) → Type 0
  ResultChecked (ok q) = IsChecked q
  ResultChecked (err e) = Unit {0}

  order_cases :
      (order_by : Bytes) (scs : List SelectCondition)
      → (not (is_empty order_by) && not (order_field_is_valid order_by scs)) ≡ false
      → (is_empty order_by ≡ true) ⊎ (order_field_is_valid order_by scs ≡ true)
  order_cases order_by scs h = ground (arith, h)

  checked-IsChecked :
      (scs : List SelectCondition) (q : Query fl)
      → q.select ≡ scs
      → ResultChecked (checked fl scs q)
  checked-IsChecked [] q h = unfold checked in tt
  checked-IsChecked (sc ∷ scs) q h =
      unfold checked in
      elim (Bool-cases
        (not (is_empty q.order_by) && not (order_field_is_valid q.order_by (sc ∷ scs)))) [
          | inl wrong ↦ rw wrong tt
          | inr right ↦ rw right (record {
            has_select = ap has_first h;
            has_group_by = default_group_by-first sc q.group_by;
            selects_order_by = rw h (order_cases q.order_by (sc ∷ scs) right);
          })
        ]

  default_table-IsWellFormed : (q : Query fl) → IsChecked q → IsWellFormed (default_table fl q)
  default_table-IsWellFormed q h =
      unfold default_table in
      elim (Bool-cases (str_eq q.log_format (codes "csv") && is_empty q.table)) [
        | inl csv ↦ rw csv (record {
          has_select = h.has_select;
          has_group_by = h.has_group_by;
          selects_order_by = h.selects_order_by;
          csv_has_table = λ e. refl;
        })
        | inr tabled ↦ rw tabled (record {
          has_select = h.has_select;
          has_group_by = h.has_group_by;
          selects_order_by = h.selects_order_by;
          csv_has_table = λ e. ground (arith, tabled, e);
        })
      ]

  result_wf :
      (r : Result (Query fl))
      → ResultChecked r
      → AllWellFormed (some (elim r [ err e ↦ err e | ok q' ↦ ok (some (default_table fl q')) ]))
  result_wf (err e) h = tt
  result_wf (ok q) h = default_table-IsWellFormed q h

  accepted :
      (q : Query fl) (r : Option (Result (Option (Query fl))))
      → AllWellFormed r
      → r ≡ some (ok (some q))
      → IsWellFormed q
  accepted q r h e = subst (λ x. AllWellFormed x) e h

  finished-AllWellFormed : (r : Option (Result (Query fl))) → AllWellFormed (finished fl r)
  unfolding finished
  finished-AllWellFormed none = tt
  finished-AllWellFormed (some (err e)) = tt
  finished-AllWellFormed (some (ok q)) =
      result_wf (checked fl q.select q) (checked-IsChecked q.select q refl)

  -- A query that NewQuery accepts selects something, is grouped by something, is ordered by a
  -- storage of the select clause if by anything, and names a table if its log format is csv.
  pub new_query-IsWellFormed :
      (query_str : Bytes) (q : Query fl)
      → new_query fl query_str ≡ some (ok (some q))
      → IsWellFormed q
  new_query-IsWellFormed [] q h = accepted q (some (ok none)) tt (unfold new_query in h)
  new_query-IsWellFormed (c ∷ cs) q h =
      accepted q _
        (finished-AllWellFormed (
          parse_tokens fl (length (tokenize (c ∷ cs))) (tokenize (c ∷ cs))
            (initial_query fl (c ∷ cs) (tokenize (c ∷ cs)))))
        (unfold new_query in h)
