-- ===== src/Postgres/Definitions/Listing.antt =====
-- What the list of reports and the lookup of one return, against the table.
use pg_analytics_service.Prelude.{
  ◌++◌, ℕ, suc, ◌≡◌, ◌≤◌, refl, ap, ◌∙◌, ◌⊎◌, inl, inr, Bool, true, false, Bool-cases, ◌&&◌, Option,
  none, some, Option-cases, List, [], ◌∷◌, map, keep, count_if, All, take, drop, Text, codes, ◌=ₜ◌,
  =ₜ_iff, pos, pos_part, IsTotal, IsSortedBy, sort_rows-IsSortedBy, count_if-sort_rows, arith,
}
use pg_analytics_service.Domain.Errors.{err_code_not_found, new_app_error, err_no_rows}
use pg_analytics_service.Domain.Models.{ReportListFilter}
use pg_analytics_service.Effects.{ok, err}
use pg_analytics_service.Postgres.Database.{DefinitionRow, World, Driver}
use pg_analytics_service.Postgres.Reports.{page}
use pg_analytics_service.Postgres.Recompute.Rebuild.{IsUp, statement_runs, statement_fails}
use pg_analytics_service.Postgres.Definitions.{
  clamped_filter, sort_field, sort_direction, field_order, definition_order, is_listed,
  count_listed, listed_rows, select_listed, scan_report_definition, scanned, find_public,
  select_public, found_definition, list_report_definitions, get_report_definition,
}

field_order-IsTotal :
    (collate : Text → Text → Bool) (field : Text)
    → IsTotal collate
    → IsTotal (field_order collate field)
unfolding field_order
field_order-IsTotal collate field total a b h =
    ground (arith, total a.slug b.slug, total a.name b.name)

definition_order-IsTotal :
    (collate : Text → Text → Bool) (field direction : Text)
    → IsTotal collate
    → IsTotal (definition_order collate field direction)
unfolding definition_order
definition_order-IsTotal collate field direction total a b h = ground (
  arith,
  field_order-IsTotal collate field total a b,
  field_order-IsTotal collate field total b a,
)

keep-All : {A : Type 0} (p : A → Bool) (xs : List A) → All (λ x. p x ≡ true) (keep p xs)
unfolding keep
keep-All p [] = tt
keep-All p (x ∷ xs) = elim (Bool-cases (p x)) [
  | inl h ↦ rw h (h, keep-All p xs)
  | inr h ↦ rw h (keep-All p xs)
]

-- The limit and the offset that the query is made with.
limit_of :
    (filter : ReportListFilter)
    → (clamped_filter filter).limit ≡ pos (pos_part (clamped_filter filter).limit)
unfolding clamped_filter
limit_of filter = ground arith

offset_of :
    (filter : ReportListFilter)
    → (clamped_filter filter).offset ≡ pos (pos_part (clamped_filter filter).offset)
unfolding clamped_filter
offset_of filter = ground arith

limit_bounds :
    (filter : ReportListFilter)
    → (1 ≤ pos_part (clamped_filter filter).limit) × (pos_part (clamped_filter filter).limit ≤ 100)
unfolding clamped_filter
limit_bounds filter = ground arith

-- Whatever text a request gives, the `ORDER BY` has one of four fields and one of two directions.
pub order_by_known :
    (sort order : Text)
    → ((sort_field sort ≡ codes "slug")
        ⊎ (sort_field sort ≡ codes "name")
        ⊎ (sort_field sort ≡ codes "updated_at")
        ⊎ (sort_field sort ≡ codes "cache_ttl_seconds"))
      × ((sort_direction order ≡ codes "ASC") ⊎ (sort_direction order ≡ codes "DESC"))
unfolding sort_field sort_direction
order_by_known sort order = ground (
  arith,
  =ₜ_iff sort (codes "slug"),
  =ₜ_iff sort (codes "name"),
  =ₜ_iff sort (codes "updated_at"),
  =ₜ_iff sort (codes "cache_ttl_seconds"),
)

-- A row that is not public or has another slug.
abbrev pub IsHidden : Text → DefinitionRow → Type 0
IsHidden slug row = ((row.slug =ₜ slug) && row.is_public) ≡ false

-- What the look-up found among the rows.
abbrev Found : Text → List DefinitionRow → Option DefinitionRow → Type 0
Found slug rows none = All (IsHidden slug) rows
Found slug rows (some row) =
    (before : List DefinitionRow) × (after : List DefinitionRow) × (rows ≡ before ++ row ∷ after)
    × All (IsHidden slug) before
    × (row.slug ≡ slug)
    × (row.is_public ≡ true)

Found-cons :
    (slug : Text) (row : DefinitionRow) (rows : List DefinitionRow) (o : Option DefinitionRow)
    → IsHidden slug row
    → Found slug rows o
    → Found slug (row ∷ rows) o
Found-cons slug row rows none hidden f = (hidden, f)
Found-cons slug row rows (some found) hidden (before, after, split, earlier, same, shown) =
    (row ∷ before, after, ap (λ rs. row ∷ rs) split, (hidden, earlier), same, shown)

find_public-Found :
    (slug : Text) (rows : List DefinitionRow) → Found slug rows (find_public slug rows)
unfolding find_public
find_public-Found slug [] = tt
find_public-Found slug (row ∷ rows) = elim (Bool-cases ((row.slug =ₜ slug) && row.is_public)) [
  | inl h ↦ rw h (
    [],
    rows,
    refl,
    tt,
    ground (arith, =ₜ_iff row.slug slug),
    ground (arith, =ₜ_iff row.slug slug),
  )
  | inr h ↦ rw h (Found-cons slug row rows (find_public slug rows) h (find_public-Found slug rows))
]

module _ (driver : Driver) (up : IsUp driver) where
  module _ (collate ilike : Text → Text → Bool) (request : ReportListFilter) (w : World) where
    abbrev pub listed : List DefinitionRow
    listed = listed_rows collate ilike (clamped_filter request) w.db

    selected :
        select_listed collate ilike (clamped_filter request) w.db
        ≡ ok (
          map (scan_report_definition w.db.windows) (
              take
                (pos_part (clamped_filter request).limit)
                (drop (pos_part (clamped_filter request).offset) listed)),
          w.db,
        )
    unfolding select_listed page
    selected =
        ap (λ n. scanned w.db (page n (clamped_filter request).offset listed)) (limit_of request)
        ∙ ap (λ n. scanned w.db (page (pos (pos_part (clamped_filter request).limit)) n listed))
            (offset_of request)

    answered : list_report_definitions driver collate ilike request w ≡ (
      ok (
        map (scan_report_definition w.db.windows) (
            take
              (pos_part (clamped_filter request).limit)
              (drop (pos_part (clamped_filter request).offset) listed)),
        count_if (is_listed ilike (clamped_filter request).search) w.db.definitions,
      ),
      record w { calls = suc (suc w.calls) },
    )
    unfolding list_report_definitions count_listed
    answered =
        rw
          (statement_runs driver up (count_listed ilike (clamped_filter request).search) w
            (count_if (is_listed ilike (clamped_filter request).search) w.db.definitions) w.db refl)
          (rw (
            statement_runs driver up (select_listed collate ilike (clamped_filter request))
              (record w { calls = suc w.calls }) _ w.db selected))

    -- With the server up and a total order of texts: the list of reports is a page of at most 100 of
    -- the public reports that match the search, each of them once, in the order that the request asks
    -- for, and the total counts them all.
    pub list_report_definitions_lem :
        IsTotal collate
        → let filter = clamped_filter request in
          IsSortedBy
            (definition_order collate (sort_field filter.sort) (sort_direction filter.order))
            listed
          × ((p : DefinitionRow → Bool)
              → count_if p listed
                ≡ count_if p (keep (is_listed ilike filter.search) w.db.definitions))
          × (limit offset : ℕ) × (filter.limit ≡ pos limit)
          × (filter.offset ≡ pos offset)
          × (1 ≤ limit)
          × (limit ≤ 100)
          × ((list_report_definitions driver collate ilike request w).0
              ≡ ok (
                map (scan_report_definition w.db.windows) (take limit (drop offset listed)),
                count_if (is_listed ilike filter.search) w.db.definitions,
              ))
    unfolding listed_rows
    list_report_definitions_lem total = (
      sort_rows-IsSortedBy _ _ (definition_order-IsTotal collate _ _ total),
      λ p. count_if-sort_rows _ p _,
      pos_part (clamped_filter request).limit,
      pos_part (clamped_filter request).offset,
      limit_of request,
      offset_of request,
      (limit_bounds request).0,
      (limit_bounds request).1,
      ap (λ r. r.0) answered,
    )

  -- With the server up: `GetReportDefinition` returns the first row of the table that is public and has
  -- the slug, or the error "not found", and then the table has no such row.
  pub get_report_definition_lem :
      (slug : Text) (w : World)
      → ((before : List DefinitionRow) × (row : DefinitionRow) × (after : List DefinitionRow)
          × (w.db.definitions ≡ before ++ row ∷ after)
          × All (IsHidden slug) before
          × (row.slug ≡ slug)
          × (row.is_public ≡ true)
          × ((get_report_definition driver slug w).0
              ≡ ok (scan_report_definition w.db.windows row)))
        ⊎ (All (IsHidden slug) w.db.definitions
            × ((get_report_definition driver slug w).0
                ≡ err (new_app_error err_code_not_found (codes "report was not found"))))
  unfolding get_report_definition found_definition select_public
  get_report_definition_lem slug w = elim (Option-cases (find_public slug w.db.definitions)) [
    | inl nothing ↦ inr (
      rw nothing at (find_public-Found slug w.db.definitions),
      rw (statement_fails driver up (select_public slug) w err_no_rows (rw nothing)),
    )
    | inr (row, found) ↦
        let (before, after, split, hidden, same, shown) =
          rw found at (find_public-Found slug w.db.definitions) in
        inl (
          before,
          row,
          after,
          split,
          hidden,
          same,
          shown,
          rw (
              statement_runs driver up (select_public slug) w
                (scan_report_definition w.db.windows row) w.db (rw found)),
        )
  ]
