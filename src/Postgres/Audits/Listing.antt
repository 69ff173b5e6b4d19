-- ===== src/Postgres/Audits/Listing.antt =====
-- What the audit table keeps and what its list returns.
use pg_analytics_service.Prelude.{
  ℕ, suc, ◌+◌, ◌≡◌, refl, ap, ◌∙◌, Bool, true, ◌&&◌, List, [], ◌∷◌, ◌++◌, map, keep, count_if,
  count_if-append, count_if-keep, sym, take, drop, if◌then◌else◌, pos, IsTotal, IsSortedBy,
  sort_rows-IsSortedBy, count_if-sort_rows, arith,
}
use pg_analytics_service.Domain.Models.{AuditEntry, AuditFilter}
use pg_analytics_service.Effects.{ok}
use pg_analytics_service.Postgres.Database.{AuditRow, World, Driver}
use pg_analytics_service.Postgres.Reports.{page}
use pg_analytics_service.Postgres.Recompute.Rebuild.{IsUp, statement_runs}
use pg_analytics_service.Postgres.Audits.{
  new_audit_row, insert_audit, passes_filter, newest_first, count_audits, scan_audit, listed_audits,
  scanned_audits, select_audits, create_entry, select_entries,
}

newest_first-IsTotal : IsTotal newest_first
unfolding newest_first
newest_first-IsTotal a b h = ground arith

counted :
    (filter : AuditFilter) (p : AuditRow → Bool) (rows : List AuditRow)
    → count_if p (listed_audits filter rows) ≡ count_if (λ r. passes_filter filter r && p r) rows
unfolding listed_audits
counted filter p rows =
    count_if-sort_rows newest_first p (keep (passes_filter filter) rows)
    ∙ count_if-keep p (passes_filter filter) rows

all_pass :
    (filter : AuditFilter) (rows : List AuditRow)
    → count_if (λ r. passes_filter filter r && true) rows ≡ count_if (passes_filter filter) rows
unfolding count_if
all_pass filter [] = refl
all_pass filter (r ∷ rows) = ground (arith, all_pass filter rows)

module _ (driver : Driver) (up : IsUp driver) where
  select_entries_runs :
      (filter : AuditFilter) (limit offset : ℕ) (w : World)
      → filter.limit ≡ pos limit
      → filter.offset ≡ pos offset
      → select_entries driver filter w ≡ (
        ok (
          map scan_audit (take limit (drop offset (listed_audits filter w.db.audits))),
          count_if (passes_filter filter) w.db.audits,
        ),
        record w { calls = suc (suc w.calls) },
      )
  unfolding select_entries count_audits select_audits page
  select_entries_runs filter limit offset w l o =
      rw
        (statement_runs driver up (count_audits filter) w
          (count_if (passes_filter filter) w.db.audits) w.db refl)
        (rw (
          statement_runs driver up (select_audits filter) (record w { calls = suc w.calls })
            (map scan_audit (take limit (drop offset (listed_audits filter w.db.audits)))) w.db
            (ap (λ n. scanned_audits w.db (page n filter.offset (listed_audits filter w.db.audits)))
                l
              ∙ ap
                  (λ n. scanned_audits w.db (page (pos limit) n (listed_audits filter w.db.audits)))
                  o)))

  -- The row that an entry becomes.
  abbrev pub row_of : World → AuditEntry → AuditRow
  row_of w entry = new_audit_row (suc w.db.audit_seq) w.now entry

  -- With the server up: after `CreateEntry` the list with any filter returns a page of the rows that
  -- pass the filter, the newest first, the old ones as they were and the new one with them, and the
  -- total counts them all.
  pub select_entries-create_entry :
      (entry : AuditEntry) (filter : AuditFilter) (limit offset : ℕ) (w : World)
      → filter.limit ≡ pos limit
      → filter.offset ≡ pos offset
      → (rows : List AuditRow) × IsSortedBy newest_first rows
        × ((p : AuditRow → Bool)
            → count_if p rows
              ≡ count_if (λ r. passes_filter filter r && p r) w.db.audits
                + (if passes_filter filter (row_of w entry) && p (row_of w entry) then 1 else 0))
        × ((create_entry driver entry w).0 ≡ ok tt)
        × ((select_entries driver filter (create_entry driver entry w).1).0
            ≡ ok (map scan_audit (take limit (drop offset rows)), count_if (λ _. true) rows))
  unfolding create_entry insert_audit listed_audits
  select_entries-create_entry entry filter limit offset w l o = (
    listed_audits filter (w.db.audits ++ row_of w entry ∷ []),
    sort_rows-IsSortedBy newest_first _ newest_first-IsTotal,
    λ p.
        counted filter p (w.db.audits ++ row_of w entry ∷ [])
        ∙ (count_if-append (λ r. passes_filter filter r && p r) w.db.audits (row_of w entry ∷ [])
            ∙ unfold count_if in (omega arith)),
    ap (λ r. r.0) created,
    rw created (
        ap (λ r. r.0)
          (select_entries_runs filter limit offset
            (record w {
              db = record w.db {
                audits = w.db.audits ++ row_of w entry ∷ [];
                audit_seq = suc w.db.audit_seq;
              };
              calls = suc w.calls;
            })
            l o)
        ∙ ap
            (λ n. ok (
              map scan_audit (
                  take limit
                    (drop offset (listed_audits filter (w.db.audits ++ row_of w entry ∷ [])))),
              n,
            ))
            (sym (
              counted filter (λ _. true) (w.db.audits ++ row_of w entry ∷ [])
              ∙ all_pass filter (w.db.audits ++ row_of w entry ∷ [])))),
  )
    where
      created : create_entry driver entry w ≡ (
        ok tt,
        record w {
          db = record w.db {
            audits = w.db.audits ++ row_of w entry ∷ [];
            audit_seq = suc w.db.audit_seq;
          };
          calls = suc w.calls;
        },
      )
      created = statement_runs driver up (insert_audit w.now entry) w tt _ refl
