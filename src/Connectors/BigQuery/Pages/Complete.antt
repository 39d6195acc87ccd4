-- ===== src/Connectors/BigQuery/Pages/Complete.antt =====
-- Every row of every page is yielded: the loops of may_connectors/src/dwh/bigquery.rs.

use maysemantic.Connectors.BigQuery.Pages.{
  for_poll, for_next_page, page_url, finished, End, next, poll_url, request, next_page, yield_item,
  after_cells, page, BqQueryResponse, pages, page_rows, Tokens, Server, cells_of,
}
use maysemantic.Connectors.{QueryResult, Row}
use maysemantic.Connectors.BigQuery.{Value, Readers}
use maysemantic.Connectors.BigQuery.Pages.{values}
use mathlib.Core.List.{append-nil, map-append}
use maysemantic.Prelude.{
  arith, get_or, ◌<◌, ◌+◌, ℕ, ◌≡◌, Text, List, map, true, false, ok, some, none, [], ◌∷◌, ◌++◌,
  zero, suc, refl,
}

module _ ⦃R : Readers⦄ where
  -- these rows of JSON are read as these rows of values
  abbrev pub AreRead : List (Text × Text) → List (List Value) → List Row → Type 0
  AreRead fields [] [] = Unit
  AreRead fields (row ∷ rows) (r ∷ rs) = (cells_of fields row ≡ values r) × AreRead fields rows rs
  AreRead fields _ _ = ⊥

module _ ⦃R : Readers⦄ (S : Server) (base : Text) (tokens : Tokens) where
  -- From a response, at the k-th request, the server lets the job complete and the pages end within n
  -- requests, and the pages hold these rows.
  pub data Delivers : ℕ → ℕ → BqQueryResponse → List Row → Type 0 where
    waiting :
        {k n : ℕ} {r : BqQueryResponse} {rows : List Row} (r' : BqQueryResponse)
        → r.job_complete ≡ false
        → request S base tokens k for_poll (poll_url S base tokens r) ≡ ok r'
        → Delivers (k + 1) n r' rows
        → Delivers k (suc n) r rows
    last_page :
        {k n : ℕ} {r : BqQueryResponse} {rows : List Row} (fields : List (Text × Text))
        → r.job_complete ≡ true
        → r.schema ≡ some fields
        → AreRead fields (get_or [] r.rows) rows
        → r.page_token ≡ none
        → Delivers k n r rows
    more_pages :
        {k n : ℕ} {r : BqQueryResponse} {all : List Row} (rows rest : List Row)
        (fields : List (Text × Text)) (page_token : Text) (r' : BqQueryResponse)
        → r.job_complete ≡ true
        → r.schema ≡ some fields
        → AreRead fields (get_or [] r.rows) rows
        → r.page_token ≡ some page_token
        → request S base tokens k for_next_page (page_url S base tokens r page_token) ≡ ok r'
        → Delivers (k + 1) n r' rest
        → all ≡ rows ++ rest
        → Delivers k (suc n) r all

  page_rows-AreRead :
      (fields : List (Text × Text)) (rows : List (List Value)) (rs : List Row) (items : QueryResult)
      (stop : End)
      → AreRead fields rows rs
      → page_rows fields rows (items, stop) ≡ (map ok rs ++ items, stop)
  unfolding page_rows after_cells yield_item
  page_rows-AreRead fields [] [] items stop h = refl
  page_rows-AreRead fields [] (r ∷ rs) items stop h = absurd h
  page_rows-AreRead fields (row ∷ rows) [] items stop h = absurd h
  page_rows-AreRead fields (row ∷ rows) (r ∷ rs) items stop h =
      rw (h.0, page_rows-AreRead fields rows rs items stop h.1) refl

  -- Where the job completes and its pages end, the stream yields every row of every page once, in
  -- order, and no error, and comes to its end: on any fuel above the number of requests that this takes.
  pub pages-Delivers :
      (fuel k n : ℕ) (r : BqQueryResponse) (rows : List Row)
      → Delivers k n r rows
      → n < fuel
      → pages S base tokens fuel k r ≡ (map ok rows, finished)
  unfolding pages page next_page next
  pages-Delivers zero k n r rows d lt = absurd (omega arith)
  pages-Delivers (suc fuel) k n r rows (waiting {n = m} r' c q d) lt =
      rw (c, q) (pages-Delivers fuel (k + 1) m r' rows d (omega arith))
  pages-Delivers (suc fuel) k n r rows (last_page fields c s a p) lt =
      rw (c, s, p, page_rows-AreRead fields (get_or [] r.rows) rows [] finished a)
        (rw append-nil refl)
  pages-Delivers (suc fuel) k n r all
        (more_pages {n = m} rows rest fields page_token r' c s a p q d e) lt =
      let later = pages-Delivers fuel (k + 1) m r' rest d (omega arith) in
      rw
        (
          c,
          s,
          p,
          q,
          later,
          page_rows-AreRead fields (get_or [] r.rows) rows (map ok rest) finished a,
          e,
          map-append,
        )
        refl
