-- ===== src/Pagination.antt =====
-- common/utils/pagination.util.ts
use salepoint_backend.Prelude.{
  ℕ, zero, suc, ◌+◌, ◌-◌, ◌*◌, ◌/◌, ◌≤◌, ◌<◌, ◌≡◌, ◌↔◌, Bool, true, Option, none, some, List,
  String, arith, ltb, take, drop, filter_by, count_by, All, All-take, All-drop, All-mono,
  filter_by-All,
}

-- The validators give 1 ≤ page and 1 ≤ limit ≤ 100.
pub record PaginationQuery : Type 0 where
  pub page : ℕ
  pub limit : ℕ
  pub search : Option String

-- The getter `skip`.
unfoldable pub skip : PaginationQuery → ℕ
skip q = (q.page - 1) * q.limit

pub record Meta : Type 0 where
  pub total : ℕ
  pub page : ℕ
  pub limit : ℕ
  pub total_pages : ℕ
  pub has_next_page : Bool
  pub has_prev_page : Bool

pub record PaginatedResult (T : Type 0) : Type 0 where
  pub items : List T
  pub info : Meta

-- `Math.ceil(a / b)` for a positive `b`.
abbrev ceil_div : ℕ → ℕ → ℕ
ceil_div a b = (a + (b - 1)) / b

unfoldable pub paginate : {T : Type 0} → List T → ℕ → PaginationQuery → PaginatedResult T
paginate items total q =
    let pages = ceil_div total q.limit in
    record {
      items = items;
      info = record {
        total = total;
        page = q.page;
        limit = q.limit;
        total_pages = pages;
        has_next_page = ltb q.page pages;
        has_prev_page = ltb 1 q.page;
      };
    }

lt-ceil_div_iff : (p a b : ℕ) → 1 ≤ b → (p < ceil_div a b) ↔ (p * b < a)
lt-ceil_div_iff p a b h = (λ lt. grind arith, λ lt. grind arith)

pred-mul-add : (p l : ℕ) → 1 ≤ p → (p - 1) * l + l ≡ p * l
pred-mul-add zero l h = elim h [ ]
pred-mul-add (suc p) l h = let e : suc p - 1 ≡ p = omega arith in rw e (omega arith)

-- For a valid query (page and limit at least 1), `hasNextPage` is set exactly when rows remain after the rows of this page.
has_next_iff_rows_remain :
    {T : Type 0} (items : List T) (total : ℕ) (q : PaginationQuery)
    → 1 ≤ q.page
    → 1 ≤ q.limit
    → ((paginate items total q).info.has_next_page ≡ true) ↔ (skip q + q.limit < total)
unfolding paginate skip
has_next_iff_rows_remain items total q hp hl =
    ground (arith, lt-ceil_div_iff q.page total q.limit hl, pred-mul-add q.page q.limit hp)

-- For a limit of at least 1, the row at index i of `total` rows stands on page i / limit + 1: that page is at most `totalPages`, skips at most i rows, and ends after row i.
row_on_page :
    {T : Type 0} (items : List T) (total i : ℕ) (q : PaginationQuery)
    → 1 ≤ q.limit
    → i < total
    → let q' = record q { page = i / q.limit + 1 } in
      (q'.page ≤ (paginate items total q').info.total_pages)
      × (skip q' ≤ i)
      × (i < skip q' + q'.limit)
unfolding paginate skip
row_on_page items total i q hl hi =
    let e : i / q.limit + 1 - 1 ≡ i / q.limit = omega arith in
    let low : i / q.limit * q.limit ≤ i = grind arith in
    (
      omega (arith, (lt-ceil_div_iff (i / q.limit) total q.limit hl).1 (omega arith)),
      rw e low,
      rw e (grind arith),
    )

-- `skip(query.skip).take(query.limit).getManyAndCount()` and `paginate`: the rows that a condition
-- holds for, sorted, and how many they are.
unfoldable pub page_of :
    {T : Type 0} → (List T → List T) → (T → Bool) → PaginationQuery → List T → PaginatedResult T
unfolding paginate skip
page_of sort where_ q rows =
    paginate (take q.limit (drop (skip q) (sort (filter_by where_ rows)))) (count_by where_ rows) q

-- `if (query.…) qb.andWhere(…)`
abbrev pub asked : {A : Type 0} → (A → Bool) → Option A → Bool
asked test none = true
asked test (some a) = test a

-- A sort that drops and adds no row.
abbrev pub KeepsRows : {T : Type 0} → (List T → List T) → Type 1
KeepsRows {T} sort = (P : T → Type 0) (xs : List T) → All P xs → All P (sort xs)

-- A page shows only rows that its condition holds for.
pub page_of-All :
    {T : Type 0} (P : T → Type 0) (sort : List T → List T) (where_ : T → Bool) (q : PaginationQuery)
    (rows : List T)
    → KeepsRows sort
    → ((x : T) → where_ x ≡ true → P x)
    → All P (page_of sort where_ q rows).items
unfolding page_of paginate
page_of-All P sort where_ q rows keeps holds =
    All-take P q.limit _
      (All-drop P (skip q) _ (keeps P _ (All-mono holds _ (filter_by-All where_ rows))))
