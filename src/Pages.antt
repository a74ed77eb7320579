-- ===== src/Pages.antt =====
-- The pages in which lists of rows are answered: `skip`, `take`, `total` and `totalPages` of the queries of
-- backend/src/modules/admin/admin.service.ts and their likes. A table keeps its rows in the order in which they
-- were created. A page and a limit are naturals; what is missing or zero is the default.
pub mod Cover
pub mod Rows
use hoyhel.Prelude.{
  ℕ, zero, suc, ◌+◌, ◌-◌, ◌*◌, ◌/◌, Bool, List, [], ◌∷◌, ◌++◌, Option, none, some, take, drop,
  if◌then◌else◌, find_many, count,
}
use hoyhel.Pricing.{or_num}

pub record Page {ℓ} (A : Type ℓ) : Type ℓ where
  pub rows : List A
  pub total : ℕ
  pub page : ℕ
  pub total_pages : ℕ

module _ {ℓ} {A : Type ℓ} where
  -- `orderBy: { createdAt: 'desc' }`
  unfoldable pub newest_first : List A → List A
  newest_first [] = []
  newest_first (x ∷ xs) = newest_first xs ++ x ∷ []

  -- `orderBy` on a column: `before a b` where `a` may stand before `b`
  abbrev insert_by : (A → A → Bool) → A → List A → List A
  insert_by before x [] = x ∷ []
  insert_by before x (y ∷ ys) =
      let rest = insert_by before x ys in if before x y then x ∷ y ∷ ys else y ∷ rest

  unfoldable pub sort_by : (A → A → Bool) → List A → List A
  sort_by before [] = []
  sort_by before (x ∷ xs) = insert_by before x (sort_by before xs)

  -- `skip: (page - 1) * limit, take: limit`
  unfoldable pub page_of : ℕ → ℕ → List A → List A
  page_of limit page xs = take limit (drop ((page - 1) * limit) xs)

-- `Math.ceil(total / limit)`
unfoldable pub total_pages_of : ℕ → ℕ → ℕ
total_pages_of limit total = (total + (limit - 1)) / limit

module _ {ℓ} {A : Type ℓ} where
  -- `count` and `findMany` with one `where`: `ordered` is the order asked for.
  unfoldable pub paginate :
      ℕ → Option ℕ → Option ℕ → (A → Bool) → (List A → List A) → List A → Page A
  unfolding page_of total_pages_of
  paginate standard page limit p ordered xs = record {
    rows = page_of (or_num limit standard) (or_num page 1) (ordered (find_many p xs));
    total = count p xs;
    page = or_num page 1;
    total_pages = total_pages_of (or_num limit standard) (count p xs);
  }
