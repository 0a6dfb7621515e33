-- ===== src/Core/Pagination.antt =====
-- backend/app/core/pagination.py: pages of a list endpoint, and the sort field.
use text.Mathlib.Text.{◌==◌ as str_eq}
use Prim.Native.Char.{code}
use native.Mathlib.Nat.{div-mul-le_self, lt-div-mul-add, le-div_iff_mul-le, add-mul}
use python_fullstack.Base.{
  ℕ, ◌+◌, ◌-◌, ◌*◌, ◌/◌, ◌≤◌, ◌<◌, ◌≡◌, refl, Bool, true, false, ◌||◌, Option, none, some, List, [],
  ◌∷◌, String, max, ◌==◌, if◌then◌else◌, arith, Bool-cases, inl, inr, ◌⊎◌,
}

abbrev pub max_page_size : ℕ
max_page_size = 100

abbrev pub default_page_size : ℕ
default_page_size = 25

pub record PageParams : Type 0 where
  pub page : ℕ
  pub page_size : ℕ

-- `(self.page - 1) * self.page_size`, with `page` at least 1
unfoldable pub offset : PageParams → ℕ
offset p = (p.page - 1) * p.page_size

abbrev pub limit : PageParams → ℕ
limit p = p.page_size

-- `max(1, -(-total // page_size))`
unfoldable pub pages : ℕ → ℕ → ℕ
pages total page_size = max 1 ((total + (page_size - 1)) / page_size)

-- `startswith("-")` and `lstrip("-")`
unfoldable pub is_descending : String → Bool
is_descending String.[] = false
is_descending (String.◌∷◌ c s) = code c == 45

unfoldable pub strip_minus : String → String
strip_minus String.[] = String.[]
strip_minus (String.◌∷◌ c s) = if code c == 45 then strip_minus s else String.◌∷◌ c s

abbrev pub listed : List String → String → Bool
listed [] f = false
listed (g ∷ gs) f = str_eq g f || listed gs f

abbrev or_default : Option String → String → String
or_default none default = default
or_default (some String.[]) default = default
or_default (some s) default = s

-- `SortParams.parse`
unfoldable pub parse : Option String → List String → String → String × Bool
unfolding is_descending strip_minus
parse sort allowed default =
    let raw = or_default sort default in
    if listed allowed (strip_minus raw)
    then (strip_minus raw, is_descending raw)
    else (strip_minus default, is_descending default)

-- Whatever a client asks for, the field that reaches ORDER BY is one of those allowed, or the
-- endpoint's own default.
pub parse-listed :
    (sort : Option String) (allowed : List String) (default : String)
    → (listed allowed (parse sort allowed default).0 ≡ true)
      ⊎ (parse sort allowed default ≡ (strip_minus default, is_descending default))
unfolding parse
parse-listed sort allowed default =
    elim (Bool-cases (listed allowed (strip_minus (or_default sort default)))) [
      | inl e ↦ rw e (inl e)
      | inr e ↦ rw e (inr refl)
    ]

-- With a page size above 0, every row is on a page: row `r` of `total` is between the offset of page `r / page_size + 1` and
-- its end, and that page is one of the `pages`.
pub row_on_page :
    (total page_size r : ℕ)
    → 0 < page_size
    → r < total
    → let p : PageParams = record { page = r / page_size + 1; page_size = page_size } in
      (p.page ≤ pages total page_size) × (offset p ≤ r) × (r < offset p + limit p)
unfolding offset pages
row_on_page total page_size r h k =
    (omega (arith, last), rw index (div-mul-le_self r page_size), rw index (lt-div-mul-add h))
  where
    index : r / page_size + 1 - 1 ≡ r / page_size
    index = omega arith

    next : (r / page_size + 1) * page_size ≡ r / page_size * page_size + page_size
    next = omega (arith, add-mul (r / page_size) 1 page_size)

    last : r / page_size + 1 ≤ (total + (page_size - 1)) / page_size
    last = (le-div_iff_mul-le h).1 (rw next (omega (arith, div-mul-le_self r page_size)))
