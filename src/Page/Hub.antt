-- ===== src/Page/Hub.antt =====
-- `asPage` of page.ts and `asArray` of api.ts: what the panel makes of a JSON body.
use argus_observability.Prelude.{
  ℕ, ◌≡◌, refl, ap, ◌≢◌, Bool, true, false, Option, none, some, List, [], ◌∷◌, length, not, ◌==◌,
}
use argus_observability.Prelude.Text.{Text, lit, text_eq, is_empty}

-- A parsed JSON value. Numbers are natural; the hub sends counts here.
mutual
  pub data Json : Type 0 where
    null : Json
    bool : Bool → Json
    num : ℕ → Json
    str : Text → Json
    arr : Items → Json
    obj : Fields → Json

  pub data Items : Type 0 where
    nil : Items
    cons : Json → Items → Items

  pub data Fields : Type 0 where
    end : Fields
    field : Text → Json → Fields → Fields

abbrev pub items : Items → List Json
items nil = []
items (cons v vs) = v ∷ items vs

-- `value.key`; of two fields with one name `JSON.parse` keeps the last.
unfoldable pub get_field : Text → Fields → Option Json
get_field k end = none
get_field k (field j v fs) = elim (get_field k fs) [
  | none ↦ later (text_eq j k) v
  | some w ↦ some w
]
  where
    later : Bool → Json → Option Json
    later true v = some v
    later false v = none

pub record ListPage {ℓ} (T : Type ℓ) : Type ℓ where
  pub entries : List T
  pub total : ℕ
  pub limit : ℕ
  pub offset : ℕ
  pub truncated : Bool

abbrev number_or : Option Json → ℕ → ℕ
number_or (some (num n)) d = n
number_or _ d = d

-- `Boolean(v)`.
abbrev truthy : Option Json → Bool
truthy none = false
truthy (some null) = false
truthy (some (bool b)) = b
truthy (some (num n)) = not (n == 0)
truthy (some (str s)) = not (is_empty s)
truthy (some _) = true

abbrev pub empty_page {ℓ} : {T : Type ℓ} → ListPage T
empty_page = record { entries = []; total = 0; limit = 0; offset = 0; truncated = false }

abbrev page_of : List Json → Fields → ListPage Json
page_of entries fs = record {
  entries = entries;
  total = number_or (get_field (lit "total") fs) (length entries);
  limit = number_or (get_field (lit "limit") fs) (length entries);
  offset = number_or (get_field (lit "offset") fs) 0;
  truncated = truthy (get_field (lit "truncated") fs);
}

-- The second test of `asPage`, on `value.entries`.
abbrev object_page : Option Json → Fields → ListPage Json
object_page (some (arr xs)) fs = page_of (items xs) fs
object_page _ fs = empty_page

unfoldable pub as_page : Json → ListPage Json
as_page (arr xs) = record {
  entries = items xs;
  total = length (items xs);
  limit = length (items xs);
  offset = 0;
  truncated = false;
}
as_page (obj fs) = object_page (get_field (lit "entries") fs) fs
as_page _ = empty_page

-- `Array.isArray(value) ? value : []`.
unfoldable pub as_array : Json → List Json
as_array (arr xs) = items xs
as_array _ = []

abbrev pub from_list : List Json → Items
from_list [] = nil
from_list (v ∷ vs) = cons v (from_list vs)

-- The body that the hub writes for a page (the fields of its page struct, in order).
abbrev pub page_body : ListPage Json → Json
page_body p = obj (
    field (lit "entries") (arr (from_list p.entries)) (
      field (lit "total") (num p.total) (
        field (lit "limit") (num p.limit)
          (field (lit "offset") (num p.offset) (field (lit "truncated") (bool p.truncated) end)))))

items-from_list : (vs : List Json) → items (from_list vs) ≡ vs
items-from_list [] = refl
items-from_list (v ∷ vs) = ap (◌∷◌ v) (items-from_list vs)

-- `asPage` reads back every page that the hub writes, and reads a bare array as one page that holds
-- all of it: nothing before it, nothing after it, not truncated.
pub as_page-page_body :
    (p : ListPage Json)
    → (as_page (page_body p) ≡ p)
      × (as_page (arr (from_list p.entries)) ≡ record {
        entries = p.entries;
        total = length p.entries;
        limit = length p.entries;
        offset = 0;
        truncated = false;
      })
unfolding as_page get_field lit text_eq
as_page-page_body p = (rw (items-from_list p.entries), rw (items-from_list p.entries))

object_page_without_array :
    (o : Option Json) (fs : Fields)
    → ((xs : Items) → o ≢ some (arr xs))
    → object_page o fs ≡ empty_page
object_page_without_array (some (arr xs)) fs h = absurd (h xs refl)
object_page_without_array _ fs h = refl

-- A body with no `entries` array gives no rows, whatever else it holds.
pub as_page_without_entries :
    (fs : Fields)
    → ((xs : Items) → get_field (lit "entries") fs ≢ some (arr xs))
    → as_page (obj fs) ≡ empty_page
unfolding as_page
as_page_without_entries fs h = object_page_without_array (get_field (lit "entries") fs) fs h
