-- ===== src/Api/Fetch.antt =====
-- `request` of api.ts: a response of the hub as a value or an error.
use argus_observability.Prelude.{ℕ, Bool, true, false, ◌++◌}
use argus_observability.Prelude.Text.{Text, lit}
use argus_observability.Prelude.Decimal.{decimal}
use argus_observability.Page.Hub.{Json}

pub data Result {ℓ} (A : Type ℓ) : Type ℓ where
  ok : A → Result A
  err : Text → Result A

infixl 5 ◌>>=◌
abbrev pub ◌>>=◌ {ℓ κ} : {A : Type ℓ} {B : Type κ} → Result A → (A → Result B) → Result B
ok a >>= f = f a
err e >>= f = err e

abbrev pub map_result {ℓ κ} : {A : Type ℓ} {B : Type κ} → (A → B) → Result A → Result B
map_result f (ok a) = ok (f a)
map_result f (err e) = err e

-- What `fetch` settles with. `json` is what `res.json()` settles with.
pub record Response : Type 0 where
  pub is_ok : Bool
  pub status : ℕ
  pub status_text : Text
  pub json : Result Json

-- `${res.status} ${res.statusText}`.
abbrev pub status_line : Response → Text
status_line res = decimal res.status ++ lit " " ++ res.status_text

-- `if (!res.ok) throw new Error(...)`.
unfoldable pub check_status : Response → Result Response
check_status res = elim res.is_ok [ true ↦ ok res | false ↦ err (status_line res) ]

-- The body of `request`, from what `fetch` settled with; a rejection is passed on.
unfoldable pub request : Result Response → Result Json
unfolding check_status
request fetched = do res ← fetched; checked ← check_status res; checked.json

-- The body of `deleteWorkloadGroup` reads the status only.
unfoldable pub request_status : Result Response → Result (Unit {0})
unfolding check_status
request_status fetched = do res ← fetched; _ ← check_status res; ok tt
