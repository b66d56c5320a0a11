-- ===== src/Api/Pages.antt =====
-- internal/httpapi/pagination.go, and the listing of jobs.go: pages of a table, by cursors.
pub mod Cursors
pub mod Walk
use text.Mathlib.Text.{◌==◌ as str_eq}
use Prim.Native.Char.{Char, code}
use Prim.Native.String
use Prim.Native.String.{◌++◌ as append}
use mathlib.Core.Option
use proxmox_manager.Base.{
  ℕ, zero, suc, String, ◌+◌, Bool, true, false, ◌&&◌, not, Option, none, some, List, [], ◌∷◌, ◌++◌,
  length, ltb, ◌==◌, if◌then◌else◌, Result, ok, err, failure, take, last,
}
use proxmox_manager.Domain.{ProvisioningJob}
use proxmox_manager.Store.{Db}
use proxmox_manager.Jobs.Listing.{ListFilter, list}

pub record Cursor : Type 0 where
  -- 0 is the zero time
  pub after : ℕ
  pub after_id : String

-- encoding/base64, the format RFC 3339 of a time, the text of an identifier, and strconv.Atoi, where
-- a negative number is 0
pub record CursorText : Type 0 where
  pub encode : String → String
  pub decode : String → Option String
  pub format_time : ℕ → String
  pub parse_time : String → Option ℕ
  pub id_text : ℕ → String
  pub id_of : String → ℕ
  pub atoi : String → Option ℕ

-- strings.Cut at the first "|"
abbrev pub prepend : Char → Option (String × String) → Option (String × String)
prepend c none = none
prepend c (some (before, after)) = some (String.◌∷◌ c before, after)

unfoldable pub cut : String → Option (String × String)
cut String.[] = none
cut (String.◌∷◌ c s) = let rest = cut s in if code c == 124 then some ("", s) else prepend c rest

module _ (text : CursorText) where
  unfoldable pub encode_cursor : ℕ → String → String
  encode_cursor after after_id = text.encode (append (append (text.format_time after) "|") after_id)

  abbrev with_time : String → Option ℕ → Result Cursor
  with_time after_id none = err failure
  with_time after_id (some t) = ok (record { after = t; after_id = after_id })

  abbrev with_parts : Option (String × String) → Result Cursor
  with_parts none = err failure
  with_parts (some (after, after_id)) =
      if str_eq after_id "" then err failure else with_time after_id (text.parse_time after)

  abbrev decoded_cursor : Option String → Result Cursor
  decoded_cursor none = err failure
  decoded_cursor (some raw) = with_parts (cut raw)

  unfoldable pub decode_cursor : String → Result Cursor
  unfolding cut
  decode_cursor s =
      if str_eq s ""
      then ok (record { after = 0; after_id = "" })
      else decoded_cursor (text.decode s)

  abbrev positive : Option ℕ → Result ℕ
  positive none = err failure
  positive (some n) = if n == 0 then err failure else ok n

  abbrev capped_limit : Result ℕ → Result ℕ
  capped_limit (ok n) = ok (if ltb 200 n then 200 else n)
  capped_limit (err e) = err e

  -- the query's "limit": 50 where there is none, 200 at most
  unfoldable pub page_limit : String → Result ℕ
  page_limit raw = capped_limit (if str_eq raw "" then ok 50 else positive (text.atoi raw))

  -- the cursor is that of the page's last row, page[limit-1]
  unfoldable pub paginate :
      {A : Type 0} → List A → ℕ → (A → ℕ) → (A → String) → List A × Option String
  unfolding encode_cursor
  paginate items limit created_at id =
      if ltb limit (length items)
      then (
        take limit items,
        Option.map (λ x. encode_cursor (created_at x) (id x)) (last (take limit items)),
      )
      else (items, none)

  -- NULL for the zero time
  abbrev pub position : Cursor → Option (ℕ × ℕ)
  position c = if c.after == 0 then none else some (c.after, text.id_of c.after_id)

  abbrev pub listed :
      (String → ℕ → Bool)
      → ListFilter
      → Db
      → Result Cursor
      → Result ℕ
      → Result (List ProvisioningJob × Option String)
  listed matches filter db (ok cursor) (ok limit) = ok (
      paginate (list matches filter (position cursor) (limit + 1) db) limit (λ j. j.created_at)
        (λ j. text.id_text j.id))
  listed matches filter db (err e) limit = err e
  listed matches filter db (ok cursor) (err e) = err e

  -- GET /v1/jobs; an error is 400, INVALID_PAGE_PARAMS
  unfoldable pub list_jobs :
      (String → ℕ → Bool)
      → ListFilter
      → String
      → String
      → Db
      → Result (List ProvisioningJob × Option String)
  unfolding decode_cursor page_limit paginate
  list_jobs matches filter cursor limit db =
      listed matches filter db (decode_cursor cursor) (page_limit limit)
