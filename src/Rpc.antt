-- ===== src/Rpc.antt =====
-- What the RPC handlers under backend/services share: the codes of Connect, and the pages of
-- proto/common/v1.
use constell.Prelude.{
  ℕ, String, Bool, not, Option, none, some, if◌then◌else◌, ◌==◌, nat_eq, string_eq, is_positive,
  to_ℕ, ℤ,
}

-- The codes that the handlers return; the texts of the errors are left out.
pub data Code : Type 0 where
  unauthenticated invalid_argument not_found internal permission_denied failed_precondition : Code
  already_exists : Code

pub record PaginationRequest : Type 0 where
  pub limit : ℤ
  pub cursor : String

pub record PaginationResponse : Type 0 where
  pub has_more : Bool
  pub next_cursor : String

-- The defaults for a request's page: 50 rows from the start.
unfoldable pub page_limit : Option PaginationRequest → ℕ
page_limit none = 50
page_limit (some p) = if is_positive p.limit then to_ℕ p.limit else 50

unfoldable pub page_cursor : Option PaginationRequest → String
page_cursor none = ""
page_cursor (some p) = p.cursor

unfoldable pub pagination_response : String → PaginationResponse
pagination_response next = record { has_more = not (next == ""); next_cursor = next }
