-- ===== src/Services/Platform.antt =====
-- What the services take from outside: the code that is not in the repository, the clock, and the
-- identifiers that uuid4 draws. Bytes are a text with a character for each.
use tci.Prelude.{ℕ, Bool, Option, none, some, String}
use tci.Models.Enums.Types.{DefaultRefType}
use tci.Models.Rows.{Uuid, Instant}
use tci.Session.{Result, ok, err, problem, ProblemCode}
use tci.Webhooks.Json.{Json}

pub record Platform : Type 0 where
  -- `hashlib.sha256(...).hexdigest()`
  pub sha256_hexdigest : String → String
  -- `hmac.compare_digest` on texts
  pub compare_digest : String → String → Result Bool
  -- `Fernet.decrypt` under the key of the settings; `none` is InvalidToken
  pub fernet_decrypt : String → Option String
  -- the commit that git says a ref of a remote is at
  pub resolve : String → DefaultRefType → String → Result String
  -- `str` of a list or an object
  pub show_container : Json → String
  -- `str.isdecimal` and `int`
  pub isdecimal : String → Bool
  pub int : String → ℕ

-- The clock readings and the identifiers of one delivery. `clock` is read for the staleness tests.
pub record Moment : Type 0 where
  pub now : Instant
  pub clock : Instant
  pub server_now : Instant
  pub event_uuid : Uuid
  pub run_uuid : Uuid
  pub cursor_uuid : Uuid
  pub commit_uuid : String → Uuid

-- `decrypt_secret_from_storage` of domain/services/repository_connection_support.py.
abbrev decrypted : Option String → Result String
decrypted none = err (problem ProblemCode.connection_auth_failed)
decrypted (some secret) = ok secret

unfoldable pub decrypt_secret_from_storage : Platform → String → Result String
decrypt_secret_from_storage p encrypted = decrypted (p.fernet_decrypt encrypted)
