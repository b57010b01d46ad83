-- ===== src/Ingestion/Fetch.antt =====
-- `ConditionalDownloader` of src/data/ingestion.py: a bounded number of attempts, each of which may
-- publish. The opener, the clock, the random numbers and the disk are a world that answers attempt
-- by attempt; the sleeper raises for some delays.
use lol_predictor.Prelude.{
  fmin, fmax, ℕ, zero, suc, String, ◌-◌, ◌^◌, Bool, true, false, ◌&&◌, ◌||◌, not, Option, none,
  some, List, ◌∷◌, Result, ok, fail, Float, flt, fle, fzero, ◌==◌, eqb, leb, if◌then◌else◌,
}
use lol_predictor.Approval.{is_text}
use lol_predictor.Ingestion.Csv.{
  Rejection, no_file, too_large, html, missing_column, no_identity, no_timestamp, bad_timestamp,
  few_rows, crash, time_regression, same_content, same_id, too_long, disk, Blob, Summary,
  validate_oracle_csv,
}
use lol_predictor.Ingestion.Store.{
  Metadata, Store, Moment, Naming, current_metadata, current_payload, publish,
}

pub record Policy (N : Type 0) : Type 0 where
  pub max_attempts : ℕ
  pub max_execution_seconds : N
  pub base_backoff_seconds : N

-- `cache_state.json`, as far as `fetch` reads it back
pub record Cache : Type 0 where
  pub url : String
  pub etag : Option String
  pub last_modified : Option String

-- The conditional headers of a request.
pub record Request : Type 0 where
  pub if_none_match : Option String
  pub if_modified_since : Option String

-- The header Retry-After: a number of seconds, a date that is so many seconds off, or neither.
pub data Retry (N : Type 0) : Type 0 where
  no_retry : Retry N
  in_seconds on_date : N → Retry N

pub data OpenerReply (N : Type 0) : Type 0 where
  http_error : ℕ → Retry N → OpenerReply N
  connection_error overlong : OpenerReply N
  body : Blob → (etag last_modified : Option String) → OpenerReply N

-- What the world answers during one attempt: the two readings of the clock behind it included.
pub record Attempt (N : Type 0) : Type 0 where
  pub reply : OpenerReply N
  pub moment : Moment
  pub cache_fails : Bool
  pub clock_after : N
  pub clock_before_sleep : N
  pub random : N

pub data FinalError : Type 0 where
  no_attempt connection : FinalError
  http : ℕ → FinalError
  rejected : Rejection → FinalError

pub data Fetched : Type 0 where
  published unchanged : Metadata → Fetched
  not_modified : Option Metadata → Fetched
  download_failed : FinalError → Fetched
  -- an exception that is no `IngestionError`
  escaped : Fetched

pub record Client (N : Type 0) : Type 0 where
  pub store : Store
  pub cache : Option Cache
  pub requests : List Request
  pub slept : List N
  -- `last_failure.json`, whose write is taken to succeed
  pub last_failure : Option FinalError

-- How one attempt ends.
pub data Ending (N : Type 0) : Type 0 where
  done : Fetched → Ending N
  again : FinalError → Bool → Retry N → Ending N

-- the prefixes of the messages that are not retried
unfoldable pub is_permanent : Rejection → Bool
is_permanent no_file = true
is_permanent too_large = true
is_permanent html = true
is_permanent missing_column = true
is_permanent no_identity = true
is_permanent no_timestamp = true
is_permanent bad_timestamp = true
is_permanent few_rows = true
is_permanent time_regression = true
is_permanent same_content = true
is_permanent same_id = true
is_permanent _ = false

unfoldable pub conditional_headers : Option Cache → String → Request
conditional_headers none url = record { if_none_match = none; if_modified_since = none }
conditional_headers (some c) url =
    if c.url == url
    then record { if_none_match = c.etag; if_modified_since = c.last_modified }
    else record { if_none_match = none; if_modified_since = none }

-- 429 and 500 to 599
abbrev pub is_retryable_code : ℕ → Bool
is_retryable_code code = eqb code 429 || (leb 500 code && leb code 599)

abbrev pub has_payload : Option Blob → Bool
has_payload none = false
has_payload (some _) = true

module _ {N : Type 0} where
  abbrev pub refused : Rejection → Ending N
  refused crash = done escaped
  refused e = again (rejected e) (not (is_permanent e)) no_retry

  abbrev pub save_cache : Cache → Client N → Client N
  save_cache k c = record c { cache = some k }

  abbrev pub with_store : Store → Client N → Client N
  with_store s c = record c { store = s }

  -- writing `cache_state.json` is the last thing that can fail
  abbrev pub concluded : Bool → Cache → Fetched → Client N → Ending N × Client N
  concluded fails k r c =
      if fails then (again (rejected disk) true no_retry, c) else (done r, save_cache k c)

  abbrev pub after_publish :
      Bool → Cache → Client N → Result Rejection Metadata × Store → Ending N × Client N
  after_publish fails k c (fail e, s) = (refused e, with_store s c)
  after_publish fails k c (ok m, s) = concluded fails k (published m) (with_store s c)

  -- a valid candidate, against the metadata of the current snapshot
  abbrev pub on_candidate :
      Option Metadata → Naming → Moment → Bool → Cache → Blob → Client N → Ending N × Client N
  on_candidate none n w fails k b c = after_publish fails k c (publish n w b c.store)
  on_candidate (some m) n w fails k b c =
      if is_text (n.sha256_of b) m.sha256
      then concluded fails k (unchanged m) c
      else after_publish fails k c (publish n w b c.store)

  abbrev pub after_validation :
      Result Rejection Summary
      → Naming
      → Moment
      → Bool
      → Cache
      → Blob
      → Client N
      → Ending N × Client N
  after_validation (fail e) n w fails k b c = (refused e, c)
  after_validation (ok _) n w fails k b c = on_candidate (current_metadata c.store) n w fails k b c

  -- the `try` of one attempt, by what the opener does
  unfoldable pub on_reply :
      Naming → String → Attempt N → OpenerReply N → Client N → Ending N × Client N
  unfolding publish current_metadata current_payload is_permanent validate_oracle_csv
  on_reply n url a (http_error code retry) c =
      if eqb code 304 && has_payload (current_payload c.store)
      then (done (not_modified (current_metadata c.store)), c)
      else (again (http code) (is_retryable_code code) retry, c)
  on_reply n url a connection_error c = (again connection true no_retry, c)
  on_reply n url a overlong c = (refused too_long, c)
  on_reply n url a (body b etag modified) c =
      after_validation (validate_oracle_csv 2 b) n a.moment a.cache_fails
        (record { url = url; etag = etag; last_modified = modified }) b c

  -- one attempt, from its request on
  unfoldable pub attempt_once :
      Naming → String → Request → Attempt N → Client N → Ending N × Client N
  unfolding on_reply
  attempt_once n url q a c = on_reply n url a a.reply (record c { requests = q ∷ c.requests })

module _ {N : Type 0} ⦃f : Float N⦄ where
  -- `_delay`
  unfoldable pub delay : Policy N → ℕ → Retry N → N → N
  delay p attempt (in_seconds x) random = fmin x (f.of_nat 10)
  delay p attempt (on_date x) random = fmin (fmax fzero x) (f.of_nat 10)
  delay p attempt no_retry random = fmin (f.of_nat 5) (
      f.add (f.mul p.base_backoff_seconds (f.of_nat (2 ^ (attempt - 1))))
        (f.mul random (f.decimal 1 1)))

  abbrev pub expired : Policy N → N → Attempt N → Bool
  expired p started a = fle p.max_execution_seconds (f.sub a.clock_after started)

  abbrev pub too_late : Policy N → N → Attempt N → N → Bool
  too_late p started a d =
      flt p.max_execution_seconds (f.add (f.sub a.clock_before_sleep started) d)

  -- behind the `try`: stop, or sleep and go on
  abbrev pub next :
      Policy N
      → (N → Bool)
      → N
      → (attempt left : ℕ) → Attempt N
      → (FinalError → Client N → Fetched × Client N)
      → Ending N × Client N
      → Fetched × Client N
  next p sleeps started attempt left a rest (done r, c) = (r, c)
  next p sleeps started attempt left a rest (again e retryable retry, c) =
      if not retryable || eqb left 0 || expired p started a
      then (download_failed e, c)
      else let d = delay p attempt retry a.random in
        if too_late p started a d
        then (download_failed e, c)
        else if sleeps d
        then rest e (record c { slept = d ∷ c.slept })
        else (escaped, c)

  abbrev pub recorded : Fetched × Client N → Fetched × Client N
  recorded (download_failed e, c) = (download_failed e, record c { last_failure = some e })
  recorded (r, c) = (r, c)

  -- the loop, with the number of this attempt and of those left behind it
  unfoldable pub fetch_from :
      Policy N
      → Naming
      → (N → Bool)
      → String
      → Request
      → N
      → (ℕ → Attempt N)
      → (left attempt : ℕ) → FinalError
      → Client N
      → Fetched × Client N
  unfolding attempt_once delay
  fetch_from p n sleeps url q started w zero attempt e c = (download_failed e, c)
  fetch_from p n sleeps url q started w (suc left) attempt e c =
      next p sleeps started attempt left (w attempt)
        (λ e' c'. fetch_from p n sleeps url q started w left (suc attempt) e' c')
        (attempt_once n url q (w attempt) c)

  unfoldable pub fetch :
      Policy N → Naming → (N → Bool) → N → (ℕ → Attempt N) → String → Client N → Fetched × Client N
  unfolding conditional_headers fetch_from
  fetch p n sleeps started w url c = recorded (
      fetch_from p n sleeps url (conditional_headers c.cache url) started w p.max_attempts 1
        no_attempt c)
