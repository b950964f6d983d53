-- ===== src/Gateway.antt =====
-- api/handlers/transaction.go, api/kafka/producer.go and api/middleware: the API gateway, which puts
-- transactions into the queue that the coordinator reads. JSON, the signed tokens, the limiter of
-- one client and the parsing of headers and addresses are of libraries and parameters.
pub mod Limits
pub mod Queue
mod Tests
use Prim.Native.String
use Prim.Native.Char.{code}
use software_course_project.Prelude.{
  nat_beq, ℕ, Bool, true, false, not, ◌||◌, Option, none, some, List, [], ◌∷◌, ◌++◌, String,
  string_eq, if◌then◌else◌, ◌==◌,
}
use software_course_project.Prelude.Int.{pos, leb_ℤ}
use software_course_project.Dict.{Dict, lookup, insert}
use software_course_project.Model.{Transaction}
use software_course_project.Http.{Request, is_post}

-- What becomes of a message: it is written; it is not; or it is, and the producer gets an error.
pub data Publication : Type 0 where
  written lost unacknowledged : Publication

-- Past the end of the schedule every message is written.
pub record Topic : Type 0 where
  pub messages : List String
  pub outcomes : List Publication

abbrev next_outcome : List Publication → Publication
next_outcome [] = written
next_outcome (o ∷ rest) = o

abbrev later_outcomes : List Publication → List Publication
later_outcomes [] = []
later_outcomes (o ∷ rest) = rest

abbrev written_to : Publication → String → List String → List String
written_to lost message messages = messages
written_to _ message messages = messages ++ message ∷ []

abbrev succeeds : Publication → Bool
succeeds written = true
succeeds _ = false

-- Does `Publish` return nil?
unfoldable pub publish : (Transaction → String) → Transaction → Topic → Bool × Topic
publish encode txn t =
    let o = next_outcome t.outcomes in
    (
      succeeds o,
      record {
        messages = written_to o (encode txn) t.messages;
        outcomes = later_outcomes t.outcomes;
      },
    )

-- The gateway's check; it lets a transfer from an account to itself pass.
unfoldable pub has_bad_fields : Transaction → Bool
has_bad_fields txn =
    txn.txn_id == "" || (txn.source == "" || (txn.destination == "" || leb_ℤ txn.amount (pos 0)))

-- The code of the answer, and the topic after.
unfoldable pub gateway_submit :
    (String → Option Transaction) → (Transaction → String) → Request → Topic → ℕ × Topic
gateway_submit decode encode r t =
    if not (is_post r.method) then (405, t) else elim (decode r.body) [
      | none ↦ (400, t)
      | some txn ↦
          if has_bad_fields txn
          then (400, t)
          else let (nil, t') = publish encode txn t in if nil then (202, t') else (500, t')
    ]

-- The text claims of a token.
abbrev pub Claims : Type 0
Claims = String → Option String

-- `bearer` gives what follows the prefix `Bearer `, and `parse` the claims of a valid token. The
-- answer is a code, or that of the handler.
unfoldable pub require_auth :
    (String → Option String) → (String → Option Claims) → (Claims → ℕ) → String → ℕ
require_auth bearer parse next header = elim (bearer header) [
  | none ↦ 401
  | some token ↦ elim (parse token) [ none ↦ 401 | some claims ↦ next claims ]
]

abbrev has_role : String → Option String → Bool
has_role role none = false
has_role role (some actual) = actual == role

unfoldable pub require_role : String → (Claims → ℕ) → Option Claims → ℕ
require_role role next none = 403
require_role role next (some claims) = if has_role role (claims "role") then next claims else 403

-- `strings.Index(s, ":") != -1`
unfoldable pub has_colon : String → Bool
has_colon String.[] = false
has_colon (String.◌∷◌ c s) =
    let later = has_colon s in if nat_beq (code c) b':' then true else later

-- `strings.Split(s, ":")[0]`
unfoldable pub before_colon : String → String
before_colon String.[] = ""
before_colon (String.◌∷◌ c s) =
    let later = before_colon s in if nat_beq (code c) b':' then "" else String.◌∷◌ c later

-- The part of `RemoteAddr` that `RateLimit` takes for the IP.
unfoldable pub ip_of : String → String
unfolding has_colon before_colon
ip_of remote_addr = if has_colon remote_addr then before_colon remote_addr else remote_addr

-- The limiters of the clients; `start` is a new one, and `allow` lets a request pass or not.
module _ {Limiter : Type 0} (start : Limiter) (allow : Limiter → Bool × Limiter) where
  abbrev pub Tracker : Type 0
  Tracker = Dict String Limiter

  abbrev limiter_or : Option Limiter → Limiter
  limiter_or none = start
  limiter_or (some l) = l

  -- The limiter of the address; the first request makes it.
  unfoldable pub get_limiter : String → Dict String Limiter → Limiter
  get_limiter ip limiters = limiter_or (lookup ip limiters)

  -- May the request pass that comes from this address?
  unfoldable pub rate_limit : String → Dict String Limiter → Bool × Dict String Limiter
  unfolding get_limiter ip_of
  rate_limit remote_addr limiters =
      let ip = ip_of remote_addr in
      let (allowed, l) = allow (get_limiter ip limiters) in (allowed, insert ip l limiters)
