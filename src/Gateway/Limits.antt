-- ===== src/Gateway/Limits.antt =====
-- The limits of different clients.
use Prim.Native.Char.{code}
use software_course_project.Prelude.{
  nat_beq, true, ap, All, ◌≡◌, refl, inl, inr, Bool, false, List, [], ◌∷◌, String, string_eq,
  if◌then◌else◌, ◌==◌, ==_iff, Bool-cases, arith,
}
use software_course_project.Dict.{Dict, insert}
use software_course_project.Dict.Laws.{lookup-insert}
use software_course_project.Gateway.{has_colon, before_colon, ip_of, get_limiter, rate_limit}

-- `RemoteAddr` of a connection: the host, a colon and the port.
abbrev pub address : String → String → String
address String.[] port = String.◌∷◌ ":" port
address (String.◌∷◌ c s) port = String.◌∷◌ c (address s port)

has_colon-address : (host port : String) → has_colon (address host port) ≡ true
unfolding has_colon
has_colon-address String.[] port = refl
has_colon-address (String.◌∷◌ c s) port = elim (Bool-cases (nat_beq (code c) b':')) [
  | inl here ↦ rw here refl
  | inr other ↦ rw other (has_colon-address s port)
]

before_colon-address :
    (host port : String) → has_colon host ≡ false → before_colon (address host port) ≡ host
unfolding has_colon before_colon
before_colon-address String.[] port plain = refl
before_colon-address (String.◌∷◌ c s) port plain = elim (Bool-cases (nat_beq (code c) b':')) [
  | inl here ↦ absurd (ground (arith, here, plain))
  | inr other ↦
      let later : has_colon s ≡ false = ground (arith, other, plain) in
      rw other (ap (String.◌∷◌ c) (before_colon-address s port later))
]

ip_of-address : (host port : String) → has_colon host ≡ false → ip_of (address host port) ≡ host
unfolding ip_of
ip_of-address host port plain =
    rw (has_colon-address host port) (before_colon-address host port plain)

module _ {Limiter : Type 0} (start : Limiter) (allow : Limiter → Bool × Limiter) where
  -- The answers that one host gets, when all of them send requests in this order.
  unfoldable pub answers_to : String → List (String × String) → Dict String Limiter → List Bool
  answers_to client [] limiters = []
  answers_to client (from ∷ rest) limiters =
      let (allowed, limiters') = rate_limit start allow (address from.0 from.1) limiters in
      let later = answers_to client rest limiters' in
      if from.0 == client then allowed ∷ later else later

  -- The answers of one limiter to the requests of the host alone.
  unfoldable pub answers_alone : String → List (String × String) → Limiter → List Bool
  answers_alone client [] l = []
  answers_alone client (from ∷ rest) l =
      let (allowed, l') = allow l in
      let own = answers_alone client rest l' in
      let same = answers_alone client rest l in if from.0 == client then allowed ∷ own else same

  get_limiter-insert :
      (client ip : String) (l : Limiter) (limiters : Dict String Limiter)
      → get_limiter start allow client (insert ip l limiters)
        ≡ (if client == ip then l else get_limiter start allow client limiters)
  unfolding get_limiter
  get_limiter-insert client ip l limiters = elim (Bool-cases (client == ip)) [
    | inl own ↦ rw (lookup-insert client ip l limiters, own) refl
    | inr other ↦ rw (lookup-insert client ip l limiters, other) refl
  ]

  -- Hosts whose names have no colon, as IPv4 addresses, do not use up each other's limit, and a host
  -- has one limit for all its ports: whatever the others send, and in whichever order, a host gets
  -- the answers that a limiter of its own would give to its requests alone.
  pub answers_to-answers_alone :
      (client : String) (requests : List (String × String)) (limiters : Dict String Limiter)
      → All (λ from. has_colon from.0 ≡ false) requests
      → answers_to client requests limiters
        ≡ answers_alone client requests (get_limiter start allow client limiters)
  unfolding answers_to answers_alone rate_limit
  answers_to-answers_alone client [] limiters plain = refl
  answers_to-answers_alone client ((ip, port) ∷ rest) limiters plain =
      let l = (allow (get_limiter start allow ip limiters)).1 in
      let key = ip_of-address ip port plain.0 in
      let now = get_limiter-insert client ip l limiters in
      let later = answers_to-answers_alone client rest (insert ip l limiters) plain.1 in
      elim (Bool-cases (ip == client)) [
        | inl own ↦
            rw (key, own, later, now, (==_iff ip client).0 own, (==_iff client client).1 refl) refl
        | inr other ↦
            let apart : (client == ip) ≡ false =
              ground (arith, ==_iff ip client, ==_iff client ip) in
            rw (key, other, later, now, apart) refl
      ]
