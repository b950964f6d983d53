-- ===== src/Gateway/Tests.antt =====
-- Two requests, one of which is refused, and two clients.
use software_course_project.Consumer.Money.{pendings}
use software_course_project.Router.Runs.{route_all}
use software_course_project.Prelude.{
  ℕ, ◌-◌, ◌≡◌, refl, Bool, true, false, some, Option, [], ◌∷◌, List, String, string_eq, ltb,
}
use software_course_project.Model.{Transaction}
use software_course_project.Http.{post, get, Request}
use software_course_project.Consumer.Kafka.{consume}
use software_course_project.Gateway.{has_colon, ip_of, has_bad_fields, rate_limit, get_limiter}
use software_course_project.Gateway.Queue.{submit_all, asked, consume-submit_all}
use software_course_project.Gateway.Limits.{answers_to, answers_alone, answers_to-answers_alone}
use software_course_project.Fixtures.{alice_to_bob, two_shards, two_router, by_name}
use software_course_project.Dict.{insert, lookup}

abbrev always : String → Option Transaction
always text = some alice_to_bob

abbrev braces : Transaction → String
braces txn = "{}"

abbrev posted_and_got : List Request
posted_and_got =
    record { method = post; body = "{}"; query = λ name. "" }
    ∷ record { method = get; body = "{}"; query = λ name. "" }
    ∷ []

consume-submit_all_example :
    consume by_name always two_router
      (submit_all always braces posted_and_got (record { messages = []; outcomes = [] })).messages
      two_shards
    ≡ route_all by_name two_router
        (pendings (asked always braces posted_and_got))
        (consume by_name always two_router [] two_shards)
unfolding has_bad_fields
consume-submit_all_example =
    consume-submit_all always braces by_name two_router posted_and_got [] two_shards (refl, tt)

-- A limiter with so many requests left.
abbrev spend : ℕ → Bool × ℕ
spend n = (ltb 0 n, n - 1)

-- Two hosts, one of them on two ports.
abbrev connections : List (String × String)
connections = ("h2", "1") ∷ ("h1", "1") ∷ ("h2", "1") ∷ ("h1", "2") ∷ []

answers_to-answers_alone_example :
    answers_to 1 spend "h1" connections []
    ≡ answers_alone 1 spend "h1" connections (get_limiter 1 spend "h1" [])
unfolding has_colon
answers_to-answers_alone_example =
    answers_to-answers_alone 1 spend "h1" connections [] (refl, (refl, (refl, (refl, tt))))

alice_is_limited : answers_to 1 spend "h1" connections [] ≡ true ∷ false ∷ []
unfolding answers_to rate_limit lookup insert
alice_is_limited = refl

-- Two IPv6 clients are one.
ipv6_is_shared : ip_of "[fe80::1]:9" ≡ ip_of "[fe80::2]:9"
unfolding ip_of
ipv6_is_shared = refl
