-- ===== src/Gateway/Queue.antt =====
-- From the gateway to the shards: what becomes of the transactions that were accepted.
use software_course_project.Consumer.Money.{pendings}
use software_course_project.Router.Runs.{route_all}
use mathlib.Core.Path.{subst}
use software_course_project.Prelude.{
  ℕ, ◌≡◌, ◌∙◌, refl, ap, inl, inr, List, [], ◌∷◌, ◌++◌, String, string_eq, Option, none, some,
  if◌then◌else◌, Bool-cases, Option-cases, All,
}
use software_course_project.Model.{Transaction}
use software_course_project.Http.{Request, is_post}
use software_course_project.Router.{Router, Cluster, route}
use software_course_project.Consumer.{as_pending}
use software_course_project.Consumer.Kafka.{consume}
use software_course_project.Gateway.{Topic, publish, has_bad_fields, gateway_submit}

module _ (decode : String → Option Transaction) (encode : Transaction → String) where
  -- The requests in the order in which they are served.
  unfoldable pub submit_all : List Request → Topic → Topic
  submit_all [] t = t
  submit_all (r ∷ rest) t = submit_all rest (gateway_submit decode encode r t).1

  -- The transaction of a request that asks for one.
  abbrev well_formed : Option Transaction → Option Transaction
  well_formed none = none
  well_formed (some txn) = if has_bad_fields txn then none else some txn

  abbrev asked_for : Request → Option Transaction
  asked_for r = if is_post r.method then well_formed (decode r.body) else none

  abbrev cons_some : Option Transaction → List Transaction → List Transaction
  cons_some none txns = txns
  cons_some (some txn) txns = txn ∷ txns

  -- The transactions of the well-formed requests.
  abbrev pub asked : List Request → List Transaction
  asked [] = []
  asked (r ∷ rest) = cons_some (asked_for r) (asked rest)

  abbrev add_message : Option Transaction → List String → List String
  add_message none messages = messages
  add_message (some txn) messages = messages ++ encode txn ∷ []

  -- What one request leaves in a queue that loses nothing.
  submitted :
      (r : Request) (messages : List String)
      → (gateway_submit decode encode r (record { messages = messages; outcomes = [] })).1
        ≡ record { messages = add_message (asked_for r) messages; outcomes = [] }
  unfolding gateway_submit publish
  submitted r messages = elim (Bool-cases (is_post r.method)) [
    | inr other ↦ rw (other, gateway_submit) refl
    | inl posts ↦ elim (Option-cases (decode r.body)) [
      | inl bad ↦ rw (posts, gateway_submit, bad) refl
      | inr (txn, reads) ↦ elim (Bool-cases (has_bad_fields txn)) [
        | inl bad ↦ rw (posts, gateway_submit, reads, bad) refl
        | inr good ↦ rw (posts, gateway_submit, reads, good) refl
      ]
    ]
  ]

  module _ (sha256 : String → List ℕ) (router : Router) where
    consume-append :
        (xs ys : List String) (cluster : Cluster)
        → consume sha256 decode router (xs ++ ys) cluster
          ≡ consume sha256 decode router ys (consume sha256 decode router xs cluster)
    unfolding consume
    consume-append [] ys cluster = refl
    consume-append (x ∷ xs) ys cluster = consume-append xs ys _

    consumed :
        (txn : Transaction) (cluster : Cluster)
        → decode (encode txn) ≡ some txn
        → consume sha256 decode router (encode txn ∷ []) cluster
          ≡ (route sha256 router (as_pending txn) cluster).1
    unfolding consume
    consumed txn cluster back = rw back refl

    -- With a queue that loses nothing, the shards end as if the transactions of the well-formed
    -- requests had been routed one by one, in the order of the requests: none is dropped, doubled
    -- or made up on the way through the queue, and the other requests have no effect.
    pub consume-submit_all :
        (rs : List Request) (messages : List String) (cluster : Cluster)
        → All (λ txn. decode (encode txn) ≡ some txn) (asked rs)
        → consume sha256 decode router
            (submit_all rs (record { messages = messages; outcomes = [] })).messages
            cluster
          ≡ route_all sha256 router
              (pendings (asked rs))
              (consume sha256 decode router messages cluster)
    unfolding submit_all route_all
    consume-submit_all [] messages cluster reads = refl
    consume-submit_all (r ∷ rest) messages cluster reads =
        let kept : Option Transaction → Type 0 =
          λ o. All (λ txn. decode (encode txn) ≡ some txn) (cons_some o (asked rest)) in
        ap (λ t. consume sha256 decode router (submit_all rest t).messages cluster)
          (submitted r messages)
        ∙ elim (Option-cases (asked_for r)) [
          | inl refused ↦
              rw refused (consume-submit_all rest messages cluster (subst kept refused reads))
          | inr (txn, accepted) ↦
              let (back, later) = subst kept accepted reads in
              rw accepted (
                consume-submit_all rest (messages ++ encode txn ∷ []) cluster later
                ∙ ap (route_all sha256 router (pendings (asked rest)))
                    (consume-append messages (encode txn ∷ []) cluster ∙ consumed txn _ back))
        ]
