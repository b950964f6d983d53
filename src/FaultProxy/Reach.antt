-- ===== src/FaultProxy/Reach.antt =====
-- What a request to the fault proxy can do to the containers.
use software_course_project.Prelude.{
  ◌≡◌, refl, ◌⊎◌, inl, inr, Bool, true, false, some, List, [], ◌∷◌, String, string_eq, arith, ◌==◌,
  Bool-cases, Option-cases,
}
use software_course_project.Http.{Request, is_post}
use software_course_project.FaultProxy.{
  Container, is_allowed, any_matches, find_in, Docker, Condition, stopped, started, acted, act_on,
  find_container, handle_kill, handle_restart, serve_proxy,
}

abbrev pub Listed : Container → List Container → Type 0
Listed c [] = ⊥
Listed c (x ∷ rest) = (c ≡ x) ⊎ Listed c rest

-- The ID of a container that is listed, one of whose names fits.
pub record IsTarget (name id : String) (containers : List Container) : Type 0 where
  pub container : Container
  pub is_listed : Listed container containers
  pub same_id : container.id ≡ id
  pub fits : any_matches name container.names ≡ true

IsTarget-later :
    (name id : String) (c : Container) (rest : List Container)
    → IsTarget name id rest
    → IsTarget name id (c ∷ rest)
IsTarget-later name id c rest t = record {
  container = t.container;
  is_listed = inr t.is_listed;
  same_id = t.same_id;
  fits = t.fits;
}

find_in-IsTarget :
    (name id : String) (containers : List Container)
    → find_in name containers ≡ some id
    → IsTarget name id containers
unfolding find_in
find_in-IsTarget name id [] h = absurd (cc)
find_in-IsTarget name id (c ∷ rest) h = elim (Bool-cases (any_matches name c.names)) [
  | inl here ↦ record { container = c; is_listed = inl refl; same_id = ground arith; fits = here }
  | inr later ↦ IsTarget-later name id c rest (find_in-IsTarget name id rest (ground arith))
]

module _ (docker : Docker) where
  open docker use {State, list, stop, start, inspect}

  -- One action on a container that an allowed name found.
  pub record HasActed (action : String → State → Bool × State) (r : Request) (d d' : State)
      : Type 0 where
    pub posted : is_post r.method ≡ true
    pub allowed : is_allowed (r.query "container") ≡ true
    pub containers : List Container
    pub seen : list d ≡ some containers
    pub id : String
    pub target : IsTarget (r.query "container") id containers
    pub after : d' ≡ (action id d).1

  pub acted-state :
      (c : Condition) (name : String) (q : Bool × State) → (acted docker c name q).1 ≡ q.1
  acted-state c name (true, d) = refl
  acted-state c name (false, d) = refl

  act_on-HasActed :
      (c : Condition) (action : String → State → Bool × State) (r : Request) (d : State)
      → ((act_on docker c action r d).1 ≡ d) ⊎ HasActed action r d (act_on docker c action r d).1
  unfolding find_container
  act_on-HasActed c action r d = elim (Bool-cases (is_post r.method)) [
    | inr asks ↦ inl (rw asks refl)
    | inl posts ↦ elim (Bool-cases (is_allowed (r.query "container"))) [
      | inr banned ↦ inl (rw (posts, banned) refl)
      | inl allowed ↦ elim (Option-cases (list d)) [
        | inl silent ↦ inl (rw (posts, allowed, silent) refl)
        | inr (containers, seen) ↦ elim (Option-cases (find_in (r.query "container") containers)) [
          | inl missing ↦ inl (rw (posts, allowed, seen, missing) refl)
          | inr (id, found) ↦ inr (record {
            posted = posts;
            allowed = allowed;
            containers = containers;
            seen = seen;
            id = id;
            target = find_in-IsTarget (r.query "container") id containers found;
            after =
                rw (posts, allowed, seen, found)
                  (acted-state c (r.query "container") (action id d));
          })
        ]
      ]
    ]
  ]

  -- Whatever the request, the containers are left as they are, or the request was a POST to /kill or
  -- to /restart with a name of the allowlist, and exactly one container was stopped or started: one
  -- that Docker lists and one of whose names fits the name that was asked for.
  pub serve_proxy-HasActed :
      (path : String) (r : Request) (d : State)
      → ((serve_proxy docker path r d).1 ≡ d)
        ⊎ (((path == "/kill") ≡ true) × HasActed stop r d (serve_proxy docker path r d).1)
        ⊎ (((path == "/restart") ≡ true) × HasActed start r d (serve_proxy docker path r d).1)
  unfolding serve_proxy handle_kill handle_restart
  serve_proxy-HasActed path r d = elim (Bool-cases (path == "/kill")) [
    | inl kills ↦ rw kills (elim (act_on-HasActed stopped stop r d) [
      | inl same ↦ inl same
      | inr acts ↦ inr (inl (refl, acts))
    ])
    | inr other ↦ elim (Bool-cases (path == "/restart")) [
      | inl restarts ↦
          rw (other, restarts)
            (elim (act_on-HasActed started start r d) [
              | inl same ↦ inl same
              | inr acts ↦ inr (inr (refl, acts))
            ])
      | inr reads ↦ elim (Bool-cases (path == "/status")) [
        | inl asks ↦ inl (rw (other, reads, asks) refl)
        | inr away ↦ elim (Bool-cases (path == "/health")) [
          | inl asks ↦ inl (rw (other, reads, away, asks) refl)
          | inr nowhere ↦ inl (rw (other, reads, away, nowhere) refl)
        ]
      ]
    ]
  ]
