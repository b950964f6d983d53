-- ===== src/FaultProxy/Foreign.antt =====
-- Containers of other projects.
use text.Mathlib.TextLemmas.{nil-append, cons-append}
use software_course_project.FaultProxy.Reach.{acted-state}
use Prim.Native.String
use software_course_project.Prelude.{
  ◌≡◌, refl, true, some, List, [], ◌∷◌, String, string_eq, arith, ==_iff,
}
use software_course_project.Http.{Request, is_post}
use software_course_project.FaultProxy.{
  stopped, Container, is_allowed, has_suffix, trim_slash, name_matches, any_matches, find_in,
  Docker, find_container, handle_kill, serve_proxy,
}

has_suffix_self : (s : String) → has_suffix s s ≡ true
unfolding has_suffix
has_suffix_self String.[] = refl
has_suffix_self (String.◌∷◌ c s) =
    let same = (==_iff (String.◌∷◌ c s) (String.◌∷◌ c s)).1 refl in ground arith

has_suffix-append : (p s : String) → has_suffix (String.◌++◌ p s) s ≡ true
unfolding has_suffix
has_suffix-append String.[] s = rw (nil-append s) (has_suffix_self s)
has_suffix-append (String.◌∷◌ c p) s =
    let later = has_suffix-append p s in rw (cons-append c p s) (ground arith)

-- The name under which Docker lists the service of another project.
abbrev foreign_name : String → String → String
foreign_name project name = String.◌∷◌ "/" (String.◌++◌ project (String.◌++◌ "-" name))

foreign_matches : (project name : String) → name_matches name (foreign_name project name) ≡ true
unfolding name_matches trim_slash
foreign_matches project name =
    let fits = has_suffix-append project (String.◌++◌ "-" name) in ground arith

-- A POST to /kill for an allowed name stops the container of any other project whose name ends
-- with a dash and that name, if Docker lists it first; the containers behind it in the list, the one
-- with that very name included, are not looked at.
pub serve_proxy_foreign :
    (docker : Docker) (project id : String) (rest : List Container) (r : Request) (d : docker.State)
    → is_post r.method ≡ true
    → is_allowed (r.query "container") ≡ true
    → docker.list d
      ≡ some (record { id = id; names = foreign_name project (r.query "container") ∷ [] } ∷ rest)
    → (serve_proxy docker "/kill" r d).1 ≡ (docker.stop id d).1
unfolding serve_proxy handle_kill find_container find_in any_matches
serve_proxy_foreign docker project id rest r d posts allowed lists =
    rw (posts, allowed, lists, foreign_matches project (r.query "container"))
      (acted-state docker stopped (r.query "container") (docker.stop id d))
