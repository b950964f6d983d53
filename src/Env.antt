-- ===== src/Env.antt =====
-- What the commands of cmd/ read from the environment: `envOrDefault`, `envIntOrDefault`, and lists
-- with separators. `os.Getenv` gives the empty text for a name that is not set.
use Prim.Native.Char.{code}
use Prim.Native.String
use software_course_project.Prelude.{
  ℕ, Option, none, some, List, [], ◌∷◌, String, string_eq, if◌then◌else◌, ◌==◌, nat_beq,
}
use software_course_project.Prelude.Int.{ℤ}

unfoldable pub env_or_default : (String → String) → String → String → String
env_or_default env key fallback = let v = env key in if v == "" then fallback else v

-- `strings.TrimSpace` and `strconv.Atoi`, with none for a text that is no number.
pub record Texts : Type 0 where
  pub trim_space : String → String
  pub atoi : String → Option ℤ

unfoldable pub int_or_default : ℤ → Option ℤ → ℤ
int_or_default fallback none = fallback
int_or_default fallback (some n) = n

unfoldable pub env_int_or_default : Texts → (String → String) → String → ℤ → ℤ
unfolding env_or_default int_or_default
env_int_or_default texts env key fallback =
    let v = env_or_default env key "" in
    if v == "" then fallback else int_or_default fallback (texts.atoi v)

-- `strings.Split` at a character, with the part that was read so far.
unfoldable pub split_rest : ℕ → String → String → List String
split_rest separator part String.[] = part ∷ []
split_rest separator part (String.◌∷◌ c s) =
    let closed = split_rest separator "" s in
    let longer = split_rest separator (String.◌++◌ part (String.◌∷◌ c String.[])) s in
    if nat_beq (code c) separator then part ∷ closed else longer

unfoldable pub split : ℕ → String → List String
unfolding split_rest
split separator s = split_rest separator "" s
