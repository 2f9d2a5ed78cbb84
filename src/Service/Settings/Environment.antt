-- ===== src/Service/Settings/Environment.antt =====
-- What `.env` sets.
use smart_ids.Base.{
  string_eq, ◌==◌, ◌≡◌, refl, ap, ◌∙◌, Option, none, some, List, [], ◌∷◌, String, if◌then◌else◌,
  arith, Option-cases, inl, inr, eq_iff,
}
use smart_ids.Dict.{Dict, get, get-put, contains-keys}
use smart_ids.Service.Settings.{setting_of, set_default, load_project_env}

-- The first value, or else the second.
abbrev pub or_else : Option String → Option String → Option String
or_else none other = other
or_else (some value) other = some value

-- The value that a line's setting gives the variable.
abbrev pub set_by : String → Option (String × String) → Option String
set_by name none = none
set_by name (some (key, value)) = if key == name then some value else none

-- The value that the first line of the file which sets the variable gives it.
abbrev pub first_setting : String → List String → Option String
first_setting name [] = none
first_setting name (line ∷ lines) =
    or_else (set_by name (setting_of line)) (first_setting name lines)

get-set_default :
    (environ : Dict String String) (key value name : String)
    → get (set_default environ (some (key, value))) name
      ≡ or_else (get environ name) (if key == name then some value else none)
get-set_default environ key value name =
    ground (arith, contains-keys environ key, get-put environ key name value, eq_iff key name)

or_else_assoc : (a b c : Option String) → or_else (or_else a b) c ≡ or_else a (or_else b c)
or_else_assoc none b c = refl
or_else_assoc (some v) b c = refl

-- After `.env` is read, a variable that was set in the environment has the value that it had, and
-- any other the value of the first line of the file that sets it, if there is one.
pub get-load_project_env :
    (environ : Dict String String) (lines : List String) (name : String)
    → get (load_project_env environ lines) name
      ≡ or_else (get environ name) (first_setting name lines)
unfolding load_project_env
get-load_project_env environ [] name = ground arith
get-load_project_env environ (line ∷ lines) name = elim (Option-cases (setting_of line)) [
  | inl e ↦ rw (load_project_env, e) (get-load_project_env environ lines name)
  | inr ((key, value), e) ↦
      rw (load_project_env, e)
        (get-load_project_env (set_default environ (some (key, value))) lines name
          ∙ ap (λ o. or_else o (first_setting name lines)) (get-set_default environ key value name)
          ∙ or_else_assoc (get environ name) (if key == name then some value else none)
              (first_setting name lines))
]
