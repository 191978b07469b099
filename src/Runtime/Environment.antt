-- ===== src/Runtime/Environment.antt =====
-- Which variables the environment of a workload has.
use execgo_runtime.Base.{
  String, ◌≡◌, refl, any, Option, none, some, List, [], ◌∷◌, arith, if◌then◌else◌, str_eq, eq_iff,
}
use execgo_runtime.Base.Dict
use execgo_runtime.Base.Dict.{Dict, get-put}
use execgo_runtime.Runtime.Launch.{inherit, extend, minimal_env, put_variable, kept_variables}

abbrev pub first_some : Option String → Option String → Option String
first_some none b = b
first_some (some a) b = some a

-- The value of the last entry for a key.
abbrev pub last_entry : Dict String → String → Option String
last_entry [] k = none
last_entry ((key, value) ∷ rest) k =
    first_some (last_entry rest k) (if str_eq key k then some value else none)

get-extend :
    (env d : Dict String) (k : String)
    → Dict.get (extend env d) k ≡ first_some (last_entry d k) (Dict.get env k)
unfolding extend
get-extend env [] k = refl
get-extend env ((key, value) ∷ rest) k =
    ground (arith, get-extend (Dict.put env key value) rest k, get-put env key k value)

get-put_variable :
    (env : Dict String) (key k : String) (value : Option String)
    → Dict.get (put_variable env key value) k
      ≡ (if str_eq key k then first_some value (Dict.get env k) else Dict.get env k)
get-put_variable env key k none = ground arith
get-put_variable env key k (some value) = ground (arith, get-put env key k value)

get-inherit :
    (variable : String → Option String) (keys : List String) (env : Dict String) (k : String)
    → Dict.get (inherit variable keys env) k
      ≡ first_some (if any (λ key. str_eq key k) keys then variable k else none) (Dict.get env k)
unfolding inherit
get-inherit variable [] env k = refl
get-inherit variable (key ∷ rest) env k = ground (
  arith,
  get-inherit variable rest (put_variable env key (variable key)) k,
  get-put_variable env key k (variable key),
  eq_iff key k,
)

-- A variable of a workload has the value that the task gives it, and if the task gives it none the
-- value that the service has, for the five names that are passed on; no other variable of the
-- service reaches the workload.
pub get-minimal_env :
    (variable : String → Option String) (extra : Dict String) (k : String)
    → Dict.get (minimal_env variable extra) k
      ≡ first_some (last_entry extra k) (
          if any (λ name. str_eq name k) ("PATH" ∷ "HOME" ∷ "LANG" ∷ "TMPDIR" ∷ "USER" ∷ [])
          then variable k
          else none)
unfolding minimal_env Dict.get
get-minimal_env variable extra k =
    let own = get-inherit variable kept_variables [] k in
    let all = get-extend (inherit variable kept_variables []) extra k in ground (arith, own, all)
