-- ===== src/Vars.antt =====
-- internal/model/servervars.go and server/vars/vars.go: the variables of a process, and their
-- transformation by expressions. msgpack and the expression engine are libraries: `Codec`, `Expr`.
pub mod Transform
use shar.Prelude.{
  ℕ, ◌≡◌, String, Bool, true, false, Option, none, some, List, [], ◌∷◌, ◌==◌, ◌%◌, ◌^◌, eqb, ltb,
  ◌&&◌, ◌||◌, not, if◌then◌else◌,
}
use shar.Prelude.Maps.{Map, lookup, insert, has_key}
use shar.Errors.{Err, Outcome, ok, err, panic, ◌>>=◌, ◌>>◌, library_error, fatal, fail_if}
use shar.Model.{Bytes, Element}

-- The dynamic types of a decoded integer.
pub data IntKind : Type 0 where
  int8 int16 int32 int64 uint8 uint16 uint32 uint64 : IntKind

-- `any`. An integer and a float are bit patterns; what an array or a mapping holds is opaque.
pub data Value : Type 0 where
  null : Value
  boolean : Bool → Value
  integer : IntKind → ℕ → Value
  float : ℕ → Value
  text : String → Value
  array : ℕ → Value
  mapping : ℕ → Value

pub IntKind-discrete : Discrete IntKind
IntKind-discrete = hlevel

abbrev pub kind_code : IntKind → ℕ
kind_code int8 = 0
kind_code int16 = 1
kind_code int32 = 2
kind_code int64 = 3
kind_code uint8 = 4
kind_code uint16 = 5
kind_code uint32 = 6
kind_code uint64 = 7

abbrev pub bool_eq : Bool → Bool → Bool
bool_eq true b = b
bool_eq false b = not b

-- IEEE 754 on the 64-bit pattern: a NaN equals nothing, and the two zeros are equal.
abbrev pub float_eq : ℕ → ℕ → Bool
float_eq a b =
    let nan = λ (x : ℕ). ltb 0x7ff0000000000000 (x % 2 ^ 63) in
    not (nan a || nan b) && (eqb a b || (eqb (a % 2 ^ 63) 0 && eqb (b % 2 ^ 63) 0))

-- `a == b` on interfaces: values of one type that is not comparable panic.
unfoldable pub interface_eq : Value → Value → Outcome Bool
interface_eq null null = ok true
interface_eq (boolean a) (boolean b) = ok (bool_eq a b)
interface_eq (integer k a) (integer j b) = ok (eqb (kind_code k) (kind_code j) && eqb a b)
interface_eq (float a) (float b) = ok (float_eq a b)
interface_eq (text a) (text b) = ok (a == b)
interface_eq (array a) (array b) = panic
interface_eq (mapping a) (mapping b) = panic
interface_eq _ _ = ok false

pub record Codec : Type 0 where
  pub unmarshal : Bytes → Outcome (Map Value)
  pub marshal : Map Value → Outcome Bytes

pub record Expr : Type 0 where
  -- Eval, with its panics turned into errors by EvalAny's `recover`
  pub eval : String → Map Value → Outcome Value
  pub get_variables : String → Outcome (List String)

-- ServerVars.Decode into fresh variables: no bytes are no variables.
unfoldable pub decode : Codec → Bytes → Outcome (Map Value)
decode codec [] = ok []
decode codec (b ∷ bs) = codec.unmarshal (b ∷ bs)

unfoldable pub encode : Codec → Map Value → Outcome Bytes
encode codec vals = codec.marshal vals

module _ (codec : Codec) (expr : Expr) where
  -- for k, v := range transform { target[k] = eval(v, source) }
  unfoldable pub transform_into : Map Value → Map String → Map Value → Outcome (Map Value)
  transform_into source [] target = ok target
  transform_into source ((k, v) ∷ rest) target = do
    res ← expr.eval v source
    transform_into source rest (insert k res target)

  -- InputVars: the bytes that newVarsBin points to, before and after.
  unfoldable pub input_vars : Bytes → Bytes → Element → Outcome Bytes
  unfolding decode encode transform_into
  input_vars old_vars_bin new_vars_bin el = elim el.input_transform [
    | none ↦ ok new_vars_bin
    | some transform ↦ (do
      process_vars ← decode codec old_vars_bin
      local_vars ← transform_into process_vars transform []
      encode codec local_vars)
  ]

  -- OutputVars, at a mergeVarsBin that is not nil
  unfoldable pub output_vars : Bytes → Bytes → Option (Map String) → Outcome Bytes
  unfolding decode encode transform_into
  output_vars new_vars_bin merge_vars_bin none = ok merge_vars_bin
  output_vars new_vars_bin merge_vars_bin (some transform) = do
    local_vars ← decode codec new_vars_bin
    process_vars ← decode codec merge_vars_bin
    merged ← transform_into local_vars transform process_vars
    encode codec merged

  unfoldable pub check_present : List String → Map Value → Outcome (Unit {0})
  check_present [] vals = ok tt
  check_present (name ∷ names) vals = do
    fail_if (not (has_key name vals)) (fatal library_error)
    check_present names vals

  unfoldable pub check_transform : Map String → Map Value → Outcome (Unit {0})
  unfolding check_present
  check_transform [] vals = ok tt
  check_transform ((k, v) ∷ rest) vals = do
    names ← expr.get_variables v
    check_present names vals
    check_transform rest vals

  -- CheckVars
  unfoldable pub check_vars : Bytes → Element → Outcome (Unit {0})
  unfolding decode check_transform
  check_vars vars el = elim el.output_transform [
    | none ↦ ok tt
    | some transform ↦ (do vals ← decode codec vars; check_transform transform vals)
  ]
