-- ===== src/Tracking.antt =====
-- common/id.go: the stack of identifiers that a workflow state carries.
use shar.Prelude.{
  ℕ, zero, suc, ◌+◌, ◌-◌, ◌<◌, String, ◌≡◌, refl, Bool, Option, none, some, List, [], ◌∷◌, ◌++◌,
  arith, ltb, leb, if◌then◌else◌, length, get_elem?,
}
pub mod Stack

-- type TrackingID []string, oldest generation first
abbrev pub TrackingId : Type 0
TrackingId = List String

-- A read of the slice; both callers below test the bound first.
abbrev pub index : TrackingId → ℕ → String
index [] i = ""
index (x ∷ xs) zero = x
index (x ∷ xs) (suc i) = index xs i

unfoldable pub id : TrackingId → String
id t = let gen = length t in if ltb 0 gen then index t (gen - 1) else ""

-- The source's test `len(t)-1-gen >= 0` is on a signed int, for the callers' natural `gen`.
unfoldable pub ancestor : TrackingId → ℕ → String
ancestor t gen =
    if ltb 0 (length t)
    then (if leb (1 + gen) (length t) then index t (length t - 1 - gen) else "")
    else ""

unfoldable pub parent_id : TrackingId → String
unfolding ancestor
parent_id t = ancestor t 1

abbrev pub take : ℕ → TrackingId → TrackingId
take zero xs = []
take (suc n) [] = []
take (suc n) (x ∷ xs) = x ∷ take n xs

unfoldable pub pop : TrackingId → TrackingId
pop t = if ltb 0 (length t) then take (length t - 1) t else t

unfoldable pub push : TrackingId → String → TrackingId
push t id = t ++ id ∷ []
