-- ===== src/Gateway/Track/RoundTrip.antt =====
-- What `traverse` writes for a branch of a gateway, GetGatewayInstanceID reads back.
use Prim.Native.String.append
use shar.Prelude.{String, ◌≡◌, refl, some, List, [], ◌∷◌, ◌++◌}
use shar.Prelude.Maps.{lookup}
use shar.Errors.{ok}
use shar.Model.{WorkflowState}
use shar.Gateway.Track.{split_comma, last, get_gateway_instance_id, track, NoComma}

split-NoComma : (s : String) → NoComma s → split_comma s ≡ (s, [])
unfolding split_comma
split-NoComma String.[] h = refl
split-NoComma (String.◌∷◌ c s) h = rw (split-NoComma s h.1, h.0)

split-track :
    (iid branch : String)
    → NoComma iid
    → NoComma branch
    → split_comma (track iid branch) ≡ (iid, branch ∷ [])
unfolding split_comma
split-track String.[] branch h k =
    rw append.nil (rw append.cons (rw append.nil (rw (split-NoComma branch k))))
split-track (String.◌∷◌ c s) branch h k = rw append.cons (rw (split-track s branch h.1 k) (rw h.0))

last-append : (xs : List String) (x : String) → last (xs ++ x ∷ []) ≡ ok x
unfolding last
last-append [] x = refl
last-append (y ∷ []) x = refl
last-append (y ∷ z ∷ xs) x = last-append (z ∷ xs) x

-- Where the last entry that a state holds for its element was written by `traverse` for a branch of an instance, and neither identifier has a comma, GetGatewayInstanceID returns that instance and that branch.
pub get_gateway_instance_id-track :
    (state : WorkflowState) (earlier : List String) (iid branch : String)
    → NoComma iid
    → NoComma branch
    → lookup state.element_id state.satisfies_gateway_expectation
      ≡ some (earlier ++ track iid branch ∷ [])
    → get_gateway_instance_id state ≡ ok (iid, branch)
unfolding get_gateway_instance_id
get_gateway_instance_id-track state earlier iid branch h k e =
    rw (e, last-append earlier (track iid branch), split-track iid branch h k)
