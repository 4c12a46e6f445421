-- ===== src/Engine/Owners.antt =====
-- OwnerID, OwnerName and evaluateOwners of internal/server/workflow/operations.go: the identifiers of
-- the users and groups that may perform a task.
pub mod Owned
use shar.Prelude.{ℕ, String, Option, none, some, List, [], ◌∷◌, ◌==◌, if◌then◌else◌}
use shar.Prelude.Maps.{Map}
use shar.Errors.{
  Outcome, ok, err, panic, fatal, library_error, make_fatal, is_key_not_found, ◌>>=◌ as and_then,
}
use shar.Errors.Exec.{Exec, pure, raise, lift, query, committed, handle, ◌>>=◌, ◌>>◌}
use shar.Nats.{load_obj}
use shar.Vars.{Expr, Value, null, text, array}
use shar.Server.{Libraries, World, kvs_for}
use shar.Traversal.Send.{fresh_id}

-- A task without a name is any user's.
abbrev pub named : String → String
named name = if name == "" then "AnyUser" else name

module _ (lib : Libraries) where
  abbrev pub W : Type 0
  W = World lib

  unfoldable pub put_owner_id : String → String → Exec W (Unit {0})
  put_owner_id name id w =
      committed w (λ b. record w { owner_id = b }) (λ b. tt) (lib.kv.put w.owner_id name id)

  unfoldable pub put_owner_name : String → String → Exec W (Unit {0})
  put_owner_name id name w =
      committed w (λ b. record w { owner_name = b }) (λ b. tt) (lib.kv.put w.owner_name id name)

  -- An owner that is not known gets a new identifier.
  abbrev pub found_owner : String → Outcome String → Exec W String
  found_owner name (ok id) = pure id
  found_owner name (err e) =
      if is_key_not_found e
      then (do id ← fresh_id lib; put_owner_id name id; put_owner_name id name; pure id)
      else raise e
  found_owner name panic = lift panic

  -- OwnerID. The value of a key is read as text.
  unfoldable pub owner_id : String → Exec W String
  unfolding load_obj fresh_id put_owner_id put_owner_name
  owner_id name = do
    kvs_for lib
    handle (query (λ w. load_obj lib.kv w.owner_id (named name))) (found_owner (named name))

  -- OwnerName
  unfoldable pub owner_name : String → Exec W String
  unfolding load_obj
  owner_name id = do kvs_for lib; query (λ w. load_obj lib.kv w.owner_name id)

  -- for i, v := range jobGroups
  unfoldable pub owner_ids : List String → Exec W (List String)
  unfolding owner_id
  owner_ids [] = pure []
  owner_ids (v ∷ vs) = do id ← owner_id v; ids ← owner_ids vs; pure (id ∷ ids)

  -- `strings` is what an array holds where it is a []string.
  module _ (expr : Expr) (strings : ℕ → Option (List String)) where
    -- The type assertion of expression.Eval[interface{}], whose panic at nil is recovered.
    abbrev pub boxed : Value → Outcome Value
    boxed null = err (fatal library_error)
    boxed v = ok v

    abbrev pub none_or : Option (List String) → List String
    none_or none = []
    none_or (some names) = names

    -- switch groups := groups.(type)
    abbrev pub names_of : Value → List String
    names_of (text s) = s ∷ []
    names_of (array a) = none_or (strings a)
    names_of _ = []

    -- evaluateOwners
    unfoldable pub evaluate_owners : String → Map Value → Exec W (List String)
    unfolding owner_ids
    evaluate_owners owners vars = do
      groups ← lift (make_fatal (and_then (expr.eval owners vars) boxed))
      owner_ids (names_of groups)
