-- ===== src/Engine/Owners/Owned.antt =====
-- OwnerID and OwnerName of internal/server/workflow/operations.go: one identifier for one owner.
use shar.Prelude.{◌≡◌, ◌⊎◌, String}
use shar.Errors.{ok, err, key_not_found}
use shar.Errors.Exec.{Exec}
use shar.Nats.{load_obj}
use shar.Server.{Libraries, World}
use shar.Engine.Owners.{named, owner_id, owner_name}

-- The owner has the identifier, which was kept before or is new.
pub record Owned (lib : Libraries) (w : World lib) (name id : String) (w' : World lib)
    : Type 0 where
  pub kept : load_obj lib.kv w'.owner_id (named name) ≡ ok id
  pub again : owner_id lib name w' ≡ (ok id, w')
  pub from :
      ((load_obj lib.kv w.owner_id (named name) ≡ ok id) × (w' ≡ w))
      ⊎ ((load_obj lib.kv w.owner_id (named name) ≡ err key_not_found)
          × (id ≡ lib.ksuid w.next_id)
          × (owner_name lib id w' ≡ (ok (named name), w')))
