-- ===== src/Tests/Basics.antt =====
-- The theorems on identifiers, the update loop and variables, at concrete inputs.
use shar.Prelude.{ℕ, ◌≡◌, ◌↔◌, ◌+◌, refl, some, [], ◌∷◌}
use shar.Prelude.Maps.{lookup, insert}
use shar.Errors.{ok}
use shar.Nats.{Turn, load_obj, update_kv, update_obj}
use shar.Nats.Update.{Committed, update_kv-Committed}
use shar.Nats.Opened.{update_obj-overwrites}
use shar.Server.{complete_activity}
use shar.Server.Published.{crossed, ActivityDone, complete_activity-ActivityDone}
use shar.Vars.{decode, output_vars, check_vars, integer, int64}
use shar.Vars.Transform.{Merged, AllCovered, output_vars-Merged, check_vars-iff_covered}
use shar.Tests.Store.{memory, memory_documented, put-Honest}
use shar.Tests.Data.{libraries, pair_codec, name_expr, join_element, blank_state, world}

-- Another client writes 10 under the key before the first write; the second round adds to it.
update_kv-Committed_example :
    Committed memory
      (("k", some 3) ∷ [])
      "k"
      (λ n. ok (n + 1))
      ((λ b. ("k", some 10) ∷ b) ∷ [])
      (("k", some 11) ∷ ("k", some 10) ∷ ("k", some 3) ∷ [])
      11
unfolding update_kv
update_kv-Committed_example =
    update_kv-Committed memory memory_documented "k" (λ n. ok (n + 1))
      ((λ b. ("k", some 10) ∷ b) ∷ []) (("k", some 3) ∷ [])
      (("k", some 11) ∷ ("k", some 10) ∷ ("k", some 3) ∷ []) 11 (put-Honest "k" "k" 10, tt) refl

-- Another client creates the key between the read and the save.
abbrev create_k : Turn memory ℕ
create_k b = ("k", some 10) ∷ b

update_obj-overwrites_example :
    (1 ≡ 0 + 1)
    × (load_obj memory (("k", some 1) ∷ ("k", some 0) ∷ ("k", some 10) ∷ []) "k" ≡ ok (0 + 1))
unfolding update_obj update_kv
update_obj-overwrites_example =
    update_obj-overwrites memory memory_documented []
      (("k", some 1) ∷ ("k", some 0) ∷ ("k", some 10) ∷ []) "k" 0 1 (λ n. n + 1) create_k refl refl

complete_activity-ActivityDone_example :
    (crossed blank_state 9 ≡ crossed blank_state 9)
    × ActivityDone libraries world
        (crossed blank_state 9)
        (complete_activity libraries blank_state world).1
unfolding complete_activity
complete_activity-ActivityDone_example =
    complete_activity-ActivityDone libraries memory_documented world blank_state
      {state' = crossed blank_state 9} {w' = (complete_activity libraries blank_state world).1} refl

output_vars-Merged_example :
    Merged pair_codec name_expr (1 ∷ 2 ∷ []) (5 ∷ 6 ∷ []) (("b", "a") ∷ []) (5 ∷ 1 ∷ [])
unfolding output_vars lookup insert
output_vars-Merged_example =
    output_vars-Merged pair_codec name_expr (1 ∷ 2 ∷ []) (5 ∷ 6 ∷ []) (("b", "a") ∷ [])
      {result = 5 ∷ 1 ∷ []} (refl, tt) refl

check_vars-iff_covered_example :
    (check_vars pair_codec name_expr (1 ∷ 2 ∷ []) join_element ≡ ok tt)
    ↔ AllCovered pair_codec name_expr
        (("a", integer int64 1) ∷ ("b", integer int64 2) ∷ [])
        (("b", "a") ∷ [])
unfolding decode
check_vars-iff_covered_example =
    check_vars-iff_covered pair_codec name_expr (1 ∷ 2 ∷ []) join_element (("b", "a") ∷ [])
      (("a", integer int64 1) ∷ ("b", integer int64 2) ∷ []) refl refl
