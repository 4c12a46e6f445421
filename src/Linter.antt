-- ===== src/Linter.antt =====
-- common/linter/linter.go and directed_scan.go: the link rules of a workflow and the scan along its
-- flows. The recursion of the scan is on fuel. Two elements are one pointer when they have one
-- identifier.
pub mod Terminates
pub mod Links
use shar.Prelude.{
  ℕ, zero, suc, String, Bool, true, false, not, ◌&&◌, ◌||◌, Option, none, some, List, [], ◌∷◌, ◌++◌,
  ◌==◌, leb, if◌then◌else◌,
}
use shar.Prelude.Maps.{Map, lookup, insert, has_key}
use shar.Model.{
  Element, Elements, nil, plain, nested, Process, Target, Targets, Workflow, index_process_elements,
}

-- MessageType, with its number; the text of a message is left out.
pub data MessageType : Type 0 where
  message_error message_warning message_info : MessageType

abbrev pub level : MessageType → ℕ
level message_error = 0
level message_warning = 1
level message_info = 2

pub data LintError : Type 0 where
  missing_end_event missing_link lint_failed : LintError

-- The outcome of a call: a value, an error, a run-time panic, or too little fuel.
pub data Scan {ℓ} (A : Type ℓ) : Type ℓ where
  done : A → Scan A
  failed : LintError → Scan A
  crashed spent : Scan A

abbrev pub and_then : {A B : Type 0} → Scan A → (A → Scan B) → Scan B
and_then (done a) f = f a
and_then (failed e) f = failed e
and_then crashed f = crashed
and_then spent f = spent

abbrev pub top_level : Elements → List Element
top_level nil = []
top_level (plain e rest) = e ∷ top_level rest
top_level (nested e inner rest) = e ∷ top_level rest

-- findProcessStarts
abbrev pub find_starts : List Element → List Element
find_starts [] = []
find_starts (e ∷ es) =
    let rest = find_starts es in
    if e.kind == "startEvent" || e.kind == "timedStartEvent" then e ∷ rest else rest

-- directedTraversalInstruction
pub record Instruction : Type 0 where
  pub end_of_process : Option (Element → Scan (Unit {0}))
  pub cyclic : Option (Element → Element → Element → Scan (Unit {0}))

abbrev pub targets_of : List Target → List String
targets_of [] = []
targets_of (t ∷ ts) = t.target ∷ targets_of ts

-- Another element of the index with the same link.
abbrev pub has_partner : Element → Map Element → Bool
has_partner el [] = false
has_partner el ((k, srch) ∷ rest) =
    (not (srch.id == el.id) && srch.execute == el.execute) || has_partner el rest

abbrev pub flows_of : Option Targets → List String
flows_of none = []
flows_of (some o) = targets_of o.target

-- The first half of directedColouredTraverse. Where a link has a partner, the target is `el` itself.
unfoldable pub next_targets : Map Element → Element → Scan (List String)
next_targets index el =
    if el.kind == "intermediateLinkThrowEvent"
    then (if has_partner el index then done (el.id ∷ []) else failed missing_link)
    else done (flows_of el.outbound)

abbrev pub at_end : Option (Element → Scan (Unit {0})) → Element → Map Element → Scan (Map Element)
at_end none el visited = done visited
at_end (some rule) el visited = and_then (rule el) (λ u. done visited)

-- A target that was seen: the call returns, and the targets after it are left out.
abbrev pub at_seen :
    Option (Element → Element → Element → Scan (Unit {0}))
    → Element
    → Element
    → Element
    → Map Element
    → Scan (Map Element)
at_seen none el target other visited = done visited
at_seen (some rule) el target other visited = and_then (rule el target other) (λ u. done visited)

abbrev pub pointer : Option Element → Scan Element
pointer none = crashed
pointer (some e) = done e

module _ (instruction : Instruction) (index : Map Element) where
  abbrev pub visit_target :
      (Element → Map Element → Scan (Map Element))
      → (Map Element → Scan (Map Element))
      → Element
      → Element
      → Option Element
      → Map Element
      → Scan (Map Element)
  visit_target visit next el target (some other) visited =
      at_seen instruction.cyclic el target other visited
  visit_target visit next el target none visited =
      and_then (visit target (insert target.id el visited)) next

  -- for _, t := range targets
  abbrev pub each_target :
      (Element → Map Element → Scan (Map Element))
      → Element
      → List String
      → Map Element
      → Scan (Map Element)
  each_target visit el [] visited = done visited
  each_target visit el (t ∷ ts) visited =
      let next = each_target visit el ts in
      and_then (pointer (lookup t index))
        (λ target. visit_target visit next el target (lookup target.id visited) visited)

  abbrev pub follow :
      (Element → Map Element → Scan (Map Element))
      → Element
      → Map Element
      → List String
      → Scan (Map Element)
  follow visit el visited [] = at_end instruction.end_of_process el visited
  follow visit el visited (t ∷ ts) = each_target visit el (t ∷ ts) visited

  -- directedColouredTraverse; the map of visited elements comes back.
  unfoldable pub coloured_traverse : ℕ → Element → Map Element → Scan (Map Element)
  unfolding next_targets
  coloured_traverse zero el visited = spent
  coloured_traverse (suc fuel) el visited =
      let visit = coloured_traverse fuel in
      and_then (next_targets index el) (follow visit el visited)

  -- The loop of startDirectedScan over the starts.
  unfoldable pub scan_starts : ℕ → List Element → Map Element → Scan (Map Element)
  unfolding coloured_traverse
  scan_starts fuel [] visited = done visited
  scan_starts fuel (s ∷ ss) visited =
      and_then (coloured_traverse fuel s (insert s.id s visited)) (scan_starts fuel ss)

unfoldable pub start_directed_scan : Instruction → ℕ → Process → Scan (Map Element)
unfolding scan_starts
start_directed_scan instruction fuel process =
    scan_starts instruction (index_process_elements process.elements []) fuel
      (find_starts (top_level process.elements)) []

-- The rule of Lint: a process ends in an end event.
abbrev pub end_rule : Element → Scan (Unit {0})
end_rule el =
    if el.kind == "endEvent" || el.kind == "compensateEndEvent"
    then done tt
    else failed missing_end_event

abbrev pub lint_instruction : Instruction
lint_instruction = record { end_of_process = some end_rule; cyclic = none }

abbrev pub Links : Type 0
Links = Map String × (Map String × List MessageType)

-- The maps `catch` and `throw`, and the messages, after one element.
abbrev pub add_catch : Element → Links → Links
add_catch e (catch, (throw, msgs)) =
    if has_key e.execute catch
    then (catch, (throw, msgs ++ message_error ∷ []))
    else (insert e.execute e.id catch, (throw, msgs))

abbrev pub add_throw : Element → Links → Links
add_throw e (catch, (throw, msgs)) = (catch, (insert e.execute e.id throw, msgs))

abbrev pub add_link : Element → Links → Links
add_link e links =
    let caught = (if e.kind == "intermediateLinkCatchEvent" then add_catch e links else links) in
    if e.kind == "intermediateLinkThrowEvent" then add_throw e caught else caught

abbrev pub collect_links : List Element → Links → Links
collect_links [] links = links
collect_links (e ∷ es) links = collect_links es (add_link e links)

-- A message for each name of one map that the other lacks.
abbrev pub unmatched : MessageType → Map String → Map String → List MessageType
unmatched m [] others = []
unmatched m ((k, v) ∷ rest) others =
    let more = unmatched m rest others in if has_key k others then more else m ∷ more

abbrev pub link_messages : Links → List MessageType
link_messages (catch, (throw, msgs)) =
    msgs ++ unmatched message_error throw catch ++ unmatched message_warning catch throw

-- linkEventRules
unfoldable pub link_event_rules : Process → List MessageType
link_event_rules process = link_messages (collect_links (top_level process.elements) ([], ([], [])))

abbrev pub is_serious : ℕ → List MessageType → Bool
is_serious mn [] = false
is_serious mn (m ∷ ms) = leb (level m) mn || is_serious mn ms

abbrev pub lint_processes : ℕ → Map Process → List MessageType → Scan (List MessageType)
lint_processes fuel [] msgs = done msgs
lint_processes fuel ((k, p) ∷ ps) msgs =
    let rest = lint_processes fuel ps (msgs ++ link_event_rules p) in
    and_then (start_directed_scan lint_instruction fuel p) (λ v. rest)

-- Lint: the error is returned beside the messages.
unfoldable pub lint : ℕ → Workflow → Bool → Scan (List MessageType × Option LintError)
unfolding start_directed_scan link_event_rules
lint fuel wf warnings_as_errors = and_then (lint_processes fuel wf.process []) (λ msgs. done (
  msgs,
  if is_serious (if warnings_as_errors then 1 else 0) msgs then some lint_failed else none,
))
