-- ===== src/Linter/Links.antt =====
-- linter.go and directed_scan.go of common/linter: link events.
use shar.Prelude.{
  ℕ, suc, ◌≡◌, ◌↔◌, ◌⊎◌, refl, sym, ap, ◌∙◌, String, true, some, List, [], ◌∷◌, ◌==◌, arith, eq_iff,
  eq_refl, Bool-cases, inl, inr, All,
}
use shar.Prelude.Maps.{Map, lookup, has_key, has_key-insert}
use shar.Model.{Element}
use shar.Linter.{
  MessageType, message_error, done, lint_instruction, has_partner, next_targets, coloured_traverse,
  unmatched, Links, add_link, collect_links,
}

-- The scan never goes through a link: at a throwing link event that was entered and has a partner, it stops without an error, since it takes the event itself for the target of the link.
pub coloured_traverse-link :
    (index : Map Element) (fuel : ℕ) (el other : Element) (visited : Map Element)
    → el.kind ≡ "intermediateLinkThrowEvent"
    → has_partner el index ≡ true
    → lookup el.id index ≡ some el
    → lookup el.id visited ≡ some other
    → coloured_traverse lint_instruction index (suc fuel) el visited ≡ done visited
unfolding coloured_traverse next_targets
coloured_traverse-link index fuel el other visited kind partner here seen =
    rw (kind, partner, here, seen) refl

-- The names of the link events of one kind among some elements are all in a map.
abbrev pub Recorded : String → Map String → List Element → Type 0
Recorded kind m = All (λ e. (e.kind ≡ kind) → has_key e.execute m ≡ true)

abbrev pub throws : Links → Map String
throws links = links.1.0

throws-add_link :
    (e : Element) (links : Links) (name : String)
    → has_key name (throws links) ≡ true
    → has_key name (throws (add_link e links)) ≡ true
throws-add_link e (catch, (throw, msgs)) name h =
    ground (arith, h, has_key-insert name e.execute e.id throw)

throws-here :
    (e : Element) (links : Links)
    → e.kind ≡ "intermediateLinkThrowEvent"
    → has_key e.execute (throws (add_link e links)) ≡ true
throws-here e (catch, (throw, msgs)) h =
    let k : (e.kind == "intermediateLinkThrowEvent") ≡ true =
      (eq_iff e.kind "intermediateLinkThrowEvent").1 h in
    ground (arith, k, has_key-insert e.execute e.execute e.id throw, eq_refl e.execute)

throws-collect_links :
    (es : List Element) (links : Links) (name : String)
    → has_key name (throws links) ≡ true
    → has_key name (throws (collect_links es links)) ≡ true
throws-collect_links [] links name h = h
throws-collect_links (e ∷ es) links name h =
    throws-collect_links es (add_link e links) name (throws-add_link e links name h)

-- Every throwing link event of a process is among the throws that the link rules look at.
pub throws-Recorded :
    (es : List Element) (links : Links)
    → Recorded "intermediateLinkThrowEvent" (throws (collect_links es links)) es
throws-Recorded [] links = tt
throws-Recorded (e ∷ es) links = (
  λ h. throws-collect_links es (add_link e links) e.execute (throws-here e links h),
  throws-Recorded es (add_link e links),
)

-- Each name of one map has an entry in the other.
abbrev pub Matched : Map String → Map String → Type 0
Matched [] others = Unit
Matched ((k, v) ∷ rest) others = (has_key k others ≡ true) × Matched rest others

unmatched_iff :
    (m : MessageType) (ours others : Map String)
    → (unmatched m ours others ≡ []) ↔ Matched ours others
unmatched_iff m [] others = (λ h. tt, λ h. refl)
unmatched_iff m ((k, v) ∷ rest) others =
    let (forward, backward) = unmatched_iff m rest others in
    elim (Bool-cases (has_key k others)) [
      | inl t ↦ (λ h. (t, forward (rw t at h)), λ h. rw h.0 (backward h.1))
      | inr f ↦ (λ h. absurd (ground (arith, f)), λ h. absurd (ground (arith, f, h.0)))
    ]

Matched-lookup :
    (ours others : Map String) (name : String)
    → Matched ours others
    → has_key name ours ≡ true
    → has_key name others ≡ true
unfolding lookup
Matched-lookup [] others name m h = absurd (ground arith)
Matched-lookup ((k, v) ∷ rest) others name m h = elim (Bool-cases (k == name)) [
  | inl t ↦ ap (λ x. has_key x others) (sym ((eq_iff k name).0 t)) ∙ m.0
  | inr f ↦ Matched-lookup rest others name m.1 (ground (arith, h, f))
]

-- The links of a process, before any.
abbrev pub links_of : List Element → Links
links_of es = collect_links es ([], ([], []))

Matched-Recorded :
    (links : Links) (l : List Element)
    → unmatched message_error (throws links) links.0 ≡ []
    → Recorded "intermediateLinkThrowEvent" (throws links) l
    → Recorded "intermediateLinkThrowEvent" links.0 l
Matched-Recorded links [] h r = tt
Matched-Recorded links (e ∷ l) h r =
    let matched = (unmatched_iff message_error (throws links) links.0).0 h in
    (
      λ k. Matched-lookup (throws links) links.0 e.execute matched (r.0 k),
      Matched-Recorded links l h r.1,
    )

-- Some element is a catching link event of the name.
pub data Caught (name : String) : List Element → Type 0 where
  here :
      {e : Element} {es : List Element}
      → e.kind ≡ "intermediateLinkCatchEvent"
      → e.execute ≡ name
      → Caught name (e ∷ es)
  there : {e : Element} {es : List Element} → Caught name es → Caught name (e ∷ es)

catches-add_link :
    (e : Element) (links : Links) (name : String)
    → has_key name (add_link e links).0 ≡ true
    → (has_key name links.0 ≡ true) ⊎ ((e.kind ≡ "intermediateLinkCatchEvent") × (e.execute ≡ name))
catches-add_link e (catch, (throw, msgs)) name h =
    elim (Bool-cases (e.kind == "intermediateLinkCatchEvent")) [
      | inr f ↦ inl (ground (arith, f, h))
      | inl t ↦ elim (Bool-cases (e.execute == name)) [
        | inl same ↦
            inr ((eq_iff e.kind "intermediateLinkCatchEvent").0 t, (eq_iff e.execute name).0 same)
        | inr other ↦ inl (ground (arith, t, other, h, has_key-insert name e.execute e.id catch))
      ]
    ]

catches-Caught :
    (es : List Element) (links : Links) (name : String)
    → has_key name (collect_links es links).0 ≡ true
    → (has_key name links.0 ≡ true) ⊎ Caught name es
catches-Caught [] links name h = inl h
catches-Caught (e ∷ es) links name h = elim (catches-Caught es (add_link e links) name h) [
  | inr later ↦ inr (there later)
  | inl added ↦ elim (catches-add_link e links name added) [
    | inl old ↦ inl old
    | inr (kind, same) ↦ inr (here kind same)
  ]
]

links_of-Caught :
    (es : List Element) (name : String) → has_key name (links_of es).0 ≡ true → Caught name es
unfolding lookup
links_of-Caught es name h = elim (catches-Caught es ([], ([], [])) name h) [
  | inl none_yet ↦ absurd (ground (arith, none_yet))
  | inr caught ↦ caught
]

-- Every throwing link event of some elements has a catching link event of its name among `es`.
abbrev pub AllCaught : List Element → List Element → Type 0
AllCaught es = All (λ e. (e.kind ≡ "intermediateLinkThrowEvent") → Caught e.execute es)

Recorded-AllCaught :
    (es l : List Element) → Recorded "intermediateLinkThrowEvent" (links_of es).0 l → AllCaught es l
Recorded-AllCaught es [] r = tt
Recorded-AllCaught es (e ∷ l) r =
    (λ k. links_of-Caught es e.execute (r.0 k), Recorded-AllCaught es l r.1)

-- When the link rules give no error for throws without a catch, every throwing link event of the process has a catching link event of the same name in the process.
pub unmatched-throws :
    (es : List Element)
    → unmatched message_error (throws (links_of es)) (links_of es).0 ≡ []
    → AllCaught es es
unmatched-throws es h =
    Recorded-AllCaught es es
      (Matched-Recorded (links_of es) es h (throws-Recorded es ([], ([], []))))
