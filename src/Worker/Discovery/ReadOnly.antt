-- ===== src/Worker/Discovery/ReadOnly.antt =====
-- `CapabilityResolver` of integrations/mcp/capability_resolver.py against a description of its own:
-- which tool of a server a capability has.
use Prim.{tt}
use cloud_sre_ai_agent.Prelude.{
  ◌≡◌, ◌↔◌, ◌⊎◌, refl, sym, ap, ◌∙◌, ℕ, true, none, some, List, [], ◌∷◌, keep, inl, inr,
  Option-cases, arith,
}
use cloud_sre_ai_agent.Worker.Analysis.{Kind, metrics, trace, log, same_kind}
use cloud_sre_ai_agent.Worker.Analysis.Branches.{AllowedTool}
use cloud_sre_ai_agent.Worker.Discovery.{
  Matching, Entry, Tool, sole_of, is_entry, is_match, allow, allow_sole, tool_for, resolve_one,
  add_tool, resolve_all, resolve_tools,
}
use cloud_sre_ai_agent.Worker.Discovery.Sole.{IsSole, sole_of-IsSole, IsSole-sole_of}
use cloud_sre_ai_agent.Worker.Discovery.Annotations.{Fits, is_match-Fits}

abbrev pub In : ℕ → List ℕ → Type 0
In a [] = ⊥
In a (x ∷ xs) = (x ≡ a) ⊎ In a xs

abbrev pub IsEntry : ℕ → Kind → Entry → Type 0
IsEntry capability endpoint e = (e.capability ≡ capability) × (e.endpoint_identity ≡ endpoint)

-- The tool of a capability: of the one entry for it, and of the one tool of the server that fits.
abbrev pub IsAllowed : Matching → List Entry → List Tool → Kind → ℕ → AllowedTool → Type 0
IsAllowed m manifest discovered endpoint capability x =
    (e : Entry) × (t : Tool) × IsSole (IsEntry capability endpoint) manifest e
    × IsSole (Fits m e) discovered t
    × (x ≡ allow capability e t)

abbrev pub AllAllowed :
    Matching → List Entry → List Tool → Kind → List ℕ → List AllowedTool → Type 0
AllAllowed m manifest discovered endpoint [] [] = Unit
AllAllowed m manifest discovered endpoint (c ∷ cs) (x ∷ xs) =
    IsAllowed m manifest discovered endpoint c x × AllAllowed m manifest discovered endpoint cs xs
AllAllowed m manifest discovered endpoint _ _ = ⊥

same_kind_iff : (j k : Kind) → (same_kind j k ≡ true) ↔ (j ≡ k)
same_kind_iff metrics metrics = (λ h. refl, λ h. refl)
same_kind_iff metrics trace = (λ h. cc, λ h. cc)
same_kind_iff metrics log = (λ h. cc, λ h. cc)
same_kind_iff trace metrics = (λ h. cc, λ h. cc)
same_kind_iff trace trace = (λ h. refl, λ h. refl)
same_kind_iff trace log = (λ h. cc, λ h. cc)
same_kind_iff log metrics = (λ h. cc, λ h. cc)
same_kind_iff log trace = (λ h. cc, λ h. cc)
same_kind_iff log log = (λ h. refl, λ h. refl)

is_entry-IsEntry :
    (capability : ℕ) (endpoint : Kind) (e : Entry)
    → (is_entry capability endpoint e ≡ true) ↔ IsEntry capability endpoint e
is_entry-IsEntry capability endpoint e =
    let k = same_kind_iff e.endpoint_identity endpoint in
    (
      λ h. (ground (arith, h), k.0 (ground (arith, h))),
      λ h. let a = h.0 in let b = k.1 h.1 in ground (arith, a, b),
    )

module _ (m : Matching) (manifest : List Entry) (discovered : List Tool) (k : Kind) where
  resolve_one-IsAllowed :
      (c : ℕ) (x : AllowedTool)
      → resolve_one m manifest discovered k c ≡ some x
      → IsAllowed m manifest discovered k c x
  unfolding resolve_one
  resolve_one-IsAllowed c x h = elim (Option-cases (sole_of (keep (is_entry c k) manifest))) [
    | inl z ↦ let y = sym h ∙ ap (tool_for m discovered c) z in cc
    | inr (e, z) ↦
        let g = sym (ap (tool_for m discovered c) z) ∙ h in
        elim (Option-cases (sole_of (keep (is_match m e) discovered))) [
          | inl w ↦ let y = sym g ∙ ap (allow_sole c e) w in cc
          | inr (t, w) ↦
              let y : some (allow c e t) ≡ some x = sym (ap (allow_sole c e) w) ∙ g in
              (
                e,
                t,
                sole_of-IsSole (is_entry c k) (IsEntry c k) (is_entry-IsEntry c k) manifest e z,
                sole_of-IsSole (is_match m e) (Fits m e) (is_match-Fits m e) discovered t w,
                cc,
              )
        ]
  ]

  IsAllowed-resolve_one :
      (c : ℕ) (x : AllowedTool)
      → IsAllowed m manifest discovered k c x
      → resolve_one m manifest discovered k c ≡ some x
  unfolding resolve_one
  IsAllowed-resolve_one c x (e, t, entry, fits, same) =
      ap (tool_for m discovered c)
        (IsSole-sole_of (is_entry c k) (IsEntry c k) (is_entry-IsEntry c k) manifest e entry)
      ∙ ap (allow_sole c e)
          (IsSole-sole_of (is_match m e) (Fits m e) (is_match-Fits m e) discovered t fits)
      ∙ ap some (sym same)

  resolve_all-cases :
      (cs : List ℕ)
      → ((ts : List AllowedTool) × (resolve_all m manifest discovered k cs ≡ some ts)
          × AllAllowed m manifest discovered k cs ts)
        ⊎ ((resolve_all m manifest discovered k cs ≡ none)
            × (c : ℕ) × In c cs
            × ((x : AllowedTool) → ¬ IsAllowed m manifest discovered k c x))
  unfolding resolve_all
  resolve_all-cases [] = inl ([], refl, tt)
  resolve_all-cases (c ∷ cs) = elim (Option-cases (resolve_one m manifest discovered k c)) [
    | inl z ↦ inr (
      ap (λ o. add_tool o (resolve_all m manifest discovered k cs)) z,
      c,
      inl refl,
      λ x h. let y = sym z ∙ IsAllowed-resolve_one c x h in cc,
    )
    | inr (x, z) ↦
        let step = ap (λ o. add_tool o (resolve_all m manifest discovered k cs)) z in
        elim (resolve_all-cases cs) [
          | inl (ts, e, h) ↦
              inl (x ∷ ts, step ∙ ap (add_tool (some x)) e, (resolve_one-IsAllowed c x z, h))
          | inr (e, d, i, h) ↦ inr (step ∙ ap (add_tool (some x)) e, d, inr i, h)
        ]
  ]

-- Either the resolver lets through exactly one tool for each required capability, in order, or
-- nothing, and then some required capability has no such tool. The tool of a capability is the only
-- tool of the server that fits the only entry of the manifest for the endpoint and the capability: by
-- its name, by its schema and by its annotations, where readOnlyHint is true, destructiveHint is
-- missing or false, and each key is one of the five known ones. It has the schema of the entry.
pub resolve_tools-IsAllowed :
    (m : Matching) (required : List ℕ) (manifest : List Entry) (discovered : List Tool) (k : Kind)
    → AllAllowed m manifest discovered k required (resolve_tools m required manifest discovered k)
      ⊎ ((resolve_tools m required manifest discovered k ≡ [])
          × (c : ℕ) × In c required
          × ((x : AllowedTool) → ¬ IsAllowed m manifest discovered k c x))
unfolding resolve_tools
resolve_tools-IsAllowed m required manifest discovered k =
    elim (resolve_all-cases m manifest discovered k required) [
      | inl (ts, e, h) ↦ inl (rw (e) h)
      | inr (e, c, i, h) ↦ inr (rw e, c, i, h)
    ]
