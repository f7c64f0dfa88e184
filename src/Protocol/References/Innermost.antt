-- ===== src/Protocol/References/Innermost.antt =====
-- `resolveType` of tools/protocol/src/schema/resolver.ts takes the innermost namespace that defines a
-- name.
use Prim.Native.String.{String}
use motis.Prelude.{
  ℕ, zero, suc, ◌≤◌, ◌<◌, ◌≡◌, refl, Bool, true, false, List, [], ◌++◌, length, take, arith,
  Bool-cases, inl, inr, ◌⊎◌, ap, ◌∙◌,
}
use motis.Protocol.Names.{split_dots, join_dots}
use motis.Protocol.Dict.{has}
use motis.Protocol.Types.{TypeRef}
use motis.Protocol.Results.{Error, Result, ok, err, ◌>>=◌, Ends, unknown_type}
use motis.Protocol.References.{Types, resolve_prefix, resolve_type}

-- The name below the first `k` parts of the namespace.
abbrev pub name_below : List String → String → ℕ → List String
name_below ns input k = take k ns ++ split_dots input

abbrev pub is_defined : Types → List String → String → ℕ → Bool
is_defined types ns input k = has (join_dots (name_below ns input k)) types

-- None of the longer prefixes, up to `k` parts, has the name.
abbrev pub NoneAbove : Types → List String → String → ℕ → ℕ → Type 0
NoneAbove types ns input j k = (i : ℕ) → j < i → i ≤ k → is_defined types ns input i ≡ false

pub record IsInnermost (types : Types) (ns : List String) (input : String) (k : ℕ)
    (fqtn : List String) : Type 0 where
  pub depth : ℕ
  pub within : depth ≤ k
  pub name : fqtn ≡ name_below ns input depth
  pub defined : is_defined types ns input depth ≡ true
  pub none_above : NoneAbove types ns input depth k

abbrev pub IsUnknown : Types → String → List String → String → ℕ → Error → Type 0
IsUnknown types file ns input k e =
    (e ≡ unknown_type input file) × ((i : ℕ) → i ≤ k → is_defined types ns input i ≡ false)

one_deeper :
    (types : Types) (file : String) (ns : List String) (input : String) (k : ℕ)
    → is_defined types ns input (suc k) ≡ false
    → (r : Result (List String))
    → Ends (IsInnermost types ns input k) (IsUnknown types file ns input k) r
    → Ends (IsInnermost types ns input (suc k)) (IsUnknown types file ns input (suc k)) r
one_deeper types file ns input k not_here (ok fqtn) h = record {
  depth = h.depth;
  within = omega (arith, h.within);
  name = h.name;
  defined = h.defined;
  none_above = λ i above below. elim (last i below) [
    | inl e ↦ ap (is_defined types ns input) e ∙ not_here
    | inr less ↦ h.none_above i above less
  ];
}
  where
    last : (i : ℕ) → i ≤ suc k → (i ≡ suc k) ⊎ (i ≤ k)
    last i b = ground arith
one_deeper types file ns input k not_here (err e) (same, none) = (
  same,
  λ i below. elim (last i below) [
    | inl f ↦ ap (is_defined types ns input) f ∙ not_here
    | inr less ↦ none i less
  ],
)
  where
    last : (i : ℕ) → i ≤ suc k → (i ≡ suc k) ⊎ (i ≤ k)
    last i b = ground arith

resolve_prefix-IsInnermost :
    (types : Types) (file : String) (ns : List String) (input : String) (k : ℕ)
    → Ends
        (IsInnermost types ns input k)
        (IsUnknown types file ns input k)
        (resolve_prefix types file ns input k)
unfolding resolve_prefix
resolve_prefix-IsInnermost types file ns input zero =
    elim (Bool-cases (has (join_dots (split_dots input)) types)) [
      | inl e ↦ rw e (record {
        depth = zero;
        within = omega arith;
        name = refl;
        defined = e;
        none_above = λ i above below. absurd (omega (arith, above, below));
      })
      | inr e ↦ rw e (refl, λ i below. zero_only i below e)
    ]
  where
    zero_only :
        (i : ℕ)
        → i ≤ zero
        → is_defined types ns input zero ≡ false
        → is_defined types ns input i ≡ false
    zero_only zero below h = h
    zero_only (suc i) below h = absurd (omega arith)
resolve_prefix-IsInnermost types file ns input (suc k) =
    elim (Bool-cases (is_defined types ns input (suc k))) [
      | inl e ↦ rw e (record {
        depth = suc k;
        within = omega arith;
        name = refl;
        defined = e;
        none_above = λ i above below. absurd (omega (arith, above, below));
      })
      | inr e ↦ rw e (
          one_deeper types file ns input k e (resolve_prefix types file ns input k)
            (resolve_prefix-IsInnermost types file ns input k))
    ]

-- A reference that is not resolved yet gets the name of the innermost namespace around it that
-- defines what it says: no namespace between that one and the reference has such a type. If no
-- enclosing namespace and not the root defines it, the error says so.
pub resolve_type-IsInnermost :
    (types : Types) (file : String) (ref : TypeRef)
    → ref.resolved_fqtn ≡ []
    → Ends
        (λ r.
          IsInnermost types ref.current_namespace ref.input
            (length ref.current_namespace)
            r.resolved_fqtn)
        (IsUnknown types file ref.current_namespace ref.input (length ref.current_namespace))
        (resolve_type types file ref)
unfolding resolve_type
resolve_type-IsInnermost types file ref fresh =
    rw (fresh, resolve_type)
      (then_set
        (resolve_prefix types file ref.current_namespace ref.input (length ref.current_namespace))
        (resolve_prefix-IsInnermost types file ref.current_namespace ref.input
          (length ref.current_namespace)))
  where
    then_set :
        (r : Result (List String))
        → Ends
            (IsInnermost types ref.current_namespace ref.input (length ref.current_namespace))
            (IsUnknown types file ref.current_namespace ref.input (length ref.current_namespace))
            r
        → Ends
            (λ q.
              IsInnermost types ref.current_namespace ref.input
                (length ref.current_namespace)
                q.resolved_fqtn)
            (IsUnknown types file ref.current_namespace ref.input (length ref.current_namespace))
            (r >>= λ fqtn. ok (record ref { resolved_fqtn = fqtn }))
    then_set (ok fqtn) h = h
    then_set (err e) h = h
