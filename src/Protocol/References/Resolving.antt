-- ===== src/Protocol/References/Resolving.antt =====
-- `resolveFieldType` and the loops over members in tools/protocol/src/schema/resolver.ts: every
-- reference is resolved, and what it names says that it is used.
use Prim.Native.String.{String}
use motis.Prelude.{◌≡◌, refl, ap, ◌∙◌, Bool, true, false, ◌&&◌, List, [], ◌∷◌, all, length, arith}
use motis.Protocol.Dict.{has, change}
use motis.Protocol.Names.{join_dots}
use motis.Protocol.Types.{
  TypeRef, UnionValue, FieldType, basic, vector, custom, TableField, SchemaType,
}
use motis.Protocol.Results.{Error, Result, ok, err, ◌>>=◌, Ends, unknown_type}
use motis.Protocol.References.{
  Types, resolve_type, resolve_and_mark, resolve_field_type, resolve_values, resolve_fields,
  use_in_table, use_in_union, key_of, in_vector, in_custom,
}
use motis.Protocol.References.Innermost.{IsInnermost, IsUnknown, resolve_type-IsInnermost}
use motis.Protocol.References.Marks.{
  seen_in_table, seen_in_union, reaches, Members, no_members, values, fields, members_of, Keeps,
  Keeps-refl, Keeps-trans,
}
use motis.Protocol.References.Marking.{
  Marks, use_in_table-Marks, use_in_union-Marks, change-Keeps, members_of-change, holds-marked,
}

abbrev pub is_fresh : TypeRef → Bool
is_fresh ref = elim ref.resolved_fqtn [ [] ↦ true | p ∷ ps ↦ false ]

abbrev pub fresh_field : FieldType → Bool
fresh_field (basic b) = true
fresh_field (vector t) = fresh_field t
fresh_field (custom ref) = is_fresh ref

abbrev pub reached_field : Types → FieldType → Bool
reached_field types (basic b) = true
reached_field types (vector t) = reached_field types t
reached_field types (custom ref) = reaches seen_in_table types ref

-- No reference of the members is resolved; and each is, to a type that says how it is used.
abbrev pub are_fresh : Members → Bool
are_fresh no_members = true
are_fresh (values vs) = all (λ v. is_fresh v.type_ref) vs
are_fresh (fields fs) = all (λ f. fresh_field f.type) fs

abbrev pub are_reached : Types → Members → Bool
are_reached types no_members = true
are_reached types (values vs) = all (λ v. reaches seen_in_union types v.type_ref) vs
are_reached types (fields fs) = all (λ f. reached_field types f.type) fs

-- The only error: a name that no namespace around it defines, with the file that was read last.
abbrev pub IsUnknownIn : String → Error → Type 0
IsUnknownIn file e = (name : String) × (e ≡ unknown_type name file)

-- The types after a step, where `P` holds of them and of the result.
abbrev pub After {ℓ} :
    {A : Type ℓ} → String → Types → (A → Types → Type 0) → Result (A × Types) → Type 0
After file types P r =
    Ends (λ (a, types'). Keeps types types' × (members_of types' ≡ members_of types) × P a types')
      (IsUnknownIn file) r

pub After-bind {ℓ κ} :
    {A : Type ℓ} {B : Type κ} (file : String) (types : Types) (P : A → Types → Type 0)
    (Q : B → Types → Type 0) (r : Result (A × Types)) (f : A × Types → Result (B × Types))
    → After file types P r
    → ((a : A) (types' : Types)
        → Keeps types types'
        → P a types'
        → After file types' Q (f (a, types')))
    → After file types Q (r >>= f)
After-bind {B} file types P Q (ok (a, types')) f (k, m, p) h =
    further (f (a, types')) (h a types' k p)
  where
    further : (s : Result (B × Types)) → After file types' Q s → After file types Q s
    further (ok (b, types'')) (k', m', q) = (Keeps-trans k k', m' ∙ m, q)
    further (err e) h' = h'
After-bind file types P Q (err e) f h k = h

fresh_ref : (ref : TypeRef) → is_fresh ref ≡ true → ref.resolved_fqtn ≡ []
fresh_ref ref h = nothing ref.resolved_fqtn h
  where
    nothing :
        (ps : List String) → elim ps as (λ _. Bool) [ [] ↦ true | p ∷ qs ↦ false ] ≡ true → ps ≡ []
    nothing [] h = refl
    nothing (p ∷ ps) h = cc

pub resolve_and_mark-reaches :
    {seen : SchemaType → Bool} {mark : SchemaType → SchemaType} (file : String) (types : Types)
    (ref : TypeRef)
    → Marks seen mark
    → is_fresh ref ≡ true
    → After file types
        (λ r types'. reaches seen types' r ≡ true)
        (resolve_and_mark mark file types ref)
unfolding resolve_and_mark
resolve_and_mark-reaches {seen} {mark} file types ref m fresh =
    marked (resolve_type types file ref)
      (resolve_type-IsInnermost types file ref (fresh_ref ref fresh))
  where
    marked :
        (r : Result TypeRef)
        → Ends
            (λ q.
              IsInnermost types ref.current_namespace ref.input
                (length ref.current_namespace)
                q.resolved_fqtn)
            (IsUnknown types file ref.current_namespace ref.input (length ref.current_namespace))
            r
        → After file types
            (λ q types'. reaches seen types' q ≡ true)
            (r >>= λ q. ok (q, change (key_of q) mark types))
    marked (ok q) h = (
      change-Keeps (key_of q) types m,
      members_of-change (key_of q) types m,
      holds-marked (key_of q) types m (ap (λ name. has (join_dots name) types) h.name ∙ h.defined),
    )
    marked (err e) h = (ref.input, h.0)

-- What was reached stays reached.
pub reached_field-keep :
    {types types' : Types} (t : FieldType)
    → Keeps types types'
    → reached_field types t ≡ true
    → reached_field types' t ≡ true
reached_field-keep (basic b) k h = refl
reached_field-keep (vector t) k h = reached_field-keep t k h
reached_field-keep (custom ref) k h = k.in_table (key_of ref) h

pub are_reached-keep :
    {types types' : Types} (m : Members)
    → Keeps types types'
    → are_reached types m ≡ true
    → are_reached types' m ≡ true
are_reached-keep no_members k h = refl
are_reached-keep (values []) k h = refl
are_reached-keep {types} {types'} (values (v ∷ vs)) k h =
    both (k.in_union (key_of v.type_ref))
      (are_reached-keep {types = types} {types' = types'} (values vs) k) h
  where
    both :
        {a b c d : Bool}
        → (a ≡ true → c ≡ true)
        → (b ≡ true → d ≡ true)
        → (a && b) ≡ true
        → (c && d) ≡ true
    both {a} {b} f g e = ground (arith, f, g)
are_reached-keep (fields []) k h = refl
are_reached-keep {types} {types'} (fields (f ∷ fs)) k h =
    both (reached_field-keep f.type k)
      (are_reached-keep {types = types} {types' = types'} (fields fs) k) h
  where
    both :
        {a b c d : Bool}
        → (a ≡ true → c ≡ true)
        → (b ≡ true → d ≡ true)
        → (a && b) ≡ true
        → (c && d) ≡ true
    both {a} {b} f g e = ground (arith, f, g)

pub resolve_field_type-reaches :
    (file : String) (types : Types) (t : FieldType)
    → fresh_field t ≡ true
    → After file types
        (λ t' types'. reached_field types' t' ≡ true)
        (resolve_field_type file types t)
unfolding resolve_field_type
resolve_field_type-reaches file types (basic b) h = (Keeps-refl types, refl, refl)
resolve_field_type-reaches file types (vector t) h =
    After-bind file types (λ t' types'. reached_field types' t' ≡ true)
      (λ t' types'. reached_field types' t' ≡ true) (resolve_field_type file types t) in_vector
      (resolve_field_type-reaches file types t h) λ t' types' k p. (Keeps-refl types', refl, p)
resolve_field_type-reaches file types (custom ref) h =
    After-bind file types (λ r types'. reaches seen_in_table types' r ≡ true)
      (λ t' types'. reached_field types' t' ≡ true) (resolve_and_mark use_in_table file types ref)
      in_custom (resolve_and_mark-reaches file types ref use_in_table-Marks h)
      λ r types' k p. (Keeps-refl types', refl, p)

and_left : (a b : Bool) → (a && b) ≡ true → a ≡ true
and_left a b h = ground arith

and_right : (a b : Bool) → (a && b) ≡ true → b ≡ true
and_right a b h = ground arith

pub resolve_values-reaches :
    (file : String) (types : Types) (vs : List UnionValue)
    → are_fresh (values vs) ≡ true
    → After file types
        (λ vs' types'. are_reached types' (values vs') ≡ true)
        (resolve_values file types vs)
unfolding resolve_values
resolve_values-reaches file types [] h = (Keeps-refl types, refl, refl)
resolve_values-reaches file types (v ∷ vs) h =
    After-bind file types (λ r types'. reaches seen_in_union types' r ≡ true) _
      (resolve_and_mark use_in_union file types v.type_ref) _
      (resolve_and_mark-reaches file types v.type_ref use_in_union-Marks (and_left _ _ h))
      λ r types' k p.
        After-bind file types' (λ vs' types''. are_reached types'' (values vs') ≡ true) _
          (resolve_values file types' vs) _
          (resolve_values-reaches file types' vs (and_right _ _ h))
          λ vs' types'' k' q. (Keeps-refl types'', refl, rw (k'.in_union (key_of r) p, q) refl)

pub resolve_fields-reaches :
    (file : String) (types : Types) (fs : List TableField)
    → are_fresh (fields fs) ≡ true
    → After file types
        (λ fs' types'. are_reached types' (fields fs') ≡ true)
        (resolve_fields file types fs)
unfolding resolve_fields
resolve_fields-reaches file types [] h = (Keeps-refl types, refl, refl)
resolve_fields-reaches file types (f ∷ fs) h =
    After-bind file types (λ t types'. reached_field types' t ≡ true) _
      (resolve_field_type file types f.type) _
      (resolve_field_type-reaches file types f.type (and_left _ _ h))
      λ t types' k p.
        After-bind file types' (λ fs' types''. are_reached types'' (fields fs') ≡ true) _
          (resolve_fields file types' fs) _
          (resolve_fields-reaches file types' fs (and_right _ _ h))
          λ fs' types'' k' q. (Keeps-refl types'', refl, rw (reached_field-keep t k' p, q) refl)
