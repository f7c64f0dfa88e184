-- ===== src/Protocol/References/Entries.antt =====
-- `resolveTypes` of tools/protocol/src/schema/resolver.ts: after its loops every reference of the
-- schema is resolved.
use Prim.Native.String.{String}
use motis.Prelude.{
  ℕ, zero, suc, ◌≡◌, refl, sym, ap, ◌∙◌, true, List, [], ◌∷◌, some, get_elem?, length,
}
use motis.ConnectionManager.Trips.{update_at}
use motis.Protocol.Types.{UnionValue, TableField, SchemaType, enum_type, union_type, table_type}
use motis.Protocol.Results.{Result, ok, err, ◌>>=◌, Ends}
use motis.Protocol.References.{
  Types, resolve_values, resolve_fields, with_values, with_fields, on_type, resolve_entry,
}
use motis.Protocol.References.Marks.{
  Members, no_members, values, fields, members, members_of, Keeps, Keeps-refl, Keeps-trans,
}
use motis.Protocol.References.Marking.{with_values-Keeps, with_fields-Keeps}
use motis.Protocol.References.Resolving.{
  are_fresh, are_reached, IsUnknownIn, After, are_reached-keep, resolve_values-reaches,
  resolve_fields-reaches,
}

pub get_elem?-members_of :
    (types : Types) (i : ℕ) {key : String} {t : SchemaType}
    → get_elem? types i ≡ some (key, t)
    → get_elem? (members_of types) i ≡ some (members t)
get_elem?-members_of [] i h = cc
get_elem?-members_of ((k, u) ∷ types) zero h = cc
get_elem?-members_of ((k, u) ∷ types) (suc i) h = get_elem?-members_of types i h

pub length-members_of : (types : Types) → length (members_of types) ≡ length types
length-members_of [] = refl
length-members_of ((k, t) ∷ types) = ap suc (length-members_of types)

update_at_same :
    (i : ℕ) (ms : List Members) {m : Members}
    → get_elem? ms i ≡ some m
    → update_at i (λ _. m) ms ≡ ms
update_at_same i [] h = cc
update_at_same zero (n ∷ ms) h = cc
update_at_same (suc i) (n ∷ ms) h = ap (λ xs. n ∷ xs) (update_at_same i ms h)

members_of-with_values :
    (vs us : List UnionValue) (i : ℕ) (types : Types)
    → get_elem? (members_of types) i ≡ some (values us)
    → members_of (update_at i (on_type (with_values vs)) types)
      ≡ update_at i (λ _. values vs) (members_of types)
members_of-with_values vs us i [] h = cc
members_of-with_values vs us zero ((k, enum_type b ws) ∷ types) h = cc
members_of-with_values vs us zero ((k, union_type b ws) ∷ types) h = refl
members_of-with_values vs us zero ((k, table_type t) ∷ types) h = cc
members_of-with_values vs us (suc i) ((k, t) ∷ types) h =
    ap (λ ms. members t ∷ ms) (members_of-with_values vs us i types h)

members_of-with_fields :
    (fs gs : List TableField) (i : ℕ) (types : Types)
    → get_elem? (members_of types) i ≡ some (fields gs)
    → members_of (update_at i (on_type (with_fields fs)) types)
      ≡ update_at i (λ _. fields fs) (members_of types)
members_of-with_fields fs gs i [] h = cc
members_of-with_fields fs gs zero ((k, enum_type b ws) ∷ types) h = cc
members_of-with_fields fs gs zero ((k, union_type b ws) ∷ types) h = cc
members_of-with_fields fs gs zero ((k, table_type t) ∷ types) h = refl
members_of-with_fields fs gs (suc i) ((k, t) ∷ types) h =
    ap (λ ms. members t ∷ ms) (members_of-with_fields fs gs i types h)

-- The types after the round for place `i`.
pub record EntryDone (types types' : Types) (i : ℕ) : Type 0 where
  pub keeps : Keeps types types'
  pub reached : Members
  pub are : are_reached types' reached ≡ true
  pub changed : members_of types' ≡ update_at i (λ _. reached) (members_of types)

pub resolve_entry-Done :
    (file : String) (i : ℕ) (t : SchemaType) (types : Types)
    → get_elem? (members_of types) i ≡ some (members t)
    → are_fresh (members t) ≡ true
    → Ends (λ types'. EntryDone types types' i) (IsUnknownIn file) (resolve_entry file i t types)
unfolding resolve_entry
resolve_entry-Done file i (enum_type b vs) types at fresh = record {
  keeps = Keeps-refl types;
  reached = no_members;
  are = refl;
  changed = sym (update_at_same i (members_of types) at);
}
resolve_entry-Done file i (union_type b vs) types at fresh =
    done (resolve_values file types vs) (resolve_values-reaches file types vs fresh)
  where
    done :
        (r : Result (List UnionValue × Types))
        → After file types (λ vs' types'. are_reached types' (values vs') ≡ true) r
        → Ends
            (λ types'. EntryDone types types' i)
            (IsUnknownIn file)
            (r >>= λ (vs', types'). ok (update_at i (on_type (with_values vs')) types'))
    done (ok (vs', types')) (k, m, p) = record {
      keeps = Keeps-trans k (with_values-Keeps vs' i types');
      reached = values vs';
      are = are_reached-keep (values vs') (with_values-Keeps vs' i types') p;
      changed =
          members_of-with_values vs' vs i types' (ap (λ ms. get_elem? ms i) m ∙ at)
          ∙ ap (update_at i (λ _. values vs')) m;
    }
    done (err e) h = h
resolve_entry-Done file i (table_type t) types at fresh =
    done (resolve_fields file types t.fields) (resolve_fields-reaches file types t.fields fresh)
  where
    done :
        (r : Result (List TableField × Types))
        → After file types (λ fs' types'. are_reached types' (fields fs') ≡ true) r
        → Ends
            (λ types'. EntryDone types types' i)
            (IsUnknownIn file)
            (r >>= λ (fs', types'). ok (update_at i (on_type (with_fields fs')) types'))
    done (ok (fs', types')) (k, m, p) = record {
      keeps = Keeps-trans k (with_fields-Keeps fs' i types');
      reached = fields fs';
      are = are_reached-keep (fields fs') (with_fields-Keeps fs' i types') p;
      changed =
          members_of-with_fields fs' t.fields i types' (ap (λ ms. get_elem? ms i) m ∙ at)
          ∙ ap (update_at i (λ _. fields fs')) m;
    }
    done (err e) h = h
