-- ===== src/Agent/Udev/Rules.antt =====
-- The pairs of a rule, beside the filters that are read from them.
use akri.Base.{String, List, [], ◌∷◌, map, Result, ok, err, ◌≡◌, ◌↔◌, refl, ap, ◌∙◌}
use akri.Base.Loops.{ok_injective}
use akri.Agent.Udev.{
  UdevFilter, ParsedField, supported, unsupported_field, ParsedOperation, test, action_operation,
  ParsedFilter, parse_filter, push, collect_filters,
}

-- The pair that a filter is written as.
abbrev pub written : UdevFilter → ParsedFilter
written f = record { field = supported f.field; operation = test f.operation; value = f.value }

parse-written :
    (x : ParsedField) (o : ParsedOperation) (v : String) (f : UdevFilter)
    → parse_filter x o v ≡ ok f
    → Path ParsedFilter (record { field = x; operation = o; value = v }) (written f)
parse-written (unsupported_field n) o v f h = cc
parse-written (supported x) action_operation v f h = cc
parse-written (supported x) (test o) v f h = ap written (ok_injective h)

push-ok :
    (r : Result UdevFilter) (rest : Result (List UdevFilter)) (fs : List UdevFilter)
    → push r rest ≡ ok fs
    → (g : UdevFilter) × (gs : List UdevFilter) × (r ≡ ok g) × (rest ≡ ok gs) × (g ∷ gs ≡ fs)
push-ok (err e) rest fs h = cc
push-ok (ok g) (err e) fs h = cc
push-ok (ok g) (ok gs) fs h = (g, gs, refl, refl, ok_injective h)

-- A rule is read without an error exactly if all its pairs are a supported field that is tested by `==`
-- or `!=`, and then its filters are these pairs, in order.
pub collect_filters_iff :
    (ps : List ParsedFilter) (fs : List UdevFilter)
    → (collect_filters ps ≡ ok fs) ↔ (ps ≡ map written fs)
unfolding collect_filters
collect_filters_iff ps fs = (to ps fs, λ h. ap collect_filters h ∙ back fs)
  where
    back : (fs : List UdevFilter) → collect_filters (map written fs) ≡ ok fs
    back [] = refl
    back (f ∷ fs) = ap (push (ok f)) (back fs)

    to :
        (ps : List ParsedFilter) (fs : List UdevFilter)
        → collect_filters ps ≡ ok fs
        → ps ≡ map written fs
    to [] fs h = ap (map written) (ok_injective h)
    to (p ∷ ps) fs h =
        let (g, gs, a, b, same) =
          push-ok (parse_filter p.field p.operation p.value) (collect_filters ps) fs h in
        let first = parse-written p.field p.operation p.value g a in
        ap (λ x. x ∷ ps) first ∙ ap (λ xs. written g ∷ xs) (to ps gs b) ∙ ap (map written) same
