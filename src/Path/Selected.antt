-- ===== src/Path/Selected.antt =====
-- What a path names, and that asking for nothing is said and not failed.
use mcpdial.Base.{List, [], ◌∷◌, ◌++◌, Str, ◌≡◌, refl, ap, ◌∙◌, append_assoc}
use mcpdial.Json.{Value}
use mcpdial.Path.{Step, step_into, flat_map, walk, select}

flat_map-append :
    {A : Type 0} {B : Type 0} (f : A → List B) (xs ys : List A)
    → flat_map f (xs ++ ys) ≡ flat_map f xs ++ flat_map f ys
flat_map-append f [] ys = refl
flat_map-append f (x ∷ xs) ys =
    rw (flat_map-append f xs ys, append_assoc (f x) (flat_map f xs) (flat_map f ys)) refl

walk-nil : (steps : List Step) → walk steps [] ≡ []
unfolding walk
walk-nil [] = refl
walk-nil (s ∷ steps) = walk-nil steps

walk-append_values :
    (steps : List Step) (us vs : List Value)
    → walk steps (us ++ vs) ≡ walk steps us ++ walk steps vs
unfolding walk
walk-append_values [] us vs = refl
walk-append_values (s ∷ steps) us vs =
    rw (flat_map-append (step_into s) us vs) (walk-append_values steps _ _)

-- A walk from many values is the walks from each of them, one after another.
walk-flat_map :
    (steps : List Step) (vs : List Value) → walk steps vs ≡ flat_map (λ v. walk steps (v ∷ [])) vs
walk-flat_map steps [] = walk-nil steps
walk-flat_map steps (v ∷ vs) =
    walk-append_values steps (v ∷ []) vs
    ∙ ap (λ r. walk steps (v ∷ []) ++ r) (walk-flat_map steps vs)

walk-append : (a b : List Step) (vs : List Value) → walk (a ++ b) vs ≡ walk b (walk a vs)
unfolding walk
walk-append [] b vs = refl
walk-append (s ∷ a) b vs = walk-append a b (flat_map (step_into s) vs)

-- A path that goes on names, in the order of the values the first part names, all that the rest names
-- in each of them.
pub select-append :
    (a b : List Step) (source : Str) (v : Value)
    → select (record { steps = a ++ b; source = source }) v
      ≡ flat_map
          (select (record { steps = b; source = source }))
          (select (record { steps = a; source = source }) v)
unfolding select
select-append a b source v = walk-append a b (v ∷ []) ∙ walk-flat_map b (walk a (v ∷ []))
