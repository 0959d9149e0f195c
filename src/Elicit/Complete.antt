-- ===== src/Elicit/Complete.antt =====
-- What a form that is accepted holds.
use mcpdial.Base.{
  Str, Bool, true, false, Option, none, some, List, [], ◌∷◌, ◌≡◌, refl, sym, subst, ◌∙◌, All, inl,
  inr, is_some, if◌then◌else◌, str_eq, str_eq_refl, Bool-cases, if_rule, is_empty, trim,
}
use mcpdial.Json.{Value, Fields, end, lookup, insert}
use mcpdial.Json.Laws.{lookup-insert}
use mcpdial.Elicit.Forms.{Floats, Field, Checked, good, bad, check_field, read_field}
use mcpdial.Elicit.{
  no_value, Reply, accept, declined, then_fill, fill_one, fill_from, fill, Turn, again, passed,
  answer_is, of_enter, of_line, turn, asked_on, ask_from, with_answers,
}

module _ {F : Type 0} where
  -- Each required property has a value.
  abbrev pub IsCovered : Option Fields → Field F → Type 0
  IsCovered none f = ⊥
  IsCovered (some content) f = (f.required ≡ true) → (is_some (lookup f.name content) ≡ true)

  -- A property that is required and has been gone over.
  abbrev Holds : Fields → Field F → Type 0
  Holds content f = (f.required ≡ true) → (is_some (lookup f.name content) ≡ true)

  insert-Holds :
      (k : Str) (v : Value) (content : Fields) (f : Field F)
      → Holds content f
      → Holds (insert k v content) f
  insert-Holds k v content f h r = rw (lookup-insert k f.name v content) (
      if_rule (λ o. is_some o ≡ true) (str_eq k f.name) (some v) (lookup f.name content) refl (h r))

  inserted-Holds : (v : Value) (content : Fields) (f : Field F) → Holds (insert f.name v content) f
  inserted-Holds v content f r = rw (lookup-insert f.name f.name v content, str_eq_refl f.name) refl

  -- An accepted reply has a value for each required property.
  abbrev pub IsComplete : List (Field F) → Reply → Type 0
  IsComplete fs r = r.action ≡ accept → All (IsCovered r.content) fs

  abbrev Keeps : Field F → Reply → Type 0
  Keeps f r = r.action ≡ accept → IsCovered r.content f

-- What is done with a reply that no branch declines.
module _ {F : Type 0} (fl : Floats F) where
  then_fill-Keeps :
      (g f : Field F) (c : Checked) (content : Fields) (go_on : Fields → Reply)
      → ((next : Fields) → Holds next f → Keeps f (go_on next))
      → Holds content f
      → Keeps f (then_fill fl g c content go_on)
  then_fill-Keeps g f (bad why) content go_on rest h e = absurd (cc e)
  then_fill-Keeps g f (good v) content go_on rest h e =
      rest (insert g.name v content) (insert-Holds g.name v content f h) e

  fill_one-Keeps :
      (g f : Field F) (o : Option Value) (content : Fields) (go_on : Fields → Reply)
      → ((next : Fields) → Holds next f → Keeps f (go_on next))
      → Holds content f
      → Keeps f (fill_one fl g o content go_on)
  fill_one-Keeps g f none content go_on rest h =
      if_rule (Keeps f) g.required _ _ (λ e. absurd (cc e)) (rest content h)
  fill_one-Keeps g f (some given) content go_on rest h =
      then_fill-Keeps g f (check_field fl g given) content go_on rest h

  fill_from-Keeps :
      (fs : List (Field F)) (values content : Fields) (f : Field F)
      → Holds content f
      → Keeps f (fill_from fl fs values content)
  unfolding fill_from
  fill_from-Keeps [] values content f h = λ e. h
  fill_from-Keeps (g ∷ fs) values content f h =
      fill_one-Keeps g f (lookup g.name values) content (λ next. fill_from fl fs values next)
        (λ next held. fill_from-Keeps fs values next f held) h

  then_fill-IsComplete :
      (f : Field F) (fs : List (Field F)) (c : Checked) (content : Fields) (go_on : Fields → Reply)
      → ((next : Fields) → Holds next f → Keeps f (go_on next))
      → ((next : Fields) → IsComplete fs (go_on next))
      → IsComplete (f ∷ fs) (then_fill fl f c content go_on)
  then_fill-IsComplete f fs (bad why) content go_on keeps rest e = absurd (cc e)
  then_fill-IsComplete f fs (good v) content go_on keeps rest e = (
    keeps (insert f.name v content) (inserted-Holds v content f) e,
    rest (insert f.name v content) e,
  )

  fill_one-IsComplete :
      (f : Field F) (fs : List (Field F)) (o : Option Value) (content : Fields)
      (go_on : Fields → Reply)
      → ((next : Fields) → Holds next f → Keeps f (go_on next))
      → ((next : Fields) → IsComplete fs (go_on next))
      → IsComplete (f ∷ fs) (fill_one fl f o content go_on)
  fill_one-IsComplete f fs none content go_on keeps rest = elim (Bool-cases f.required) [
    | inl needed ↦
        subst (λ b. IsComplete (f ∷ fs) (if b then declined (no_value f.name) else go_on content))
          (sym needed) (λ e. absurd (cc e))
    | inr free ↦
        subst (λ b. IsComplete (f ∷ fs) (if b then declined (no_value f.name) else go_on content))
          (sym free)
          (λ e. (keeps content (λ needed. absurd (cc (sym free ∙ needed))) e, rest content e))
  ]
  fill_one-IsComplete f fs (some given) content go_on keeps rest =
      then_fill-IsComplete f fs (check_field fl f given) content go_on keeps rest

  fill_from-IsComplete :
      (fs : List (Field F)) (values content : Fields)
      → IsComplete fs (fill_from fl fs values content)
  unfolding fill_from
  fill_from-IsComplete [] values content = λ e. tt
  fill_from-IsComplete (f ∷ fs) values content =
      fill_one-IsComplete f fs (lookup f.name values) content (λ next. fill_from fl fs values next)
        (λ next held. fill_from-Keeps fs values next f held)
        (λ next. fill_from-IsComplete fs values next)

module _ {F : Type 0} (fl : Floats F) (print : Value → Str) where
  asked_on-Keeps :
      (g f : Field F) (t : Turn) (content : Fields) (next : Fields → Reply × List Str)
      (repeated : Reply × List Str)
      → ((m : Fields) → Holds m f → Keeps f ((next m).0))
      → Keeps f (repeated.0)
      → Holds content f
      → Keeps f ((asked_on fl print g t content next repeated).0)
  asked_on-Keeps g f again content next repeated rest kept h = kept
  asked_on-Keeps g f passed content next repeated rest kept h = rest content h
  asked_on-Keeps g f (answer_is v) content next repeated rest kept h =
      rest (insert g.name v content) (insert-Holds g.name v content f h)

  ask_from-Keeps :
      (ls : List Str) (fs : List (Field F)) (content : Fields) (f : Field F)
      → Holds content f
      → Keeps f ((ask_from fl print ls fs content).0)
  unfolding ask_from
  ask_from-Keeps [] [] content f h = λ e. h
  ask_from-Keeps (l ∷ ls) [] content f h = λ e. h
  ask_from-Keeps [] (g ∷ fs) content f h = λ e. absurd (cc e)
  ask_from-Keeps (l ∷ ls) (g ∷ fs) content f h =
      asked_on-Keeps g f (turn fl print g l) content (λ m. ask_from fl print ls fs m)
        (ask_from fl print ls (g ∷ fs) content) (λ m held. ask_from-Keeps ls fs m f held)
        (ask_from-Keeps ls (g ∷ fs) content f h) h

  -- Only a property that is not required is passed over.
  of_enter-passed : (b : Bool) (d : Option Value) → of_enter fl print b d ≡ passed → b ≡ false
  of_enter-passed true none e = absurd (cc e)
  of_enter-passed true (some d) e = absurd (cc e)
  of_enter-passed false d e = refl

  of_line-passed : (f : Field F) (c : Checked) → of_line fl print c ≡ passed → f.required ≡ false
  of_line-passed f (good v) e = absurd (cc e)
  of_line-passed f (bad why) e = absurd (cc e)

  turn-passed : (f : Field F) (l : Str) → turn fl print f l ≡ passed → f.required ≡ false
  unfolding turn
  turn-passed f l =
      if_rule (λ t. t ≡ passed → f.required ≡ false) (is_empty (trim l)) _ _
        (of_enter-passed f.required f.default) (of_line-passed f (read_field fl print f (trim l)))

  asked_on-IsComplete :
      (f : Field F) (fs : List (Field F)) (t : Turn) (content : Fields)
      (next : Fields → Reply × List Str) (repeated : Reply × List Str)
      → (t ≡ passed → f.required ≡ false)
      → ((m : Fields) → Holds m f → Keeps f ((next m).0))
      → ((m : Fields) → IsComplete fs ((next m).0))
      → IsComplete (f ∷ fs) (repeated.0)
      → IsComplete (f ∷ fs) ((asked_on fl print f t content next repeated).0)
  asked_on-IsComplete f fs again content next repeated free keeps rest again_ e = again_ e
  asked_on-IsComplete f fs passed content next repeated free keeps rest again_ e =
      (keeps content (λ needed. absurd (cc (sym (free refl) ∙ needed))) e, rest content e)
  asked_on-IsComplete f fs (answer_is v) content next repeated free keeps rest again_ e = (
    keeps (insert f.name v content) (inserted-Holds v content f) e,
    rest (insert f.name v content) e,
  )

  ask_from-IsComplete :
      (ls : List Str) (fs : List (Field F)) (content : Fields)
      → IsComplete fs ((ask_from fl print ls fs content).0)
  unfolding ask_from
  ask_from-IsComplete [] [] content = λ e. tt
  ask_from-IsComplete (l ∷ ls) [] content = λ e. tt
  ask_from-IsComplete [] (f ∷ fs) content = λ e. absurd (cc e)
  ask_from-IsComplete (l ∷ ls) (f ∷ fs) content =
      asked_on-IsComplete f fs (turn fl print f l) content (λ m. ask_from fl print ls fs m)
        (ask_from fl print ls (f ∷ fs) content) (turn-passed f l)
        (λ m held. ask_from-Keeps ls fs m f held) (λ m. ask_from-IsComplete ls fs m)
        (ask_from-IsComplete ls (f ∷ fs) content)

  pub with_answers-IsComplete :
      (ask : Bool) (answers : Option Fields) (fs : List (Field F)) (ls : List Str)
      → IsComplete fs ((with_answers fl print ask answers fs ls).0)
  unfolding fill
  with_answers-IsComplete ask (some values) fs ls = fill_from-IsComplete fl fs values end
  with_answers-IsComplete false none fs ls = λ e. absurd (cc e)
  with_answers-IsComplete true none fs ls = ask_from-IsComplete ls fs end
