-- ===== src/Elicit.antt =====
-- src/elicit.rs: the answers to what a server asks for in the middle of a call. What a person types is
-- the list of lines that the reader gives, which ends where the reader gives none.
pub mod Forms
pub mod Complete
pub mod Taken
pub mod Required
use mcpdial.Base.{
  Str, Bool, true, false, Option, none, some, List, [], ◌∷◌, codes, str_eq, if◌then◌else◌, not,
  is_some, is_empty, unwrap_or, map_opt, trim, starts_with, ◌||◌, ◌&&◌,
}
use mcpdial.Json.{Value, str, obj, Fields, field, end, index, lookup, insert, as_str}
use mcpdial.Elicit.Forms.{
  Floats, Field, Form, no_properties, unfillable, form, Complaint, Checked, good, bad, check_field,
  read_field, form_fields,
}

abbrev pub elicitation_method : Str
elicitation_method = codes "elicitation/create"

pub record Elicit : Type 0 where
  pub answers : Option Fields
  pub ask : Bool
  pub later : Bool
  pub browser : Bool

abbrev pub fills_forms : Elicit → Bool
fills_forms e = e.ask || is_some e.answers || e.later

unfoldable pub capabilities : Elicit → Value
capabilities e =
    let url = field (codes "url") (obj end) end in
    obj (
      field (codes "elicitation")
        (obj (if fills_forms e then field (codes "form") (obj end) url else url)) end)

-- `Elicit::relayed`.
abbrev pub relayed : Value
relayed = capabilities (record { answers = none; ask = false; later = true; browser = false })

pub data Action : Type 0 where
  accept : Action
  decline : Action
  cancel : Action

abbrev pub action_name : Action → Str
action_name accept = codes "accept"
action_name decline = codes "decline"
action_name cancel = codes "cancel"

-- What the line on the terminal says.
pub data Detail : Type 0 where
  other_mode : Str → Detail
  no_form : Detail
  cannot_fill : (name : Str) → Detail
  no_value : (name : Str) → Detail
  refused_value : (name : Str) → Complaint → Detail
  from_answers : Detail
  no_terminal : Detail
  cancelled : Detail
  answered : Detail
  no_url : Detail
  opened_url : Str → Detail
  complete_at : Str → Detail

pub record Reply : Type 0 where
  pub action : Action
  pub content : Option Fields
  pub detail : Detail
  pub url : Option Str
  pub announced : Bool

abbrev pub declined : Detail → Reply
declined why = record {
  action = decline;
  content = none;
  detail = why;
  url = none;
  announced = false;
}

abbrev pub accepted : Fields → Detail → Reply
accepted content detail = record {
  action = accept;
  content = some content;
  detail = detail;
  url = none;
  announced = false;
}

abbrev pub typed_in : Fields → Reply
typed_in content = record (accepted content answered) { announced = true }

abbrev pub walked_away : Reply
walked_away = record {
  action = cancel;
  content = none;
  detail = cancelled;
  url = none;
  announced = true;
}

module _ {F : Type 0} (fl : Floats F) where
  abbrev pub then_fill : Field F → Checked → Fields → (Fields → Reply) → Reply
  then_fill f (bad why) content go_on = declined (refused_value f.name why)
  then_fill f (good v) content go_on = go_on (insert f.name v content)

  abbrev pub fill_one : Field F → Option Value → Fields → (Fields → Reply) → Reply
  fill_one f none content go_on = if f.required then declined (no_value f.name) else go_on content
  fill_one f (some given) content go_on = then_fill f (check_field fl f given) content go_on

  -- The loop of `fill`, with what it has so far.
  unfoldable pub fill_from : List (Field F) → Fields → Fields → Reply
  unfolding check_field insert lookup
  fill_from [] values content = accepted content from_answers
  fill_from (f ∷ fs) values content =
      fill_one f (lookup f.name values) content (λ next. fill_from fs values next)

  unfoldable pub fill : List (Field F) → Fields → Reply
  unfolding fill_from
  fill fs values = fill_from fs values end

-- What a line makes of the question: it is asked again, passed over, or answered.
pub data Turn : Type 0 where
  again : Turn
  passed : Turn
  answer_is : Value → Turn

module _ {F : Type 0} (fl : Floats F) (print : Value → Str) where
  abbrev pub of_enter : Bool → Option Value → Turn
  of_enter required (some d) = answer_is d
  of_enter false none = passed
  of_enter true none = again

  abbrev pub of_line : Checked → Turn
  of_line (good v) = answer_is v
  of_line (bad why) = again

  unfoldable pub turn : Field F → Str → Turn
  unfolding trim read_field
  turn f line =
      if is_empty (trim line)
      then of_enter f.required f.default
      else of_line (read_field fl print f (trim line))

  abbrev pub asked_on :
      Field F → Turn → Fields → (Fields → Reply × List Str) → (Reply × List Str) → Reply × List Str
  asked_on f again content next repeated = repeated
  asked_on f passed content next repeated = next content
  asked_on f (answer_is v) content next repeated = next (insert f.name v content)

  -- `ask`: the lines that are left are given back.
  unfoldable pub ask_from : List Str → List (Field F) → Fields → Reply × List Str
  unfolding turn insert
  ask_from ls [] content = (typed_in content, ls)
  ask_from [] (f ∷ fs) content = (walked_away, [])
  ask_from (l ∷ ls) (f ∷ fs) content =
      let repeated = ask_from ls (f ∷ fs) content in
      asked_on f (turn f l) content (λ next. ask_from ls fs next) repeated

  -- `form`, with the answers of the moment.
  abbrev pub with_answers : Bool → Option Fields → List (Field F) → List Str → Reply × List Str
  with_answers ask (some values) fs ls = (fill fl fs values, ls)
  with_answers false none fs ls = (declined no_terminal, ls)
  with_answers true none fs ls = ask_from ls fs end

  abbrev pub form_reply : Bool → Option Fields → Form F → List Str → Reply × List Str
  form_reply ask answers no_properties ls = (declined no_form, ls)
  form_reply ask answers (unfillable name) ls = (declined (cannot_fill name), ls)
  form_reply ask answers (form fs) ls = with_answers ask answers fs ls

  unfoldable pub answer_form : Elicit → Option Fields → Value → List Str → Reply × List Str
  unfolding form_fields fill ask_from
  answer_form e answers params ls =
      form_reply e.ask answers (form_fields fl print (index params (codes "requestedSchema"))) ls

-- `url`; whether the desktop opens an address is a parameter.
abbrev is_web : Str → Bool
is_web url = starts_with (codes "https://") url || starts_with (codes "http://") url

abbrev url_reply : (Str → Bool) → Bool → Option Str → Reply
url_reply opens browser none = declined no_url
url_reply opens browser (some url) = record {
  action = accept;
  content = none;
  detail = if browser && is_web url && opens url then opened_url url else complete_at url;
  url = some url;
  announced = false;
}

unfoldable pub answer_url : (Str → Bool) → Elicit → Value → Reply
unfolding starts_with
answer_url opens e params = url_reply opens e.browser (as_str (index params (codes "url")))

-- The result that a reply is sent as.
abbrev pub result_of : Reply → Value
result_of r =
    let action = field (codes "action") (str (action_name r.action)) end in
    obj (
      unwrap_or action
        (map_opt (λ content. insert (codes "content") (obj content) action) r.content))

module _ {F : Type 0} (fl : Floats F) (print : Value → Str) (opens : Str → Bool) where
  -- `respond`: the value that is sent, with the lines that are left.
  unfoldable pub reply_to : Elicit → Option Fields → Value → List Str → Reply × List Str
  unfolding answer_form answer_url
  reply_to e answers params ls =
      let mode = unwrap_or (codes "form") (as_str (index params (codes "mode"))) in
      if str_eq mode (codes "form")
      then answer_form fl print e answers params ls
      else if str_eq mode (codes "url")
      then (answer_url opens e params, ls)
      else (declined (other_mode mode), ls)

  unfoldable pub respond : Elicit → Option Fields → Value → List Str → Value × List Str
  unfolding reply_to insert
  respond e answers params ls =
      let (reply, rest) = reply_to e answers params ls in (result_of reply, rest)

  -- `responder`: only an elicitation is answered.
  unfoldable pub responder :
      Elicit → Option Fields → Str → Value → List Str → Option Value × List Str
  unfolding respond
  responder e answers method params ls =
      let (result, rest) = respond e answers params ls in
      if str_eq method elicitation_method then (some result, rest) else (none, ls)
