-- ===== src/Background/Listing.antt =====
-- src/tasks.rs, `listed`, `shown`, `collected` and `cancelled`: what is known of the tasks of a server,
-- from the server and from the notes.
pub mod Known
use mcpdial.Base.{
  Str, Bool, true, false, Option, none, some, List, [], ◌∷◌, ◌++◌, ℕ, if◌then◌else◌, codes,
  unwrap_or, Map, not, ◌&&◌, any, str_eq, str_lt, get_key,
}
use mcpdial.Json.{Value}
use mcpdial.Protocol.Errors.{Error, Result, ok, err}
use mcpdial.Session.{Transport, Session}
use mcpdial.Session.Pages.{list_paginated}
use mcpdial.Config.Files.{File}
use mcpdial.Config.Notes.{TaskRecord, Tasks, tasks, forget_tasks}
use mcpdial.Background.Facts.{id_of, is_terminal, name_the_tool, declares_part, offers_any_tasks}
use mcpdial.Background.Watching.{Seen, get_task, cancel_task, seen_through}
use mcpdial.Background.Running.{Connection, Outcome, result, refused, is_method_not_found, watched}

-- `id_of(t).as_deref() == Some(id)`.
abbrev pub has_id : Str → Value → Bool
has_id id t = elim (id_of t) [ none ↦ false | some j ↦ str_eq j id ]

abbrev pub noted_ids : Map TaskRecord → List Str
noted_ids [] = []
noted_ids ((id, note) ∷ noted) = id ∷ noted_ids noted

-- The tasks that are over, by their ids.
unfoldable pub over_ids : List Value → List Str
unfolding is_terminal id_of
over_ids [] = []
over_ids (t ∷ ts) =
    let rest = over_ids ts in
    elim (id_of t) [ none ↦ rest | some id ↦ if is_terminal t then id ∷ rest else rest ]

-- `a < b` on `Option<String>`: `None` first.
abbrev id_lt : Option Str → Option Str → Bool
id_lt none none = false
id_lt none (some b) = true
id_lt (some a) none = false
id_lt (some a) (some b) = str_lt a b

-- `sort_by_key(id_of)`, which is stable.
abbrev insert_task : Value → List Value → List Value
insert_task t [] = t ∷ []
insert_task t (u ∷ us) = if id_lt (id_of u) (id_of t) then u ∷ insert_task t us else t ∷ u ∷ us

unfoldable pub sort_tasks : List Value → List Value
unfolding id_of str_lt
sort_tasks [] = []
sort_tasks (t ∷ ts) = insert_task t (sort_tasks ts)

abbrev pub named_all : Map TaskRecord → List Value → List Value
named_all noted [] = []
named_all noted (t ∷ ts) = name_the_tool t noted ∷ named_all noted ts

-- What a listing shows: the tasks, and the ids that the server no longer knows.
pub record Listed : Type 0 where
  pub shown : List Value
  pub forgotten : List Str

-- `.unwrap_or_default()`.
abbrev pub or_default : {A : Type 0} → Result (List A) → List A
or_default (err e) = []
or_default (ok xs) = xs

module _ {S : Type 0} (T : Transport S) where
  -- The loop over the noted ids that the list did not have.
  abbrev pub asked_about :
      Str → List Value → List Str → Session S × Result Value → Session S × (List Value × List Str)
  asked_about id known forgotten (s, err e) = (s, (known, forgotten ++ id ∷ []))
  asked_about id known forgotten (s, ok state) = (s, (known ++ state ∷ [], forgotten))

  unfoldable pub ask_about :
      List Str → Session S → List Value → List Str → Session S × (List Value × List Str)
  unfolding get_task
  ask_about [] s known forgotten = (s, (known, forgotten))
  ask_about (id ∷ ids) s known forgotten =
      let (t, more) = asked_about id known forgotten (get_task T id s) in
      let skipped = ask_about ids s known forgotten in
      let asked = ask_about ids t (more.0) (more.1) in
      if any (has_id id) known then skipped else asked

  abbrev pub listing_of :
      ℕ
      → Connection S
      → Map TaskRecord
      → Session S × (List Value × List Str)
      → Connection S × Result Listed
  listing_of at_ c noted (s, (known, forgotten)) = (
    record c {
      session = s;
      notes = (forget_tasks at_ c.name (over_ids known ++ forgotten) c.notes).0;
    },
    ok (record { shown = sort_tasks (named_all noted known); forgotten = forgotten }),
  )

  abbrev pub merged :
      ℕ
      → Connection S
      → Map TaskRecord
      → Session S × Result (List Value)
      → Connection S × Result Listed
  merged at_ c noted (s, err e) = (record c { session = s }, err e)
  merged at_ c noted (s, ok served) =
      listing_of at_ c noted (ask_about (noted_ids noted) s served [])

  -- A server that declares tasks but not `list` has nothing to list.
  abbrev pub served_list : Connection S → Session S × Result (List Value)
  served_list c =
      let listed = list_paginated T (codes "tasks/list") (codes "tasks") c.session in
      if not (declares_part c.server_info (codes "list")) && offers_any_tasks c.server_info
      then (c.session, ok [])
      else listed

  unfoldable pub listed : ℕ → Connection S → Connection S × Result Listed
  unfolding ask_about over_ids sort_tasks name_the_tool tasks forget_tasks list_paginated
      declares_part offers_any_tasks
  listed at_ c = merged at_ c (or_default (tasks at_ c.name c.notes)) (served_list c)

  abbrev pub forget_unless : Bool → ℕ → Str → Connection S → Connection S
  forget_unless true at_ id c = c
  forget_unless false at_ id c = record c { notes = (forget_tasks at_ c.name (id ∷ []) c.notes).0 }

  -- A failure drops the note, whatever it is, unless the server has no such method.
  abbrev pub fetched_from :
      ℕ → Str → Connection S → Session S × Result Value → Connection S × Result Value
  fetched_from at_ id c (s, ok state) = (record c { session = s }, ok state)
  fetched_from at_ id c (s, err e) =
      (forget_unless (is_method_not_found e) at_ id (record c { session = s }), err e)

  unfoldable pub fetched : ℕ → Str → Connection S → Connection S × Result Value
  unfolding get_task forget_tasks
  fetched at_ id c = fetched_from at_ id c (get_task T id c.session)

  abbrev pub named_state : ℕ → Connection S × Result Value → Connection S × Result Value
  named_state at_ (c, err e) = (c, err e)
  named_state at_ (c, ok state) =
      (c, ok (name_the_tool state (or_default (tasks at_ c.name c.notes))))

  unfoldable pub shown_task : ℕ → Str → Connection S → Connection S × Result Value
  unfolding fetched name_the_tool tasks
  shown_task at_ id c = named_state at_ (fetched at_ id c)

  abbrev pub collected_from :
      ℕ → Bool → ℕ → Str → Connection S × Result Value → Connection S × Outcome
  collected_from fuel progress at_ id (c, err e) = (c, refused e)
  collected_from fuel progress at_ id (c, ok state) =
      watched T fuel progress at_ c
        (seen_through T id fuel progress at_ c.name c.notes c.session state)

  unfoldable pub collected : ℕ → Bool → ℕ → Str → Connection S → Connection S × Outcome
  unfolding fetched seen_through
  collected fuel progress at_ id c = collected_from fuel progress at_ id (fetched at_ id c)

  abbrev pub cancelled_from :
      ℕ → Str → Connection S → Session S × Result Value → Connection S × Result Value
  cancelled_from at_ id c (s, err e) = (record c { session = s }, err e)
  cancelled_from at_ id c (s, ok state) =
      (record c { session = s; notes = (forget_tasks at_ c.name (id ∷ []) c.notes).0 }, ok state)

  unfoldable pub cancelled : ℕ → Str → Connection S → Connection S × Result Value
  unfolding cancel_task forget_tasks
  cancelled at_ id c = cancelled_from at_ id c (cancel_task T id c.session)
