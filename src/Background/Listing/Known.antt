-- ===== src/Background/Listing/Known.antt =====
-- Which notes are left once a server was asked about a task.
use mcpdial.Base.{
  Str, Bool, true, false, none, [], ◌∷◌, ℕ, if◌then◌else◌, not, ◌≡◌, ap, ◌∙◌, sym, refl, int_eq,
  negsuc,
}
use mcpdial.Json.{Value}
use mcpdial.Protocol.Errors.{Error, rpc, Result, ok, err}
use mcpdial.Session.{Transport, Session}
use mcpdial.Config.Notes.{Tasks, tasks, tasks_of, unexpired}
use mcpdial.Config.Notes.Forgotten.{without, tasks-read, tasks-forget_own}
use mcpdial.Background.Watching.{get_task}
use mcpdial.Background.Running.{Connection, is_method_not_found}
use mcpdial.Background.Listing.{forget_unless, fetched_from, fetched}

-- An answer after which a task is not offered again: an error of any kind, of the transport too, but for
-- the JSON-RPC error -32601 of a server that does not know the method.
abbrev pub is_gone : Result Value → Bool
is_gone (ok state) = false
is_gone (err (rpc code message detail)) = not (int_eq code (negsuc 32600))
is_gone (err e) = true

is_gone-err : (e : Error) → is_gone (err e) ≡ not (is_method_not_found e)
is_gone-err (rpc code message detail) = refl
is_gone-err e = refl

module _ {S : Type 0} (T : Transport S) (at_ : ℕ) (id : Str) where
  tasks-forget_unless :
      (b : Bool) (c : Connection S) (all : Tasks)
      → c.notes.content ≡ ok all
      → c.notes.refused ≡ none
      → tasks at_ c.name (forget_unless T b at_ id c).notes
        ≡ ok (
            if not b
            then without (id ∷ []) (unexpired at_ (tasks_of c.name all))
            else unexpired at_ (tasks_of c.name all))
  tasks-forget_unless true c all read writable = tasks-read at_ c.name all c.notes read
  tasks-forget_unless false c all read writable =
      tasks-forget_own at_ c.name (id ∷ []) all c.notes read writable

  tasks-fetched_from :
      (c : Connection S) (all : Tasks) (p : Session S × Result Value)
      → c.notes.content ≡ ok all
      → c.notes.refused ≡ none
      → tasks at_ c.name ((fetched_from T at_ id c p).0).notes
        ≡ ok (
            if is_gone ((fetched_from T at_ id c p).1)
            then without (id ∷ []) (unexpired at_ (tasks_of c.name all))
            else unexpired at_ (tasks_of c.name all))
  tasks-fetched_from c all (s, ok state) read writable = tasks-read at_ c.name all c.notes read
  tasks-fetched_from c all (s, err e) read writable =
      tasks-forget_unless (is_method_not_found e) (record c { session = s }) all read writable
      ∙ ap
          (λ b. ok (
            if b
            then without (id ∷ []) (unexpired at_ (tasks_of c.name all))
            else unexpired at_ (tasks_of c.name all)))
          (sym (is_gone-err e))

  -- Asking about a task leaves the unexpired notes of its server as they were, but for the note on the task, which
  -- goes after any error, one of the transport included, but for the JSON-RPC error that the server does
  -- not know the method; the notes are in a file that can be read and written.
  pub tasks-fetched :
      (c : Connection S) (all : Tasks)
      → c.notes.content ≡ ok all
      → c.notes.refused ≡ none
      → tasks at_ c.name ((fetched T at_ id c).0).notes
        ≡ ok (
            if is_gone ((fetched T at_ id c).1)
            then without (id ∷ []) (unexpired at_ (tasks_of c.name all))
            else unexpired at_ (tasks_of c.name all))
  unfolding fetched
  tasks-fetched c all read writable =
      tasks-fetched_from c all (get_task T id c.session) read writable
