-- ===== src/Tests/Shell.antt =====
-- The theorems about src/shell, src/args.rs, src/path.rs, src/notify.rs and src/subscribe.rs at
-- concrete inputs.
use mcpdial.Base.{
  ℕ, ◌+◌, ◌≤◌, ◌<◌, Bool, true, Option, none, some, List, [], ◌∷◌, Str, codes, str_eq, str_lt, ◌&&◌,
  trim, to_ascii_lowercase, ◌≡◌, refl, length, if◌then◌else◌, pos, leb, arith,
}
use mcpdial.Json.{
  Value, null, str, num, bool, obj, arr, nil, cons, Fields, end, field, int, lookup, value_eq,
}
use mcpdial.Protocol.Version.{v2025_11_25}
use mcpdial.Protocol.Errors.{ok, ◌>>=◌}
use mcpdial.Shell.History.{Origin, call, Recorded, History, fresh, file}
use mcpdial.Shell.History.Bounds.{
  IsValid, fresh-IsValid, file-IsValid, Act, printing, calling, session, session-IsValid,
}
use mcpdial.Transport.Words.{split_command}
use mcpdial.Arguments.{parse_pairs, as_pairs, strip_colon, reject_unknown_key}
use mcpdial.Arguments.Echo.{parse_pairs-as_pairs, join}
use mcpdial.Path.{Step, key, at, every, parse}
use mcpdial.Path.Written.{parse-path_text, path_text}
use mcpdial.Notify.{
  Notice, Level, warning, level_name, level_from, log, tools, list_changed, resource_updated,
  read_body, read_log, one_line, level_of, shown_char,
}
use mcpdial.Notify
use mcpdial.Notify.Plain.{IsShowable, read-IsShowable}
use mcpdial.Subscriptions.{shown, opened}
use mcpdial.Subscriptions.Valid.{Happening, following, told, after_all, after_all-IsValid}
use mcpdial.Subscriptions.Valid
use mcpdial.Subscriptions.Bounded.{pending_le}

-- A value whose JSON is nine million bytes, and one whose JSON is ten.
abbrev sizes : Value → ℕ
sizes null = 9_000_000
sizes _ = 10

abbrev echo : Origin
echo = call (codes "echo") (obj end)

abbrev acts : List Act
acts =
    printing echo null (codes "big")
    ∷ calling (codes "echo") (obj end)
    ∷ printing echo (bool true) (codes "ok")
    ∷ []

session-IsValid_example : IsValid (session sizes fresh acts)
session-IsValid_example = session-IsValid sizes acts

abbrev heavy : Recorded
heavy = record { number = 1; origin = echo; result = null; text = []; weight = 9_000_000 }

abbrev light : Recorded
light = record { number = 2; origin = echo; result = bool true; text = []; weight = 10 }

abbrev one_result : History
one_result = file sizes fresh echo (bool true) (codes "ok")

one_result-IsValid : IsValid one_result
one_result-IsValid = file-IsValid sizes echo (bool true) (codes "ok") fresh-IsValid

one_printed : 0 < one_result.printed
unfolding file
one_printed = omega arith

-- Arguments: a number that the schema declares and a text it does not.
abbrev ten : Value
ten = num (int (pos 10))

abbrev arguments : Fields
arguments = field (codes "limit") ten (field (codes "q") (str (codes "a b")) end)

abbrev schema : Value
schema = obj (
    field (codes "properties")
      (obj (field (codes "limit") (obj (field (codes "type") (str (codes "integer")) end)) end))
      end)

abbrev reads : Str → Option Value
reads s =
    if str_eq s (codes "10")
    then some ten
    else if str_eq s (codes "`a b`")
    then some (str (codes "a b"))
    else none

abbrev prints : Value → Str
prints (num n) = codes "10"
prints _ = codes "`a b`"

parse_pairs-as_pairs_example :
    (split_command (join (as_pairs reads prints (obj arguments) schema)) >>= λ ws.
    parse_pairs reads ws schema)
    ≡ ok (obj arguments)
unfolding str_eq str_lt lookup value_eq strip_colon reject_unknown_key
parse_pairs-as_pairs_example =
    parse_pairs-as_pairs reads prints schema arguments (λ e. cc) (tt, ((refl, refl, tt), tt))
      (
        ((refl, (refl, (refl, (refl, (refl, tt))))), refl, λ e. cc),
        refl,
        refl,
        (((refl, tt), refl, λ e. cc), refl, refl, tt),
      )

abbrev pages : Value
pages = obj (field (codes "pages") (arr (cons (obj (field (codes "id") ten end)) nil)) end)

-- The letters of ASCII, and the texts of one-digit numbers.
abbrev letters : ℕ → Bool
letters c = leb b'a' c && leb c b'z'

abbrev digit : ℕ → Str
digit n = (b'0' + n) ∷ []

abbrev steps : List Step
steps = at 7 ∷ key (codes "id") ∷ every ∷ []

parse-path_text_example :
    parse letters (path_text letters digit steps)
    ≡ ok (record { steps = steps; source = path_text letters digit steps })
unfolding trim
parse-path_text_example =
    parse-path_text letters digit refl refl steps
      (((refl, tt), λ e. cc, refl, omega arith), ((λ e. cc, (refl, (refl, tt))), (tt, tt))) refl

abbrev warned : Value
warned = obj (
    field (codes "method") (str (codes "notifications/message")) (
      field (codes "params")
        (obj (
          field (codes "data") (str (27 ∷ codes "[2J"))
            (field (codes "level") (str (codes "Warning")) end)))
        end))

warned_notice :
    Notify.read prints warned none
    ≡ some (record { message = warned; body = log warning none (codes "\\x1b[2J") })
unfolding Notify.read read_body read_log one_line level_of level_from shown_char str_eq trim lookup
    to_ascii_lowercase
warned_notice = refl

read-IsShowable_example : IsShowable (log warning none (codes "\\x1b[2J"))
read-IsShowable_example = read-IsShowable prints warned none warned_notice

abbrev happenings : List Happening
happenings =
    Valid.following (codes "a") shown
    ∷ told (resource_updated (codes "a"))
    ∷ told (resource_updated (codes "a"))
    ∷ told (resource_updated (codes "b"))
    ∷ told (list_changed tools)
    ∷ []

pending_le_example :
    length (after_all (opened v2025_11_25) happenings).pending
    ≤ 3 + length (after_all (opened v2025_11_25) happenings).following
pending_le_example = pending_le v2025_11_25 happenings
