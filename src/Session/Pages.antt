-- ===== src/Session/Pages.antt =====
-- src/session.rs, `list_paginated`: the pages of a list, read to the end.
use mcpdial.Base.{
  ℕ, zero, suc, ◌≤◌, Bool, Option, none, some, List, [], ◌∷◌, ◌++◌, Str, codes, str_eq,
  if◌then◌else◌, and_then, map_opt, is_empty, any, unwrap_or, length, ◌≡◌, refl, ap, ◌∙◌,
  append_assoc, append-nil, arith,
}
use mcpdial.Json.{Value, str, obj, end, field, get, as_str, as_array}
use mcpdial.Protocol.Errors.{Result, ok}
use mcpdial.Session.{Transport, Session, on_ok, ask, max_pages}

-- The page that a result holds, and the cursor to a further one.
abbrev pub page_of : Str → Value → List Value
page_of key result = unwrap_or [] (and_then (get key result) as_array)

abbrev pub not_empty : Str → Option Str
not_empty s = if is_empty s then none else some s

unfoldable pub next_cursor : Value → Option Str
next_cursor result = and_then (and_then (get (codes "nextCursor") result) as_str) not_empty

abbrev pub cursor_params : Str → Value
cursor_params c = obj (field (codes "cursor") (str c) end)

-- `seen.insert(c)` gives whether the cursor is new.
abbrev pub is_seen : List Str → Str → Bool
is_seen seen c = any (str_eq c) seen

-- Whether the loop goes on, and with which cursor.
abbrev pub further : List Str → Option Str → Option Str
further seen none = none
further seen (some c) = if is_seen seen c then none else some c

abbrev pub concat : List (List Value) → List Value
concat [] = []
concat (page ∷ pages) = page ++ concat pages

module _ {S : Type 0} (T : Transport S) (method key : Str) where
  -- The loop: `n` requests are left.
  abbrev pub to_page :
      Session S
      → List Value
      → Option Str
      → (Str → Session S × Result (List Value))
      → Session S × Result (List Value)
  to_page s items none go_on = (s, ok items)
  to_page s items (some c) go_on = go_on c

  unfoldable pub read_pages :
      ℕ → Session S → Option Str → List Str → List Value → Session S × Result (List Value)
  read_pages zero s cursor seen items = (s, ok items)
  read_pages (suc n) s cursor seen items =
      on_ok (ask T s method (map_opt cursor_params cursor)) (λ t result.
        to_page t (items ++ page_of key result) (further seen (next_cursor result))
          (λ c. read_pages n t (some c) (c ∷ seen) (items ++ page_of key result)))

  unfoldable pub list_paginated : Session S → Session S × Result (List Value)
  list_paginated s = read_pages max_pages s none [] []

  -- A server that serves the list in `pages` behind `cursor`: each request is answered with a page and
  -- names a cursor that is new, but for the last, which names none or one seen before.
  abbrev pub Serves : Session S → Option Str → List Str → List (List Value) → Session S → Type 0
  Serves s cursor seen [] end_state = ⊥
  Serves s cursor seen (page ∷ []) end_state =
      (result : Value) × (ask T s method (map_opt cursor_params cursor) ≡ (end_state, ok result))
      × (page_of key result ≡ page)
      × (further seen (next_cursor result) ≡ none)
  Serves s cursor seen (page ∷ next ∷ pages) end_state =
      (result : Value) × (t : Session S) × (c : Str) × (ask T s method
          (map_opt cursor_params cursor)
        ≡ (t, ok result))
      × (page_of key result ≡ page)
      × (further seen (next_cursor result) ≡ some c)
      × Serves t (some c) (c ∷ seen) (next ∷ pages) end_state

  read_pages-served :
      (n : ℕ) (s : Session S) (cursor : Option Str) (seen : List Str) (items : List Value)
      (pages : List (List Value)) (t : Session S)
      → Serves s cursor seen pages t
      → length pages ≤ n
      → read_pages n s cursor seen items ≡ (t, ok (items ++ concat pages))
  unfolding read_pages
  read_pages-served n s cursor seen items [] t h few = absurd h
  read_pages-served zero s cursor seen items (page ∷ pages) t h few = absurd (omega arith)
  read_pages-served (suc n) s cursor seen items (page ∷ []) t (result, asked, paged, last) few =
      rw (asked, paged, last, append-nil page) refl
  read_pages-served (suc n) s cursor seen items (page ∷ next ∷ pages) t
        (result, u, c, asked, paged, more, h) few =
      rw (asked, paged, more)
        (read_pages-served n u (some c) (c ∷ seen) (items ++ page) (next ∷ pages) t h (omega arith)
          ∙ ap (λ (l : List Value). (t, ok l)) (append_assoc items page (concat (next ∷ pages))))

  -- A list that a server serves in at most 1000 pages, each naming a cursor not named before but the
  -- last, is read whole, in order, and with no request behind the last page.
  pub list_paginated-served :
      (s : Session S) (pages : List (List Value)) (t : Session S)
      → Serves s none [] pages t
      → length pages ≤ max_pages
      → list_paginated s ≡ (t, ok (concat pages))
  unfolding list_paginated
  list_paginated-served s pages t h few = read_pages-served max_pages s none [] [] pages t h few
