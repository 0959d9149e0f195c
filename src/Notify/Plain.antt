-- ===== src/Notify/Plain.antt =====
-- What a server sends is shown on one line and with no control character.
use mcpdial.Base.{
  ℕ, ◌/◌, ◌%◌, ◌<◌, Bool, true, false, ◌||◌, Option, none, some, [], ◌∷◌, Str, codes, str_eq, trim,
  trim_start, trim_end, if◌then◌else◌, ◌==◌, map_opt, All, All-append, arith, ◌≡◌, inl, inr, refl,
  Bool-cases, Option-cases, is_whitespace, subst,
}
use mcpdial.Json.{Value, index, as_str, Number}
use mcpdial.Notify.{
  Body, progress, log, list_changed, resource_updated, acknowledged, Notice, Listing, is_control,
  hex_digit, shown_char, shown_chars, one_line, read_body, read, progress_method, message_method,
  resource_updated_method, acknowledged_method, is_ours, read_progress, read_log, read_updated,
  as_number,
}

-- A text with no control character, so on one line.
abbrev pub IsPlain : Str → Type 0
IsPlain = All (λ c. is_control c ≡ false)

hex_digit-IsPlain : (d : ℕ) → d < 16 → is_control (hex_digit d) ≡ false
hex_digit-IsPlain d h = ground arith

shown_char-IsPlain : (c : ℕ) → IsPlain (shown_char c)
unfolding shown_char
shown_char-IsPlain c = elim (Bool-cases (c == 10 || c == 9)) [
  | inl e ↦ rw e (refl, tt)
  | inr e ↦ elim (Bool-cases (c == 13)) [
    | inl e1 ↦ rw (e, e1) (refl, (refl, tt))
    | inr e1 ↦ elim (Bool-cases (c == 0)) [
      | inl e2 ↦ rw (e, e1, e2) (refl, (refl, tt))
      | inr e2 ↦ elim (Bool-cases (is_control c)) [
        | inl e3 ↦
            rw (e, e1, e2, e3)
              (
                refl,
                (
                  refl,
                  (
                    hex_digit-IsPlain (c / 16) (ground arith),
                    (hex_digit-IsPlain (c % 16) (omega arith), tt),
                  ),
                ),
              )
        | inr e3 ↦ rw (e, e1, e2, e3) (e3, tt)
      ]
    ]
  ]
]

shown_chars-IsPlain : (s : Str) → IsPlain (shown_chars s)
shown_chars-IsPlain [] = tt
shown_chars-IsPlain (c ∷ s) =
    All-append (λ d. is_control d ≡ false) (shown_char c) (shown_chars s) (shown_char-IsPlain c)
      (shown_chars-IsPlain s)

if-IsPlain : (b : Bool) (s t : Str) → IsPlain s → IsPlain t → IsPlain (if b then s else t)
if-IsPlain true s t hs ht = hs
if-IsPlain false s t hs ht = ht

trim_start-IsPlain : (s : Str) → IsPlain s → IsPlain (trim_start s)
unfolding trim_start
trim_start-IsPlain [] h = tt
trim_start-IsPlain (c ∷ s) (h, hs) =
    if-IsPlain (is_whitespace c) _ _ (trim_start-IsPlain s hs) (h, hs)

trim_end-IsPlain : (s : Str) → IsPlain s → IsPlain (trim_end s)
unfolding trim_end
trim_end-IsPlain [] h = tt
trim_end-IsPlain (c ∷ s) (h, hs) = kept (trim_end s) (trim_end-IsPlain s hs)
  where
    kept :
        (r : Str)
        → IsPlain r
        → IsPlain (elim r as (λ q. Str) [
          | [] ↦ if is_whitespace c then [] else c ∷ []
          | d ∷ q ↦ c ∷ d ∷ q
        ])
    kept [] hr = if-IsPlain (is_whitespace c) [] (c ∷ []) tt (h, tt)
    kept (d ∷ q) hr = (h, hr)

one_line-IsPlain : (s : Str) → IsPlain (one_line s)
unfolding one_line trim
one_line-IsPlain s = trim_end-IsPlain _ (trim_start-IsPlain _ (shown_chars-IsPlain s))

-- The texts that a notification can put in front of a person.
abbrev pub IsPlainOpt : Option Str → Type 0
IsPlainOpt none = Unit
IsPlainOpt (some s) = IsPlain s

abbrev pub IsShowable : Body → Type 0
IsShowable (progress done total said) = IsPlainOpt said
IsShowable (log level logger text) = IsPlainOpt logger × IsPlain text
IsShowable (list_changed what) = Unit
IsShowable (resource_updated uri) = IsPlain uri
IsShowable (acknowledged notifications) = Unit

one_line_opt : (o : Option Str) → IsPlainOpt (map_opt one_line o)
one_line_opt none = tt
one_line_opt (some s) = one_line-IsPlain s

module _ (print : Value → Str) where
  abbrev IsShowableOpt : Option Body → Type 0
  IsShowableOpt none = Unit
  IsShowableOpt (some b) = IsShowable b

  read_progress-shown : (params : Value) → IsShowableOpt (read_progress print params)
  unfolding read_progress
  read_progress-shown params = shown (as_number (index params (codes "progress")))
    where
      shown :
          (o : Option Number)
          → IsShowableOpt (
              map_opt
                (λ done.
                  progress done
                    (as_number (index params (codes "total")))
                    (map_opt one_line (as_str (index params (codes "message")))))
                o)
      shown none = tt
      shown (some n) = one_line_opt (as_str (index params (codes "message")))

  read_updated-shown : (params : Value) → IsShowableOpt (read_updated print params)
  unfolding read_updated
  read_updated-shown params = shown (as_str (index params (codes "uri")))
    where
      shown : (o : Option Str) → IsShowableOpt (map_opt (λ uri. resource_updated (one_line uri)) o)
      shown none = tt
      shown (some s) = one_line-IsPlain s

  if-shown :
      (b : Bool) (o p : Option Body)
      → IsShowableOpt o
      → IsShowableOpt p
      → IsShowableOpt (if b then o else p)
  if-shown true o p ho hp = ho
  if-shown false o p ho hp = hp

  listing-shown : (o : Option Listing) → IsShowableOpt (map_opt list_changed o)
  listing-shown none = tt
  listing-shown (some l) = tt

  read_body-shown :
      (method : Str) (params : Value) (token : Option Value)
      → IsShowableOpt (read_body print method params token)
  unfolding read_body read_log
  read_body-shown method params token =
      if-shown (str_eq method progress_method) _ _
        (if-shown (is_ours print token params) _ none (read_progress-shown params) tt)
        (if-shown (str_eq method message_method) _ _ (one_line_opt _, one_line-IsPlain _)
          (if-shown (str_eq method resource_updated_method) _ _ (read_updated-shown params)
            (if-shown (str_eq method acknowledged_method) _ _ tt (listing-shown _))))

  -- Whatever a server sends, the texts of the notice read from it hold no control character, so each
  -- is one line and none can drive a terminal.
  pub read-IsShowable :
      (msg : Value) (token : Option Value) {n : Notice}
      → read print msg token ≡ some n
      → IsShowable n.body
  unfolding read
  read-IsShowable msg token {n} e = elim (Option-cases (as_str (index msg (codes "method")))) [
    | inl missing ↦ cc (rw missing at e)
    | inr (m, named) ↦ elim (Option-cases (read_body print m (index msg (codes "params")) token)) [
      | inl nothing ↦ cc (rw (named, nothing) at e)
      | inr (b, made) ↦
          let shown : IsShowableOpt (some b) =
            subst IsShowableOpt made (read_body-shown m (index msg (codes "params")) token) in
          let same : b ≡ n.body = cc (rw (named, made) at e) in subst IsShowable same shown
    ]
  ]
