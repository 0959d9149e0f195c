-- ===== src/Background/Watching/States.antt =====
-- What the state of a task says, and what the loop that watches it makes of that.
use mcpdial.Base.{
  Str, Bool, true, false, [], ◌≡◌, refl, sym, ◌∙◌, arith, ◌↔◌, ◌⊎◌, inl, inr, codes, unwrap_or,
  str_eq, str_eq_iff, str_eq-false, if◌then◌else◌,
}
use mcpdial.Json.{Value, index, as_str}
use mcpdial.Background.Facts.{is_terminal, status_of}
use mcpdial.Background.Watching.{Look, over, asking, running, look}

-- What a state says of its task, by its field `status`.
abbrev pub said_status : Value → Str
said_status state = unwrap_or [] (as_str (index state (codes "status")))

abbrev pub HasEnded : Value → Type 0
HasEnded state =
    (said_status state ≡ codes "completed")
    ⊎ ((said_status state ≡ codes "failed") ⊎ (said_status state ≡ codes "cancelled"))

abbrev pub WantsInput : Value → Type 0
WantsInput state = said_status state ≡ codes "input_required"

abbrev pub GoesOn : Value → Type 0
GoesOn state = ¬ HasEnded state × ¬ WantsInput state

is_terminal_iff : (state : Value) → (is_terminal state ≡ true) ↔ HasEnded state
unfolding is_terminal status_of
is_terminal_iff state = ground (
  arith,
  str_eq_iff (said_status state) (codes "completed"),
  str_eq_iff (said_status state) (codes "failed"),
  str_eq_iff (said_status state) (codes "cancelled"),
)

-- What the loop makes of a state is what the state says.
abbrev pub Says : Value → Look → Type 0
Says state over = HasEnded state
Says state asking = WantsInput state
Says state running = GoesOn state

look_by :
    (state : Value) (terminal asked : Bool)
    → is_terminal state ≡ terminal
    → str_eq (said_status state) (codes "input_required") ≡ asked
    → Says state (if terminal then over else if asked then asking else running)
look_by state true asked e g = (is_terminal_iff state).0 e
look_by state false true e g = (str_eq_iff (said_status state) (codes "input_required")).0 g
look_by state false false e g = (
  λ h. absurd (cc (sym ((is_terminal_iff state).1 h) ∙ e)),
  λ h. absurd (cc (sym ((str_eq_iff (said_status state) (codes "input_required")).1 h) ∙ g)),
)

pub look-Says : (state : Value) → Says state (look state)
unfolding look status_of
look-Says state =
    look_by state (is_terminal state) (str_eq (said_status state) (codes "input_required")) refl
      refl

not_both : (state : Value) → HasEnded state → ¬ WantsInput state
unfolding str_eq
not_both state (inl h) g =
    absurd (str_eq-false (codes "completed") (codes "input_required") refl (sym h ∙ g))
not_both state (inr (inl h)) g =
    absurd (str_eq-false (codes "failed") (codes "input_required") refl (sym h ∙ g))
not_both state (inr (inr h)) g =
    absurd (str_eq-false (codes "cancelled") (codes "input_required") refl (sym h ∙ g))

Says-one : (state : Value) (l m : Look) → Says state l → Says state m → l ≡ m
Says-one state over over h g = refl
Says-one state over asking h g = absurd (not_both state h g)
Says-one state over running h g = absurd (g.0 h)
Says-one state asking over h g = absurd (not_both state g h)
Says-one state asking asking h g = refl
Says-one state asking running h g = absurd (g.1 h)
Says-one state running over h g = absurd (h.0 g)
Says-one state running asking h g = absurd (h.1 g)
Says-one state running running h g = refl

pub Says-look : (state : Value) (l : Look) → Says state l → look state ≡ l
Says-look state l h = Says-one state (look state) l (look-Says state) h
