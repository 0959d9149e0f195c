-- ===== src/Subscriptions/Order.antt =====
-- The order of events, which is that of the set they wait in.
use mcpdial.Base.{
  str_lt_irrefl, true, false, [], ◌∷◌, Str, str_eq, str_eq_iff, str_lt, ◌≡◌, ◌↔◌, refl, arith,
}
use mcpdial.Notify.{Listing, tools, resources, prompts}
use mcpdial.Subscriptions.{Event, changed, updated, event_eq, event_lt, rank}

str_lt_trans : (s t u : Str) → str_lt s t ≡ true → str_lt t u ≡ true → str_lt s u ≡ true
unfolding str_lt
str_lt_trans s t [] h g = cc
str_lt_trans s [] (c ∷ u) h g = cc
str_lt_trans [] (b ∷ t) (c ∷ u) h g = refl
str_lt_trans (a ∷ s) (b ∷ t) (c ∷ u) h g = ground (arith, str_lt_trans s t u)

str_lt_total : (s t : Str) → str_eq s t ≡ false → str_lt s t ≡ false → str_lt t s ≡ true
unfolding str_lt str_eq
str_lt_total [] [] e h = cc
str_lt_total [] (b ∷ t) e h = cc
str_lt_total (a ∷ s) [] e h = refl
str_lt_total (a ∷ s) (b ∷ t) e h = ground (arith, str_lt_total s t)

rank_inj : (a b : Listing) → rank a ≡ rank b → a ≡ b
rank_inj tools tools h = refl
rank_inj tools resources h = absurd (omega arith)
rank_inj tools prompts h = absurd (omega arith)
rank_inj resources tools h = absurd (omega arith)
rank_inj resources resources h = refl
rank_inj resources prompts h = absurd (omega arith)
rank_inj prompts tools h = absurd (omega arith)
rank_inj prompts resources h = absurd (omega arith)
rank_inj prompts prompts h = refl

pub event_eq_iff : (a b : Event) → (event_eq a b ≡ true) ↔ (a ≡ b)
unfolding event_eq
event_eq_iff (changed a) (changed b) = ground (arith, rank_inj a b)
event_eq_iff (changed a) (updated b) = ground arith
event_eq_iff (updated a) (changed b) = ground arith
event_eq_iff (updated a) (updated b) = ground (arith, str_eq_iff a b)

pub event_lt_irrefl : (e : Event) → event_lt e e ≡ false
unfolding event_lt
event_lt_irrefl (changed a) = ground arith
event_lt_irrefl (updated a) = str_lt_irrefl a

pub event_lt_trans :
    (e f g : Event) → event_lt e f ≡ true → event_lt f g ≡ true → event_lt e g ≡ true
unfolding event_lt
event_lt_trans (changed a) (changed b) (changed c) h k = ground arith
event_lt_trans (changed a) (changed b) (updated c) h k = refl
event_lt_trans (changed a) (updated b) (changed c) h k = cc
event_lt_trans (changed a) (updated b) (updated c) h k = refl
event_lt_trans (updated a) (changed b) g h k = cc
event_lt_trans (updated a) (updated b) (changed c) h k = cc
event_lt_trans (updated a) (updated b) (updated c) h k = str_lt_trans a b c h k

pub event_lt_total :
    (e f : Event) → event_eq e f ≡ false → event_lt e f ≡ false → event_lt f e ≡ true
unfolding event_lt event_eq
event_lt_total (changed a) (changed b) e h = ground arith
event_lt_total (changed a) (updated b) e h = cc
event_lt_total (updated a) (changed b) e h = refl
event_lt_total (updated a) (updated b) e h = str_lt_total a b e h
