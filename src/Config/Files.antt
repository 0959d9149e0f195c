-- ===== src/Config/Files.antt =====
-- src/config.rs, `read_json` and `write_json`: a file of the store is what reading it gives and what
-- writing it ends in. A missing or empty file reads as the default, serde reads back what it wrote,
-- and a write replaces the file whole or leaves it as it was. An operation holds the lock of its file
-- from its read to its write, so it is one step.
use mcpdial.Base.{Option, none, some, ◌≡◌, refl, ap, ◌∙◌, ◌⊎◌, inl, inr}
use mcpdial.Protocol.Errors.{Error, Result, ok, err}

pub record File (A : Type 0) : Type 0 where
  pub content : Result A
  pub refused : Option Error

abbrev pub written : {A : Type 0} → A → File A → Option Error → File A × Result (Unit {0})
written a f none = (record f { content = ok a }, ok tt)
written a f (some e) = (f, err e)

abbrev pub write_json : {A : Type 0} → A → File A → File A × Result (Unit {0})
write_json a f = written a f f.refused

abbrev decided : {A : Type 0} → Option A → File A → File A × Result (Unit {0})
decided none f = (f, ok tt)
decided (some b) f = write_json b f

-- Read a file, change what it says, and write it where the change says so.
abbrev changed : {A : Type 0} → (A → Option A) → File A → Result A → File A × Result (Unit {0})
changed change f (err e) = (f, err e)
changed change f (ok a) = decided (change a) f

unfoldable pub rewrite : {A : Type 0} → (A → Option A) → File A → File A × Result (Unit {0})
rewrite change f = changed change f f.content

-- A change that is not written leaves the file, and one that is written is what the file then says.
pub rewrite-none :
    {A : Type 0} (change : A → Option A) (f : File A) (a : A)
    → f.content ≡ ok a
    → change a ≡ none
    → rewrite change f ≡ (f, ok tt)
unfolding rewrite
rewrite-none change f a read kept = ap (changed change f) read ∙ ap (λ o. decided o f) kept

pub rewrite-some :
    {A : Type 0} (change : A → Option A) (f : File A) (a b : A)
    → f.content ≡ ok a
    → f.refused ≡ none
    → change a ≡ some b
    → rewrite change f ≡ (record f { content = ok b }, ok tt)
unfolding rewrite
rewrite-some change f a b read writable said =
    ap (changed change f) read ∙ ap (λ o. decided o f) said ∙ ap (written b f) writable

rewrites :
    {A : Type 0} (g : A → A) (c : Result A) (r : Option Error)
    → ((e : Error) × (rewrite (λ a. some (g a)) (record { content = c; refused = r })
          ≡ (record { content = c; refused = r }, err e)))
      ⊎ ((a : A) × (c ≡ ok a)
          × (rewrite (λ a. some (g a)) (record { content = c; refused = r })
              ≡ (record { content = ok (g a); refused = r }, ok tt)))
unfolding rewrite
rewrites g (err e) r = inl (e, refl)
rewrites g (ok a) none = inr (a, refl, refl)
rewrites g (ok a) (some e) = inl (e, refl)

-- A change that is always written either is what the file then says, or leaves the file.
pub rewrite-cases :
    {A : Type 0} (g : A → A) (f : File A)
    → ((e : Error) × (rewrite (λ a. some (g a)) f ≡ (f, err e)))
      ⊎ ((a : A) × (f.content ≡ ok a)
          × (rewrite (λ a. some (g a)) f ≡ (record f { content = ok (g a) }, ok tt)))
rewrite-cases g f = rewrites g f.content f.refused
