-- ===== src/Transport/Http/Headers/Value.antt =====
-- What a server reads back out of a header value.
use mcpdial.Base.{
  ℕ, Bool, true, false, ◌&&◌, ◌≡◌, refl, ap, [], ◌∷◌, ◌++◌, Str, str_eq, str_eq_refl, arith,
  Bool-cases, inl, inr, all, if◌then◌else◌, starts_with, append_assoc,
}
use mcpdial.Transport.Http.Headers.{
  encoded_open, encoded_close, ends_with, printable, goes_as_it_is, header_value,
}

ends_with-append : (t s : Str) → ends_with t (s ++ t) ≡ true
unfolding ends_with
ends_with-append [] [] = refl
ends_with-append (c ∷ t) [] = rw (str_eq_refl (c ∷ t))
ends_with-append t (c ∷ s) = ground (arith, ends_with-append t s)

starts_with-append : (t s : Str) → starts_with t (t ++ s) ≡ true
unfolding starts_with
starts_with-append [] s = refl
starts_with-append (c ∷ t) s = ground (arith, starts_with-append t s)

-- A text less the `?=` at its end.
strip_close : Str → Str
strip_close [] = []
strip_close (c ∷ s) =
    let rest = strip_close s in if str_eq (c ∷ s) encoded_close then [] else c ∷ rest

longer-ne-close : (c : ℕ) (s : Str) → str_eq (c ∷ (s ++ encoded_close)) encoded_close ≡ false
unfolding str_eq
longer-ne-close c [] = ground arith
longer-ne-close c (d ∷ []) = ground arith
longer-ne-close c (d ∷ e ∷ s) = ground arith

strip_close-append : (s : Str) → strip_close (s ++ encoded_close) ≡ s
unfolding strip_close str_eq
strip_close-append [] = refl
strip_close-append (c ∷ s) =
    rw (longer-ne-close c s) (ap (λ (t : Str). c ∷ t) (strip_close-append s))

-- What is behind the sentinel's opening.
strip_open : Str → Str → Str
strip_open [] s = s
strip_open (p ∷ ps) [] = []
strip_open (p ∷ ps) (c ∷ s) = strip_open ps s

strip_open-append : (t s : Str) → strip_open t (t ++ s) ≡ s
unfolding strip_open
strip_open-append [] s = refl
strip_open-append (p ∷ ps) s = strip_open-append ps s

-- How a server reads a header value: what stands behind the sentinel is base64, anything else is
-- the value itself.
pub read_value : (Str → Str) → Str → Str
read_value decode v =
    if starts_with encoded_open v && ends_with encoded_close v
    then decode (strip_close (strip_open encoded_open v))
    else v

all-append : (p : ℕ → Bool) (s t : Str) → all p (s ++ t) ≡ (all p s && all p t)
all-append p [] t = refl
all-append p (c ∷ s) t = ground (arith, all-append p s t)

module _ (encode decode : Str → Str) where
  read_encoded :
      (v : Str)
      → decode (encode v) ≡ v
      → read_value decode (encoded_open ++ encode v ++ encoded_close) ≡ v
  unfolding read_value
  read_encoded v back =
      rw
        (
          append_assoc encoded_open (encode v) encoded_close,
          starts_with-append encoded_open (encode v ++ encoded_close),
          ← append_assoc encoded_open (encode v) encoded_close,
          ends_with-append encoded_close (encoded_open ++ encode v),
          append_assoc encoded_open (encode v) encoded_close,
          strip_open-append encoded_open (encode v ++ encoded_close),
          strip_close-append (encode v),
        )
        back

  -- Whatever the value, a server that decodes what stands behind the sentinel reads back the value
  -- that was meant, and every character on the wire is one a header may hold. Base64 is taken to
  -- be read back to what was encoded, and to be printable.
  pub read_value-header_value :
      (v : Str)
      → decode (encode v) ≡ v
      → all printable (encode v) ≡ true
      → (read_value decode (header_value encode v) ≡ v)
        × (all printable (header_value encode v) ≡ true)
  unfolding header_value
  read_value-header_value v back clean = elim (Bool-cases (goes_as_it_is v)) [
    | inl e ↦ rw e (unfold goes_as_it_is read_value in (ground arith, ground arith))
    | inr e ↦ rw e (read_encoded v back, rw (all-append printable (encode v) encoded_close, clean))
  ]
